-- ===== src/Programs/Client/Threads/Stops.antt =====
-- Where the threads of examples/client.cpp come to a stop.
use mprtplib.Prelude.{ℕ, ◌≡◌, ◌≢◌, ap, true, false, Bool}
use mprtplib.Address.{Text}
use mprtplib.Double.{Double}
use mprtplib.World.{World}
use mprtplib.Programs.{Opening}
use mprtplib.Programs.Client.{ClientSettings, start_client}
use mprtplib.Programs.Client.Threads.{
  Client, main_thread, sending, joining, interrupted, locking, finished, holds_main, holds_poll,
  threads_of, Step, check, leave, lock_poll, do_poll, unlock_poll, read_line, read_end, lock_main,
  do_send, unlock_main, interrupt, Reach,
}
use mprtplib.Programs.Client.Threads.Laws.{Owned-main, reader_at, some_route, Reach-IsRunning}

module _ {W : Type 0} ⦃d : Double W⦄ where
  -- The handler waits for the poll thread, and the poll thread for the mutex that the handler's own
  -- thread holds.
  pub record IsDeadlocked (c : Client W) : Type 0 where
    pub handler_waits : c.reader ≡ interrupted true
    pub poller_waits : c.poller ≡ locking
    pub main_holds : c.sync ≡ main_thread

  IsDeadlocked-stops : (a b : Client W) → IsDeadlocked a → ¬ Step a b
  IsDeadlocked-stops a b dead (check c at go) = let e = dead.poller_waits in cc
  IsDeadlocked-stops a b dead (leave c at stop) = let e = dead.poller_waits in cc
  IsDeadlocked-stops a b dead (lock_poll c at free) = let e = dead.main_holds in cc
  IsDeadlocked-stops a b dead (do_poll c rounds ret cli' at e') = let e = dead.poller_waits in cc
  IsDeadlocked-stops a b dead (unlock_poll c at) = let e = dead.poller_waits in cc
  IsDeadlocked-stops a b dead (read_line c line at full short) = let e = dead.handler_waits in cc
  IsDeadlocked-stops a b dead (read_end c at) = let e = dead.handler_waits in cc
  IsDeadlocked-stops a b dead (lock_main c line at free) = let e = dead.handler_waits in cc
  IsDeadlocked-stops a b dead (do_send c line whole s' at e') = let e = dead.handler_waits in cc
  IsDeadlocked-stops a b dead (unlock_main c at) = let e = dead.handler_waits in cc
  IsDeadlocked-stops a b dead (interrupt c once) = once true dead.handler_waits

  -- A signal that comes while the main thread holds the mutex for a line and the poll thread is at
  -- `lock` ends in a state that has no next step and in which the poll thread is not done: the handler
  -- waits for it, and it waits for the handler's thread.
  pub interrupt-IsDeadlocked :
      (inet_addr : Text → ℕ) (opens : ℕ → Opening) (o : ClientSettings) (w : World W) (c : Client W)
      (line : Text)
      → (start_client inet_addr opens o w).0 ≡ true
      → Reach (threads_of (start_client inet_addr opens o w).1) c
      → c.reader ≡ sending line
      → c.poller ≡ locking
      → (c' : Client W) × Step c c' × IsDeadlocked c' × ((c'' : Client W) → ¬ Step c' c'')
  unfolding holds_main
  interrupt-IsDeadlocked inet_addr opens o w c line e reached at waits =
      let run = Reach-IsRunning inet_addr opens o w c e reached in
      let held =
        Owned-main c.sync (holds_poll c.poller)
          (reader_at _ (some_route inet_addr opens o w e) c at run) in
      let c' = record c { reader = interrupted (holds_main c.reader); stop_client = true } in
      let dead : IsDeadlocked c' = record {
        handler_waits = ap (λ m. interrupted (holds_main m)) at;
        poller_waits = waits;
        main_holds = held.0;
      } in
      (c', interrupt c (λ b i. cc), dead, λ c''. IsDeadlocked-stops c' c'' dead)

  -- `main` is in its last `join`, nobody has set `stop_client`, and the poll thread goes on.
  pub record IsJoining (c : Client W) : Type 0 where
    pub joins : c.reader ≡ joining
    pub runs : c.stop_client ≡ false
    pub polls : c.poller ≢ finished

  -- The handler has run: `stop_client` is set, and the main thread is in the handler's `join`.
  pub record IsStopping (c : Client W) : Type 0 where
    pub stops : c.stop_client ≡ true
    pub handles : (held : Bool) × (c.reader ≡ interrupted held)
