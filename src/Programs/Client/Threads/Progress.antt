-- ===== src/Programs/Client/Threads/Progress.antt =====
-- How far the threads of examples/client.cpp get.
use mprtplib.Prelude.{
  ℕ, ◌≡◌, ◌≢◌, ◌⊎◌, inl, inr, refl, ap, ◌∙◌, Bool, true, false, List, [], subst, Bool-cases,
}
use mprtplib.Prelude.Int.{ℤ}
use mprtplib.Prelude.Result.{Result, ok, fault, stuck}
use mprtplib.Address.{Text}
use mprtplib.Double.{Double}
use mprtplib.World.{World}
use mprtplib.Session.Poll.{Session, Rounds}
use mprtplib.Sender.{Sender}
use mprtplib.Sender.Cycle.{poll}
use mprtplib.Sender.Lists.{Route}
use mprtplib.Sender.Invariant.{send_data-IsSound}
use mprtplib.Programs.{Opening}
use mprtplib.Programs.Client.{ClientSettings, client_ssrc, start_client}
use mprtplib.Programs.Client.Threads.{
  Client, Holder, nobody, poll_thread, main_thread, MainThread, reading, waiting, sending, sent,
  joining, interrupted, PollThread, checking, locking, polling, polled, finished, holds_main,
  holds_poll, threads_of, Step, check, leave, lock_poll, do_poll, unlock_poll, read_end, lock_main,
  do_send, unlock_main, Reach,
}
use mprtplib.Programs.Client.Threads.Laws.{
  IsRunning, Owned, poller_at, reader_at, some_subflow, some_route, Reach-IsRunning,
}
use mprtplib.Programs.Client.Threads.Stops.{IsDeadlocked}

module _ {W : Type 0} ⦃d : Double W⦄ where
  -- Both threads are where a `join` returns.
  pub record IsOver (c : Client W) : Type 0 where
    pub poller_done : c.poller ≡ finished
    pub main_joins : (c.reader ≡ joining) ⊎ ((held : Bool) × (c.reader ≡ interrupted held))

  -- A step of one of the threads, and not a signal.
  abbrev pub Moves : Client W → Type 0
  Moves c = (c' : Client W) × Step c c' × (c'.stop_client ≡ c.stop_client)

  -- `cli.poll()` does not return on what the sockets bring.
  pub record IsPolling (rounds : ℕ → Rounds W) (c : Client W) : Type 0 where
    pub at_poll : c.poller ≡ polling
    pub no_return : (ret : ℤ) (cli' : Session W (Sender W)) → poll rounds c.cli ≢ ok (ret, cli')

  abbrev pub Goes : (ℕ → Rounds W) → Client W → Type 0
  Goes rounds c = Moves c ⊎ (IsOver c ⊎ (IsPolling rounds c ⊎ IsDeadlocked c))

  module _ (routes : List (Route W)) (some_route : routes ≢ []) (rounds : ℕ → Rounds W)
      (c : Client W) (run : IsRunning routes c) where
    sending-Moves : (line : Text) → c.reader ≡ sending line → Moves c
    sending-Moves line at =
        let n = some_subflow routes some_route c.cli.object run.sound in
        let (whole, s', e, _) =
          send_data-IsSound routes client_ssrc c.cli.object line n run.sound in
        (_, do_send c line whole s' at e, refl)

    -- The main thread holds the mutex.
    main-Moves :
        (m : MainThread)
        → c.reader ≡ m
        → holds_main m ≡ true
        → Moves c ⊎ (c.reader ≡ interrupted true)
    unfolding holds_main
    main-Moves reading at held = cc
    main-Moves (waiting line) at held = cc
    main-Moves (sending line) at held = inl (sending-Moves line at)
    main-Moves sent at held = inl (_, unlock_main c at, refl)
    main-Moves joining at held = cc
    main-Moves (interrupted b) at held = inr (at ∙ ap interrupted held)

    locking-Goes : (h : Holder) → c.sync ≡ h → c.poller ≡ locking → Goes rounds c
    unfolding holds_poll
    locking-Goes nobody free at = inl (_, lock_poll c at free, refl)
    locking-Goes poll_thread taken at =
        let o : (false ≡ true) × (holds_main c.reader ≡ false) =
          subst (λ h. Owned h false (holds_main c.reader)) taken
            (poller_at routes some_route c at run) in
        cc
    locking-Goes main_thread taken at =
        let o : (false ≡ false) × (holds_main c.reader ≡ true) =
          subst (λ h. Owned h false (holds_main c.reader)) taken
            (poller_at routes some_route c at run) in
        elim (main-Moves c.reader refl o.1) [
          | inl moves ↦ inl moves
          | inr stopped ↦ inr (
              inr (inr (record { handler_waits = stopped; poller_waits = at; main_holds = taken })))
        ]

    -- The poll thread is done, and the mutex is the main thread's if it is anyone's.
    waiting-Moves :
        (h : Holder) (line : Text)
        → c.sync ≡ h
        → c.poller ≡ finished
        → c.reader ≡ waiting line
        → Moves c
    unfolding holds_poll holds_main
    waiting-Moves nobody line free done at = (_, lock_main c line at free, refl)
    waiting-Moves poll_thread line taken done at =
        let o : (holds_poll c.poller ≡ true) × (false ≡ false) =
          subst (λ h. Owned h (holds_poll c.poller) false) taken
            (reader_at routes some_route c at run) in
        let idle : holds_poll c.poller ≡ false = ap holds_poll done in cc
    waiting-Moves main_thread line taken done at =
        let o : (holds_poll c.poller ≡ false) × (false ≡ true) =
          subst (λ h. Owned h (holds_poll c.poller) false) taken
            (reader_at routes some_route c at run) in
        cc

    finished-Goes : (m : MainThread) → c.reader ≡ m → c.poller ≡ finished → Goes rounds c
    finished-Goes reading at done = inl (_, read_end c at, refl)
    finished-Goes (waiting line) at done = inl (waiting-Moves c.sync line refl done at)
    finished-Goes (sending line) at done = inl (sending-Moves line at)
    finished-Goes sent at done = inl (_, unlock_main c at, refl)
    finished-Goes joining at done = inr (inl (record { poller_done = done; main_joins = inl at }))
    finished-Goes (interrupted held) at done =
        inr (inl (record { poller_done = done; main_joins = inr (held, at) }))

    polling-Goes :
        (r : Result (ℤ × Session W (Sender W)))
        → poll rounds c.cli ≡ r
        → c.poller ≡ polling
        → Goes rounds c
    polling-Goes (ok (ret, cli')) e at = inl (_, do_poll c rounds ret cli' at e, refl)
    polling-Goes fault e at =
        inr (inr (inl (record { at_poll = at; no_return = λ ret cli' e'. cc (rw e at e') })))
    polling-Goes stuck e at =
        inr (inr (inl (record { at_poll = at; no_return = λ ret cli' e'. cc (rw e at e') })))

    threads-Goes : (p : PollThread) → c.poller ≡ p → Goes rounds c
    threads-Goes checking at = elim (Bool-cases c.stop_client) [
      | inl stop ↦ inl (_, leave c at stop, refl)
      | inr go ↦ inl (_, check c at go, refl)
    ]
    threads-Goes locking at = locking-Goes c.sync refl at
    threads-Goes polling at = polling-Goes (poll rounds c.cli) refl at
    threads-Goes polled at = inl (_, unlock_poll c at, refl)
    threads-Goes finished at = finished-Goes c.reader refl at

  -- In each state that the threads of a connected client reach, one of the threads can take a step,
  -- with no signal, unless both are at their end, `cli.poll()` does not return on what the sockets
  -- bring, or the handler's `join` and the poll thread's `lock` wait for each other.
  pub Reach-Goes :
      (inet_addr : Text → ℕ) (opens : ℕ → Opening) (o : ClientSettings) (w : World W) (c : Client W)
      (rounds : ℕ → Rounds W)
      → (start_client inet_addr opens o w).0 ≡ true
      → Reach (threads_of (start_client inet_addr opens o w).1) c
      → Goes rounds c
  Reach-Goes inet_addr opens o w c rounds e reached =
      threads-Goes _ (some_route inet_addr opens o w e) rounds c
        (Reach-IsRunning inet_addr opens o w c e reached) c.poller refl
