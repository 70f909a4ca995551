-- ===== src/Programs/Client/Threads/Laws.antt =====
-- What holds in each state that the threads of examples/client.cpp reach.
use mprtplib.Prelude.{
  ℕ, ◌^◌, ◌<◌, ◌≡◌, ◌≢◌, refl, ap, sym, ◌∙◌, arith, Bool, true, false, some, List, [], ◌∷◌, map,
  subst, All, get_elem?, drop, length,
}
use mprtplib.Prelude.Result.{Result, ok, Holds}
use mprtplib.Address.{Text, Endpoint}
use mprtplib.Double.{Double}
use mprtplib.World.{World}
use mprtplib.Interface.{Datagram}
use mprtplib.Packet.{rtp_packet}
use mprtplib.Packet.RoundTrip.{received}
use mprtplib.Subflow.{Subflow}
use mprtplib.Sender.{Sender}
use mprtplib.Sender.Cycle.{poll}
use mprtplib.Sender.Lists.{Route, route, IsSoundSubflow}
use mprtplib.Sender.Steady.{IsSound}
use mprtplib.Sender.Invariant.{poll-IsSound, send_data-IsSound}
use mprtplib.Sender.Sending.{arriving, send_data-rtp_packet}
use mprtplib.Programs.{Opening}
use mprtplib.Programs.Client.{ClientSettings, client_ssrc, start_client}
use mprtplib.Programs.Client.Start.{client_routes, start_client-IsSound}
use mprtplib.Programs.Client.Threads.{
  Client, Holder, nobody, poll_thread, main_thread, MainThread, sending, sent, PollThread,
  holds_main, holds_poll, threads_of, Step, check, leave, lock_poll, do_poll, unlock_poll,
  read_line, read_end, lock_main, do_send, unlock_main, interrupt, Reach, here, next, reading,
  waiting, joining, interrupted,
}

-- The mutex is held by the thread that is between `lock` and `unlock`, and by no other.
abbrev pub Owned : Holder → (poll main : Bool) → Type 0
Owned nobody poll main = (poll ≡ false) × (main ≡ false)
Owned poll_thread poll main = (poll ≡ true) × (main ≡ false)
Owned main_thread poll main = (poll ≡ false) × (main ≡ true)

-- The line that the main thread holds, if any, has a length that `int` holds.
abbrev pub IsShort : MainThread → Type 0
IsShort reading = Unit {0}
IsShort (waiting line) = length line < 2 ^ 31
IsShort (sending line) = length line < 2 ^ 31
IsShort sent = Unit {0}
IsShort joining = Unit {0}
IsShort (interrupted held) = Unit {0}

pub record IsRunning {W : Type 0} (routes : List (Route W)) (c : Client W) : Type 0 where
  pub sound : IsSound routes client_ssrc c.cli.object
  pub owned : Owned c.sync (holds_poll c.poller) (holds_main c.reader)
  pub short : IsShort c.reader

pub Owned-poll : (h : Holder) (main : Bool) → Owned h true main → (h ≡ poll_thread) × (main ≡ false)
Owned-poll nobody main o = cc
Owned-poll poll_thread main o = (refl, o.1)
Owned-poll main_thread main o = cc

pub Owned-main : (h : Holder) (poll : Bool) → Owned h poll true → (h ≡ main_thread) × (poll ≡ false)
Owned-main nobody poll o = cc
Owned-main poll_thread poll o = cc
Owned-main main_thread poll o = (refl, o.0)

-- The mutex is free, and one of the threads takes it.
Owned-free :
    {h : Holder} {poll main : Bool}
    → h ≡ nobody
    → Owned h poll main
    → (poll ≡ false) × (main ≡ false)
Owned-free {h} {poll} {main} e o = subst (λ x. Owned x poll main) e o

pub sent_to :
    {S : Type 0} {r : Result (Bool × S)} {a b : Bool} {s t : S}
    → r ≡ ok (a, s)
    → r ≡ ok (b, t)
    → s ≡ t
sent_to e f = cc

module _ {W : Type 0} ⦃d : Double W⦄ (routes : List (Route W)) (some_route : routes ≢ []) where
  pub some_subflow : (s : Sender W) → IsSound routes client_ssrc s → s.subflows ≢ []
  some_subflow s h e = some_route (sym h.same_routes ∙ ap (map route) e)

  pub poller_at :
      (c : Client W) {p : PollThread}
      → c.poller ≡ p
      → IsRunning routes c
      → Owned c.sync (holds_poll p) (holds_main c.reader)
  poller_at c e h = subst (λ p. Owned c.sync (holds_poll p) (holds_main c.reader)) e h.owned

  pub reader_at :
      (c : Client W) {m : MainThread}
      → c.reader ≡ m
      → IsRunning routes c
      → Owned c.sync (holds_poll c.poller) (holds_main m)
  reader_at c e h = subst (λ m. Owned c.sync (holds_poll c.poller) (holds_main m)) e h.owned

  pub Step-IsRunning : (a b : Client W) → Step a b → IsRunning routes a → IsRunning routes b
  unfolding holds_main holds_poll
  Step-IsRunning a b (check c at go) h = record {
    sound = h.sound;
    owned = poller_at a at h;
    short = h.short;
  }
  Step-IsRunning a b (leave c at stop) h = record {
    sound = h.sound;
    owned = poller_at a at h;
    short = h.short;
  }
  Step-IsRunning a b (lock_poll c at free) h = record {
    sound = h.sound;
    owned = (refl, (Owned-free free h.owned).1);
    short = h.short;
  }
  Step-IsRunning a b (do_poll c rounds ret cli' at e) h = record {
    sound =
        subst (Holds (λ r. IsSound routes client_ssrc (r.1).object)) e
          (poll-IsSound routes client_ssrc rounds a.cli h.sound);
    owned = poller_at a at h;
    short = h.short;
  }
  Step-IsRunning a b (unlock_poll c at) h = record {
    sound = h.sound;
    owned = (refl, (Owned-poll a.sync (holds_main a.reader) (poller_at a at h)).1);
    short = h.short;
  }
  Step-IsRunning a b (read_line c line at full short) h = record {
    sound = h.sound;
    owned = reader_at a at h;
    short = short;
  }
  Step-IsRunning a b (read_end c at) h = record {
    sound = h.sound;
    owned = reader_at a at h;
    short = tt;
  }
  Step-IsRunning a b (lock_main c line at free) h = record {
    sound = h.sound;
    owned = ((Owned-free free h.owned).0, refl);
    short = subst IsShort at h.short;
  }
  Step-IsRunning a b (do_send c line whole s' at e) h =
      let (_, s, e', sound) =
        send_data-IsSound routes client_ssrc a.cli.object line (some_subflow a.cli.object h.sound)
          h.sound in
      record {
        sound = subst (IsSound routes client_ssrc) (sent_to e' e) sound;
        owned = reader_at a at h;
        short = tt;
      }
  Step-IsRunning a b (unlock_main c at) h = record {
    sound = h.sound;
    owned = ((Owned-main a.sync (holds_poll a.poller) (reader_at a at h)).1, refl);
    short = tt;
  }
  Step-IsRunning a b (interrupt c once) h = record { sound = h.sound; owned = h.owned; short = tt }

  Reach-IsRunning_from :
      (start c : Client W) → IsRunning routes start → Reach start c → IsRunning routes c
  Reach-IsRunning_from start c h here = h
  Reach-IsRunning_from start c h (next {a} {b} before step) =
      Step-IsRunning a c step (Reach-IsRunning_from start a h before)

module _ {W : Type 0} ⦃d : Double W⦄ where
  pub some_route :
      (inet_addr : Text → ℕ) (opens : ℕ → Opening) (o : ClientSettings) (w : World W)
      → (start_client inet_addr opens o w).0 ≡ true
      → client_routes inet_addr o (start_client inet_addr opens o w).1.interfaces ≢ []
  some_route inet_addr opens o w e none_left =
      let (sound, n) = start_client-IsSound inet_addr opens o w e in
      no_route _ n (sound.same_routes ∙ none_left)
    where
      no_route : (sfs : List (Subflow W)) → sfs ≢ [] → map route sfs ≢ []
      no_route [] n e' = n refl
      no_route (sf ∷ rest) n e' = cc

  -- In each state that the threads of a connected client reach, at most the holder of the mutex is
  -- between `lock` and `unlock`, and the sender is sound: its numbers are in their ranges, its counts
  -- are the sums of those of its subflows, and these are the ones that `connect` made. A line that is to
  -- be sent has fewer than 2 ^ 31 bytes.
  pub Reach-IsRunning :
      (inet_addr : Text → ℕ) (opens : ℕ → Opening) (o : ClientSettings) (w : World W) (c : Client W)
      → (start_client inet_addr opens o w).0 ≡ true
      → Reach (threads_of (start_client inet_addr opens o w).1) c
      → IsRunning (client_routes inet_addr o (start_client inet_addr opens o w).1.interfaces) c
  unfolding holds_main holds_poll
  Reach-IsRunning inet_addr opens o w c e reached =
      let (sound, _) = start_client-IsSound inet_addr opens o w e in
      Reach-IsRunning_from _ (some_route inet_addr opens o w e) _ c
        (record { sound = sound; owned = (refl, refl); short = tt }) reached

  pub IsSound-fits :
      {routes : List (Route W)} {ssrc : ℕ} (s : Sender W)
      → IsSound routes ssrc s
      → All (λ sf. (sf.subflow_id < 2 ^ 16) × (sf.sequence_number < 2 ^ 16)) s.subflows
  IsSound-fits s h = fits s.subflows h.subflows_sound
    where
      fits :
          (sfs : List (Subflow W))
          → All IsSoundSubflow sfs
          → All (λ sf. (sf.subflow_id < 2 ^ 16) × (sf.sequence_number < 2 ^ 16)) sfs
      fits [] all = tt
      fits (sf ∷ rest) (h', all) = ((h'.id_fits, h'.sequence_fits), fits rest all)

  -- Whenever a connected client is at `send_data` with a line, the call returns: one datagram leaves,
  -- and the receiver's parser finds the line in it, under the SSRC of the client and the number of the
  -- subflow that it left through.
  pub sending-received :
      (inet_addr : Text → ℕ) (opens : ℕ → Opening) (o : ClientSettings) (w : World W) (c : Client W)
      (line : Text) (from : Endpoint) (recvtime : W)
      → (start_client inet_addr opens o w).0 ≡ true
      → Reach (threads_of (start_client inet_addr opens o w).1) c
      → c.reader ≡ sending line
      → (k : ℕ) × (sf : Subflow W) × (s' : Sender W) × (out : Datagram) × Step c
          (record c { reader = sent; cli = record (c.cli) { object = s' } })
        × (s'.world.sent ≡ out ∷ c.cli.object.world.sent)
        × (get_elem? c.cli.object.subflows k ≡ some sf)
        × (let raw = arriving from recvtime false out.bytes in
            rtp_packet raw
            ≡ ok (
                received raw c.cli.object.sequence_number s'.timestamp client_ssrc sf.subflow_id
                  sf.sequence_number line))
        × (drop 24 out.bytes ≡ line)
  sending-received inet_addr opens o w c line from recvtime e reached at =
      let run = Reach-IsRunning inet_addr opens o w c e reached in
      let s = c.cli.object in
      let n = some_subflow _ (some_route inet_addr opens o w e) s run.sound in
      let fits : s.ssrc < 2 ^ 32 = rw run.sound.same_ssrc (omega arith) in
      let (k, sf, whole, s', out, ran, chosen, left, parsed, content) =
        send_data-rtp_packet s line from recvtime n run.sound.sequence_fits fits
          (IsSound-fits s run.sound) in
      let raw = arriving from recvtime false out.bytes in
      (
        k,
        sf,
        s',
        out,
        do_send c line whole s' at ran,
        left,
        chosen,
        parsed
            ∙ ap
                (λ ssrc. ok (
                  received raw s.sequence_number s'.timestamp ssrc sf.subflow_id sf.sequence_number
                    line))
                run.sound.same_ssrc,
        content,
      )
