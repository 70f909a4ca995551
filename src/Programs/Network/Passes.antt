-- ===== src/Programs/Network/Passes.antt =====
-- The passes of the loop of examples/server.cpp on the datagrams of examples/client.cpp.
use mathlib.Core.List.{Memᴰ}
use mprtplib.Prelude.{
  ℕ, ◌+◌, ◌%◌, ◌^◌, ◌<◌, ◌≤◌, ◌≡◌, ◌≢◌, arith, List, [], ◌∷◌, All, length, subst, map,
}
use mprtplib.Prelude.Result.{
  Result, ok, fault, stuck, Holds, Holds-any, Holds-weaken, Ends, Ends->>=, Ends-Holds,
}
use mprtplib.Address.{Text, Endpoint}
use mprtplib.Double.{Double}
use mprtplib.Interface.{Interface, Datagram}
use mprtplib.Packet.{RawPacket}
use mprtplib.Session.{process_rtcp_packet}
use mprtplib.Session.Poll.{Session, Rounds, poll_session}
use mprtplib.Session.Traffic.{All-weaken, Bring, Bring-weaken, Carries, HandlersCarry}
use mprtplib.Session.Traffic.Returns.{poll_session-Ends}
use mprtplib.Sender.Lists.{Route}
use mprtplib.Sender.Routes.{numbered}
use mprtplib.Receiver.{Receiver, receiver_handlers, poll_sources, poll}
use mprtplib.Receiver.Invariant.{poll_sources-IsOrdered}
use mprtplib.Receiver.Returns.{IsServing, poll_sources-Ends}
use mprtplib.Programs.Server.{serve_once}
use mprtplib.Programs.Server.Printing.{drain-payloads}
use mprtplib.Programs.Server.Queue.{poll-Carries}
use mprtplib.Programs.Network.{
  Carried, Directed, is_report, System, client_moves, server_passes, Run, begin, move,
}
use mprtplib.Programs.Network.Genuine.{ids_of, Genuine, Prints}
use mprtplib.Programs.Network.Honest.{All-mem}
use mprtplib.Programs.Network.Weaken.{Genuine-weaken}
use mprtplib.Programs.Network.Authentic.{IsAuthentic, Run-IsAuthentic}
use mprtplib.Programs.Network.Datagrams.{IsNumber, Proper, receiver_handlers-PacketsEnd}

-- The numbers of the client's subflows do not wrap.
pub numbered-IsNumber :
    {W : Type 0} (n k : ℕ) (ps : List (Interface W × Endpoint))
    → k ≢ 0
    → k + length ps ≤ n
    → n < 65536
    → All (IsNumber n) (ids_of (numbered k ps))
numbered-IsNumber n k [] some below fits = tt
numbered-IsNumber n k ((iface, addr) ∷ rest) some below fits = (
  (omega arith, some),
  numbered-IsNumber n ((k + 1) % 65536) rest (λ e. omega arith) (omega arith) fits,
)

Ends-kept : {A : Type 0} (P : A → Type 0) (m : Result A) → Ends P m → Holds P m
Ends-kept P (ok a) h = h
Ends-kept P fault h = tt
Ends-kept P stuck h = tt

-- The bytes of the datagram were sent.
abbrev Come : {W : Type 0} → List Datagram → RawPacket W → Type 0
Come sent raw = Memᴰ raw.bytes (map (λ out. out.bytes) sent)

Directed-Carried :
    {W : Type 0} (sent : List Datagram) (rounds : ℕ → Rounds W)
    → Directed sent rounds
    → Carried sent rounds
Directed-Carried sent rounds brought =
    Bring-weaken (λ raw. Come sent raw × (raw.is_rtcp ≡ is_report raw.bytes)) (Come sent) rounds
      (λ raw m. m.0) brought

module _ {W : Type 0} ⦃d : Double W⦄ (range32 : (x : W) → d.to_uint32 x < 2 ^ 32) (n : ℕ)
    (routes : List (Route W)) (some : routes ≢ []) (few : n ≤ 1820) (fewer : length routes ≤ 2046)
    (numbers : All (IsNumber n) (ids_of routes)) where
  -- What waits at the server is of the client, and its sources can report.
  abbrev pub IsUp : Session W (Receiver W) → Type 0
  IsUp = Carries (Proper routes) (λ pkt. Unit {0}) (IsServing n)

  poll-IsServing :
      (rounds : ℕ → Rounds W) (s : Session W (Receiver W))
      → Bring (Proper routes) rounds
      → IsUp s
      → Ends (λ r. IsServing n r.1.object) (poll rounds s)
  unfolding poll
  poll-IsServing rounds s brings up =
      Ends->>= (λ r. IsServing n r.1.object) (λ r. IsServing n r.1.object)
        (poll_session receiver_handlers rounds s) _
        (poll_session-Ends receiver_handlers (Proper routes) (IsServing n)
          (receiver_handlers-PacketsEnd range32 n routes some fewer numbers) rounds s brings
          up.waiting up.kept)
        λ r serving.
          let sources = r.1.object.sources in
          let w = r.1.object.world in
          Ends->>= _ (λ r. IsServing n r.1.object) (poll_sources sources w) _
            (Ends-Holds _ _ (poll_sources sources w)
              (poll_sources-Ends n sources w few serving.ready)
              (poll_sources-IsOrdered 0 sources w (serving.ordered).rises (serving.ordered).placed))
            λ x (ready, order). record {
              ordered = record { rises = order.0; placed = order.1 };
              ready = ready;
            }

  any-Carries :
      HandlersCarry {W = W} receiver_handlers (Proper routes) (λ pkt. Unit {0}) (λ r. Unit {0})
  any-Carries = record {
    rtcp_carries = λ raw i s r p. Holds-any (process_rtcp_packet receiver_handlers raw i s);
    rtp_carries = λ raw pkt i s r parsed good p.
        Holds-weaken (λ res. Unit {0}) _ (receiver_handlers.on_rtp_packet pkt i s)
          (Holds-any (receiver_handlers.on_rtp_packet pkt i s)) λ res h. (tt, tt);
  }

  any_queue :
      (s : Session W (Receiver W))
      → IsUp s
      → Carries (Proper routes) (λ pkt. Unit {0}) (λ r. Unit {0}) (record s { packets = [] })
  any_queue s up = record { waiting = up.waiting; queued = tt; kept = tt }

  -- A pass of the loop returns.
  serve_once-IsUp :
      (Typed : Text → Type 0) (rounds : ℕ → Rounds W) (s : Session W (Receiver W))
      → All (Prints Typed) s.packets
      → Bring (Proper routes) rounds
      → IsUp s
      → Ends (λ r. IsUp r.1) (serve_once rounds s)
  unfolding serve_once
  serve_once-IsUp Typed rounds s prints brings up =
      let printable = All-weaken (Prints Typed) _ s.packets (λ pkt h. h.printable) prints in
      let emptied = record s { packets = [] } in
      rw (drain-payloads s printable) (
        Ends->>= _ (λ r. IsUp r.1) (poll rounds emptied) _
          (Ends-Holds _ _ (poll rounds emptied)
            (poll-IsServing rounds emptied brings
              (record { waiting = up.waiting; queued = tt; kept = up.kept }))
            (poll-Carries (Proper routes) (λ pkt. Unit {0}) rounds emptied any-Carries brings
              (any_queue s up)))
          λ r (serving, c). record { waiting = c.waiting; queued = c.queued; kept = serving })

  -- What the network brings is of the client.
  Directed-Proper :
      (s : System W) (rounds : ℕ → Rounds W)
      → IsAuthentic routes s
      → Directed s.client.cli.object.world.sent rounds
      → Bring (Proper routes) rounds
  Directed-Proper s rounds h brought =
      let Typed = λ (line : Text). Memᴰ line s.typed in
      Bring-weaken
        (λ raw. Come s.client.cli.object.world.sent raw × (raw.is_rtcp ≡ is_report raw.bytes))
        (Proper routes) rounds
        (λ raw (m, direct). (
          Genuine-weaken routes Typed (λ line. Unit {0}) (λ line t. tt) raw.bytes
              (All-mem (Genuine routes Typed) s.client.cli.object.world.sent raw.bytes
                (h.client_honest).sent_genuine m),
          direct,
        ))
        brought

  pub pass-IsUp :
      (s : System W) (rounds : ℕ → Rounds W)
      → IsAuthentic routes s
      → IsUp s.server
      → Directed s.client.cli.object.world.sent rounds
      → Ends (λ r. IsUp r.1) (serve_once rounds s.server)
  pass-IsUp s rounds h up brought =
      serve_once-IsUp (λ line. Memᴰ line s.typed) rounds s.server (h.server_honest).queued
        (Directed-Proper s rounds h brought) up

  pub Run-Directed-IsAuthentic :
      (start s : System W) → Run Directed start s → IsAuthentic routes start → IsAuthentic routes s
  Run-Directed-IsAuthentic start s run h =
      Run-IsAuthentic Directed (λ sent rounds brought. Directed-Carried sent rounds brought) routes
        start s some run h

  pub Run-IsUp :
      (start s : System W)
      → Run Directed start s
      → IsAuthentic routes start
      → IsUp start.server
      → IsUp s.server
  Run-IsUp start s begin h up = up
  Run-IsUp start s (move {a} before (client_moves same c' step)) h up = Run-IsUp start a before h up
  Run-IsUp start s (move {a} before (server_passes same rounds lines server' brought ran)) h up =
      subst (Holds (λ r. IsUp r.1)) ran (
        Ends-kept (λ r. IsUp r.1) (serve_once rounds a.server)
          (pass-IsUp a rounds (Run-Directed-IsAuthentic start a before h)
            (Run-IsUp start a before h up) brought))
