-- ===== src/Session/Traffic/Kept.antt =====
-- `session::poll` (src/mprtp_session.cpp) on datagrams of which a predicate holds.
use mprtplib.Prelude.{
  ℕ, ◌+◌, ◌≡◌, arith, Bool, true, false, inl, inr, Option, none, some, List, [], ◌∷◌, ◌==◌, not,
  All, if◌then◌else◌, if_both, Bool-cases,
}
use mprtplib.Prelude.Int.{ℤ, pos, is_pos, is_neg}
use mprtplib.Prelude.Result.{ok, Holds, Holds->>=, Holds-from}
use mprtplib.Bytes.{Memory}
use mprtplib.Packet.{RawPacket, RtpPacket, rtp_packet}
use mprtplib.Interface
use mprtplib.Interface.{Interface, Round, Polled, rtp_select, receive, poll_loop}
use mprtplib.Session.{Handlers, process_rtcp_packet, process_rtp_packet, accept_rtp_packet}
use mprtplib.Session.Poll.{
  Session, Rounds, poll_interfaces, process_packets, process_interfaces, poll_session,
}
use mprtplib.Session.Traffic.{All-end, Arrives, Bring, Carries, HandlersCarry}

no_error : (e : ℤ) → is_pos e 0 ≡ true → e ≡ pos 0
no_error e good = ground arith

module _ {W : Type 0} (R : RawPacket W → Type 0) where
  abbrev Waiting : Interface W → Type 0
  Waiting i = All R i.packets

  receive-Waiting :
      (i : Interface W) (rtcp : Bool) (r : Round W)
      → Arrives R rtcp r.recvtime r.received
      → Waiting i
      → Waiting (receive i rtcp r)
  unfolding receive
  receive-Waiting i rtcp r a all = by_received r.received a
    where
      by_received :
          (received : Option (Memory × ℕ × ℕ))
          → Arrives R rtcp r.recvtime received
          → Waiting (receive i rtcp (record r { received = received }))
      by_received none a = all
      by_received (some (bytes, from_ip, from_port)) a = All-end R i.packets _ all a

  poll_loop-Waiting :
      (rtcp : Bool) (rounds : List (Round W)) (i : Interface W)
      → All (λ r. Arrives R rtcp r.recvtime r.received) rounds
      → Waiting i
      → Waiting (poll_loop rtcp rounds i).1
  unfolding poll_loop
  poll_loop-Waiting rtcp [] i a all = all
  poll_loop-Waiting rtcp (r ∷ rest) i a all =
      let later =
        poll_loop-Waiting rtcp rest (receive i rtcp r) a.1 (receive-Waiting i rtcp r a.0 all) in
      let here = λ (x : ℤ × Interface W). Waiting x.1 in
      if_both here (not (r.waiting == 0)) _ _ later (
        if_both here (is_neg (rtp_select r.polled).0) _ _ all
          (if_both here (rtp_select r.polled).1 _ _ later all))

  poll-Waiting :
      (rtcp : Bool) (rounds : List (Round W)) (i : Interface W)
      → All (λ r. Arrives R rtcp r.recvtime r.received) rounds
      → Waiting i
      → Waiting (Interface.poll rtcp rounds i).1
  unfolding Interface.poll
  poll-Waiting rtcp rounds i a all =
      if_both (λ (x : ℤ × Interface W). Waiting x.1) _ _ _ all
        (poll_loop-Waiting rtcp rounds i a all)

  pub poll_interfaces-Waiting :
      (rounds : ℕ → Rounds W) (k : ℕ) (ifaces : List (Interface W))
      → Bring R rounds
      → All Waiting ifaces
      → All Waiting (poll_interfaces rounds k ifaces).1
  unfolding poll_interfaces
  poll_interfaces-Waiting rounds k [] brings all = tt
  poll_interfaces-Waiting rounds k (i ∷ rest) brings all =
      let first = Interface.poll false (rounds k).rtp_rounds i in
      let second = Interface.poll true (rounds k).rtcp_rounds first.1 in
      let one = poll-Waiting false (rounds k).rtp_rounds i (brings k).0 all.0 in
      let two = poll-Waiting true (rounds k).rtcp_rounds first.1 (brings k).1 one in
      let here = λ (x : ℤ × List (Interface W)). All Waiting x.1 in
      if_both here (is_neg first.0) _ _ (one, all.1)
        (if_both here (is_neg second.0) _ _ (two, all.1)
          (two, poll_interfaces-Waiting rounds (k + 1) rest brings all.1))

module _ {W S : Type 0} (h : Handlers W (Interface W) S) (R : RawPacket W → Type 0)
    (Q : RtpPacket W → Type 0) (P : S → Type 0) (carry : HandlersCarry h R Q P) where
  abbrev After : S × List (RtpPacket W) → Type 0
  After r = P r.0 × All Q r.1

  process_rtp_packet-After :
      (raw : RawPacket W) (iface : Interface W) (s : S) (queue : List (RtpPacket W))
      → R raw
      → P s
      → All Q queue
      → Holds After (process_rtp_packet h raw iface s queue)
  unfolding process_rtp_packet accept_rtp_packet
  process_rtp_packet-After raw iface s queue r p all =
      Holds-from After (rtp_packet raw) _ λ pkt parsed. elim (Bool-cases (is_pos pkt.error 0)) [
        | inr bad ↦ rw bad (p, all)
        | inl good ↦ rw good (
            Holds->>= (λ res. Q res.1 × P res.2) After (h.on_rtp_packet pkt iface s) _
              (carry.rtp_carries raw pkt iface s r parsed (no_error pkt.error good) p)
              λ res both.
                (both.1, if_both (All Q) res.0 _ queue (All-end Q queue res.1 all both.0) all))
      ]

  process_packets-After :
      (iface : Interface W) (raws : List (RawPacket W)) (s : S) (queue : List (RtpPacket W))
      → All R raws
      → P s
      → All Q queue
      → Holds After (process_packets h iface raws s queue)
  unfolding process_packets
  process_packets-After iface [] s queue rs p all = (p, all)
  process_packets-After iface (raw ∷ rest) s queue rs p all = elim (Bool-cases raw.is_rtcp) [
    | inl rtcp ↦
        rw (rtcp, process_packets)
          (Holds->>= P After (process_rtcp_packet h raw iface s) _
            (carry.rtcp_carries raw iface s rs.0 p)
            λ s' p'. process_packets-After iface rest s' queue rs.1 p' all)
    | inr rtp ↦
        rw (rtp, process_packets)
          (Holds->>= After After (process_rtp_packet h raw iface s queue) _
            (process_rtp_packet-After raw iface s queue rs.0 p all)
            λ r both. process_packets-After iface rest r.0 r.1 rs.1 both.0 both.1)
  ]

  abbrev Done : List (Interface W) × S × List (RtpPacket W) → Type 0
  Done r = All (λ i. All R i.packets) r.0 × P r.1 × All Q r.2

  process_interfaces-Done :
      (ifaces : List (Interface W)) (s : S) (queue : List (RtpPacket W))
      → All (λ i. All R i.packets) ifaces
      → P s
      → All Q queue
      → Holds Done (process_interfaces h ifaces s queue)
  unfolding process_interfaces
  process_interfaces-Done [] s queue rs p all = (tt, p, all)
  process_interfaces-Done (i ∷ rest) s queue rs p all =
      Holds->>= After Done (process_packets h i i.packets s queue) _
        (process_packets-After i i.packets s queue rs.0 p all)
        λ r both.
          Holds->>= Done Done (process_interfaces h rest r.0 r.1) _
            (process_interfaces-Done rest r.0 r.1 rs.1 both.0 both.1)
            λ r2 done. ((tt, done.0), done.1, done.2)

  -- Where the sockets bring datagrams of which `R` holds, `session::poll` keeps the three predicates.
  pub poll_session-Carries :
      (rounds : ℕ → Rounds W) (s : Session W S)
      → Bring R rounds
      → Carries R Q P s
      → Holds (λ r. Carries R Q P r.1) (poll_session h rounds s)
  unfolding poll_session
  poll_session-Carries rounds s brings c =
      let polled = poll_interfaces rounds 0 s.interfaces in
      let waits = poll_interfaces-Waiting R rounds 0 s.interfaces brings c.waiting in
      Holds->>= Done (λ r. Carries R Q P r.1)
        (if is_neg polled.0
          then ok (polled.1, s.object, s.packets)
          else process_interfaces h polled.1 s.object s.packets)
        _
        (if_both (Holds Done) (is_neg polled.0) _ _ (waits, c.kept, c.queued)
          (process_interfaces-Done polled.1 s.object s.packets waits c.kept c.queued))
        λ r done. record { waiting = done.0; queued = done.2; kept = done.1 }
