-- ===== src/Session/Traffic/Returns.antt =====
-- `session::poll` (src/mprtp_session.cpp) returns where the handlers do.
use mprtplib.Prelude.{
  ℕ, ◌≡◌, true, false, inl, inr, List, [], ◌∷◌, All, if◌then◌else◌, if_both, Bool-cases,
}
use mprtplib.Prelude.Int.{is_neg}
use mprtplib.Prelude.Result.{ok, Ends, Ends->>=}
use mprtplib.Packet.{RawPacket, RtpPacket}
use mprtplib.Interface.{Interface}
use mprtplib.Session.{Handlers, process_rtcp_packet, process_rtp_packet}
use mprtplib.Session.Poll.{
  Session, Rounds, poll_interfaces, process_packets, process_interfaces, poll_session,
}
use mprtplib.Session.Traffic.{Bring}
use mprtplib.Session.Traffic.Kept.{poll_interfaces-Waiting}

-- What the session makes of a datagram of which `R` holds comes to an end.
pub record PacketsEnd {W S : Type 0} (h : Handlers W (Interface W) S) (R : RawPacket W → Type 0)
    (P : S → Type 0) : Type 0 where
  pub rtcp_ends :
      (raw : RawPacket W) (i : Interface W) (s : S)
      → raw.is_rtcp ≡ true
      → R raw
      → P s
      → Ends P (process_rtcp_packet h raw i s)
  pub rtp_ends :
      (raw : RawPacket W) (i : Interface W) (s : S) (queue : List (RtpPacket W))
      → raw.is_rtcp ≡ false
      → R raw
      → P s
      → Ends (λ r. P r.0) (process_rtp_packet h raw i s queue)

module _ {W S : Type 0} (h : Handlers W (Interface W) S) (R : RawPacket W → Type 0) (P : S → Type 0)
    (ends : PacketsEnd h R P) where
  abbrev After : S × List (RtpPacket W) → Type 0
  After r = P r.0

  process_packets-Ends :
      (iface : Interface W) (raws : List (RawPacket W)) (s : S) (queue : List (RtpPacket W))
      → All R raws
      → P s
      → Ends After (process_packets h iface raws s queue)
  unfolding process_packets
  process_packets-Ends iface [] s queue rs p = p
  process_packets-Ends iface (raw ∷ rest) s queue rs p = elim (Bool-cases raw.is_rtcp) [
    | inl rtcp ↦
        let done = ends.rtcp_ends raw iface s rtcp rs.0 p in
        rw (rtcp, process_packets)
          (Ends->>= P After (process_rtcp_packet h raw iface s) _ done
            λ s' p'. process_packets-Ends iface rest s' queue rs.1 p')
    | inr rtp ↦
        let done = ends.rtp_ends raw iface s queue rtp rs.0 p in
        rw (rtp, process_packets)
          (Ends->>= After After (process_rtp_packet h raw iface s queue) _ done
            λ r p'. process_packets-Ends iface rest r.0 r.1 rs.1 p')
  ]

  process_interfaces-Ends :
      (ifaces : List (Interface W)) (s : S) (queue : List (RtpPacket W))
      → All (λ i. All R i.packets) ifaces
      → P s
      → Ends (λ r. P r.1) (process_interfaces h ifaces s queue)
  unfolding process_interfaces
  process_interfaces-Ends [] s queue rs p = p
  process_interfaces-Ends (i ∷ rest) s queue rs p =
      Ends->>= After (λ r. P r.1) (process_packets h i i.packets s queue) _
        (process_packets-Ends i i.packets s queue rs.0 p)
        λ r p'.
          Ends->>= (λ r. P r.1) (λ r. P r.1) (process_interfaces h rest r.0 r.1) _
            (process_interfaces-Ends rest r.0 r.1 rs.1 p') λ r2 p2. p2

  -- Where the sockets bring datagrams that come to an end, `session::poll` returns.
  pub poll_session-Ends :
      (rounds : ℕ → Rounds W) (s : Session W S)
      → Bring R rounds
      → All (λ i. All R i.packets) s.interfaces
      → P s.object
      → Ends (λ r. P (r.1).object) (poll_session h rounds s)
  unfolding poll_session
  poll_session-Ends rounds s brings waiting p =
      let polled = poll_interfaces rounds 0 s.interfaces in
      let waits = poll_interfaces-Waiting R rounds 0 s.interfaces brings waiting in
      Ends->>= (λ r. P r.1) (λ r. P (r.1).object)
        (if is_neg polled.0
          then ok (polled.1, s.object, s.packets)
          else process_interfaces h polled.1 s.object s.packets)
        _
        (if_both (Ends (λ r. P r.1)) (is_neg polled.0) _ _ p
          (process_interfaces-Ends polled.1 s.object s.packets waits p))
        λ r p'. p'
