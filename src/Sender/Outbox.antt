-- ===== src/Sender/Outbox.antt =====
-- The datagrams that `sender::poll` (src/mprtp_sender.cpp) hands to the system.
use mprtplib.Prelude.{
  List, ℕ, ◌≡◌, ◌≢◌, refl, ap, sym, ◌∙◌, true, false, inl, inr, All, subst, get_elem?, ltb, length,
  if_both, if◌then◌else◌, Bool-cases, arith, le→ltb,
}
use mprtplib.Prelude.Int.{pos, negsuc}
use mprtplib.Prelude.Result.{
  ok, fault, or_fault, Holds, Holds->>=, Holds-after, Holds-both, Holds-weaken,
}
use mprtplib.Bytes.{Memory}
use mprtplib.Double.{Double}
use mprtplib.Interface.{Interface, datagram}
use mprtplib.Packet.{RawPacket, rtp_packet, parse_raw, parse_type}
use mprtplib.Rtcp.{RrPacket}
use mprtplib.Rtcp.Build.{make_sender_report, sender_report_packet}
use mprtplib.Struct.{reads}
use mprtplib.World.{take_time, take_random, log_sent}
use mprtplib.Session.Invariants.{HandlersKeep, poll_session-Holds}
use mprtplib.Session.Poll.{Session, Rounds, poll_session}
use mprtplib.Sender.{Sender, max_pack_size, select_subflow, get_next_timestamp, send_via}
use mprtplib.Sender.Cycle.{
  report_of, send_sender_report, on_rtcp_rr_packet, sender_handlers, measure_stream, redistribute,
  report_due, poll_sender, poll,
}
use mprtplib.Sender.Sending.{get_next_timestamp-keeps}
use mprtplib.Sender.Reporting.{length-report_of, update_stream_bitrate-keeps}
use mprtplib.Sender.Steady.{
  IsSound, Steady, Steady-IsSound, unmoved, get_next_timestamp-Steady, on_rtcp_rr_packet-Steady,
  select_subflow-Holds,
}
use mprtplib.Sender.Lists.{Route}

-- The bytes of a report of a sound sender.
abbrev pub IsReport : {W : Type 0} ⦃d : Double W⦄ → List (Route W) → (ssrc : ℕ) → Memory → Type 0
IsReport {W} ⦃d = d⦄ routes ssrc bytes =
    (s : Sender W) × IsSound routes ssrc s × (bytes ≡ report_of ⦃d = d⦄ s)

not_zero : {n : ℕ} → negsuc n ≢ pos 0
not_zero e = cc

module _ {W : Type 0} ⦃d : Double W⦄ where
  -- A sender report on an RTP socket is told by its type: the parser rejects it.
  pub rtp_packet-report_of :
      (raw : RawPacket W) (s : Sender W)
      → raw.bytes ≡ report_of s
      → Holds (λ pkt. pkt.error ≢ pos 0) (rtp_packet raw)
  unfolding rtp_packet parse_raw parse_type report_of sender_report_packet make_sender_report reads
  rtp_packet-report_of raw s e = elim (Bool-cases raw.is_rtcp) [
    | inl rtcp ↦ rw rtcp not_zero
    | inr rtp ↦
        let long : ltb (length (report_of s)) 12 ≡ false =
          le→ltb _ 12 (omega (arith, length-report_of s)) in
        rw (rtp, e, long) not_zero
  ]

module _ {W : Type 0} ⦃d : Double W⦄ (routes : List (Route W)) (ssrc : ℕ) (G : Memory → Type 0)
    (report_in : (bytes : Memory) → IsReport routes ssrc bytes → G bytes) where
  -- `G` of all that was handed to the system, by a sound sender.
  abbrev Sent : Sender W → Type 0
  Sent s = All (λ out. G out.bytes) s.world.sent

  abbrev Sends : Sender W → Type 0
  Sends s = IsSound routes ssrc s × Sent s

  same_sent : (s s' : Sender W) → s'.world.sent ≡ s.world.sent → Sent s → Sent s'
  same_sent s s' e h = subst (All (λ out. G out.bytes)) (sym e) h

  on_rtcp_rr_packet-Sends :
      (pkt : RrPacket W) (id sender_ssrc : ℕ) (iface : Interface W) (s : Sender W)
      → Sends s
      → Holds Sends (on_rtcp_rr_packet pkt id sender_ssrc iface s)
  unfolding on_rtcp_rr_packet
  on_rtcp_rr_packet-Sends pkt id sender_ssrc iface s h =
      Holds-both (IsSound routes ssrc) Sent (on_rtcp_rr_packet pkt id sender_ssrc iface s)
        (Holds-weaken (Steady s) (IsSound routes ssrc)
          (on_rtcp_rr_packet pkt id sender_ssrc iface s)
          (on_rtcp_rr_packet-Steady pkt id sender_ssrc iface s)
          λ s' step. Steady-IsSound s s' step h.0)
        (if_both Sent _ _ s h.1 h.1)

  send_sender_report-Sends : (s : Sender W) → Sends s → Holds Sent (send_sender_report s)
  unfolding send_sender_report send_via log_sent take_random datagram
  send_sender_report-Sends s h =
      let s1 = get_next_timestamp s in
      let (_, _, _, stamped, _, _, _, _) = get_next_timestamp-keeps s in
      let pkt = report_of s1 in
      Holds->>= (λ r. r.1 ≡ record s1 { world = (take_random s1.world).1 }) Sent
        (if ltb max_pack_size (length pkt) then fault else select_subflow s1) _
        (if_both (Holds _) _ fault (select_subflow s1) tt (select_subflow-Holds s1))
        λ (k, s2) e. Holds-after Sent (or_fault (get_elem? s2.subflows k)) _ λ sf.
          let s3 = (send_via k sf pkt (length pkt) 0 true s2).0 in
          let (_, kept, _) = update_stream_bitrate-keeps (length pkt) s3 in
          let before : s2.world.sent ≡ s.world.sent = ap (λ x. x.world.sent) e ∙ stamped in
          subst (All (λ out. G out.bytes)) (sym kept) (
            report_in (datagram sf.iface pkt sf.remote true).bytes
                (s1, Steady-IsSound s s1 (get_next_timestamp-Steady s) h.0, refl),
            subst (All (λ out. G out.bytes)) (sym before) h.1,
          )

  measured-sent :
      (curtime : W) (s : Sender W)
      → (redistribute (measure_stream curtime s)).world.sent ≡ s.world.sent
  unfolding redistribute measure_stream
  measured-sent curtime s = ground arith

  poll_sender-Sends : (s : Sender W) → Sends s → Holds Sent (poll_sender s)
  unfolding poll_sender take_time
  poll_sender-Sends s h =
      let curtime = (take_time s.world).0 in
      let s1 = record s { world = (take_time s.world).1 } in
      let started = Steady-IsSound s s1 (unmoved s s1 (refl, refl, refl, refl, refl, refl)) h.0 in
      let due = report_due curtime s1 in
      Holds->>= Sent Sent (if due then send_sender_report s1 else ok s1) _
        (if_both (Holds Sent) due (send_sender_report s1) (ok s1)
          (send_sender_report-Sends s1 (started, h.1)) h.1)
        λ s2 h2.
          same_sent s2 (redistribute (measure_stream curtime s2)) (measured-sent curtime s2) h2

  sender_handlers-Sends : HandlersKeep (sender_handlers {W = W}) Sends
  unfolding sender_handlers
  sender_handlers-Sends = record {
    rtp_keeps = λ pkt iface s h. h;
    sr_keeps = λ pkt id iface s h. h;
    rr_keeps = λ pkt id sender_ssrc iface s h. on_rtcp_rr_packet-Sends pkt id sender_ssrc iface s h;
  }

  -- Whatever the sockets bring, `sender::poll` of a sound sender hands reports of a sound sender to the
  -- system, and nothing else.
  pub poll-Sends :
      (rounds : ℕ → Rounds W) (s : Session W (Sender W))
      → IsSound routes ssrc s.object
      → All (λ out. G out.bytes) s.object.world.sent
      → Holds (λ r. All (λ out. G out.bytes) (r.1).object.world.sent) (poll rounds s)
  unfolding poll
  poll-Sends rounds s sound h =
      Holds->>= (λ r. Sends (r.1).object) (λ r. Sent (r.1).object)
        (poll_session sender_handlers rounds s) _
        (poll_session-Holds sender_handlers Sends sender_handlers-Sends rounds s (sound, h))
        λ r kept.
          Holds->>= Sent (λ x. Sent (x.1).object) (poll_sender (r.1).object) _
            (poll_sender-Sends (r.1).object kept) λ object done. done
