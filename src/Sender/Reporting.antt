-- ===== src/Sender/Reporting.antt =====
-- `sender::send_sender_report` (src/mprtp_sender.cpp), and what a session makes of its packet.
use mprtplib.Prelude.{
  ℕ, zero, suc, ◌+◌, ◌*◌, ◌^◌, ◌<◌, ◌≤◌, ◌∙◌, sym, ap, ◌≡◌, ◌≢◌, refl, arith, true, some, List, [],
  ◌∷◌, map, length, length-append, set, get_elem?, get_elem?-in, All, le→ltb,
}
use mprtplib.Prelude.Result.{ok, ◌>>=◌}
use mprtplib.Double.{Double}
use mprtplib.Time.{get_ntp_time}
use mprtplib.Address.{Endpoint}
use mprtplib.Rtcp.Build.{
  Counts, Stamp, make_sender_report, make_subflow_sender_report, sender_report_packet,
}
use mprtplib.Interface.{Datagram, datagram}
use mprtplib.Subflow
use mprtplib.Subflow.{Subflow}
use mprtplib.World.{take_time, take_random, log_sent}
use mprtplib.Session.{Handlers, process_rtcp_packet}
use mprtplib.Session.Blocks.{each}
use mprtplib.Session.Reports.{FitsCounts, FitsStamp, sr_of}
use mprtplib.Session.SenderReports.{
  length-make_sender_report, length-make_subflow_sender_report,
  process_rtcp_packet-sender_report_packet,
}
use mprtplib.Sender.{Sender, max_pack_size, get_next_timestamp, send_via, update_stream_bitrate}
use mprtplib.Sender.Cycle.{counts_of, report_of, send_sender_report}
use mprtplib.Sender.Selection.{select_subflow_lem}
use mprtplib.Sender.Sending.{get_next_timestamp-keeps, arriving}

module _ {W : Type 0} where
  pub set-get_elem? :
      (sfs : List (Subflow W)) (k : ℕ) (sf : Subflow W)
      → get_elem? sfs k ≡ some sf
      → set sfs k sf ≡ sfs
  set-get_elem? [] k sf e = refl
  set-get_elem? (x ∷ rest) zero sf e = ground arith
  set-get_elem? (x ∷ rest) (suc k) sf e = ap (λ xs. x ∷ xs) (set-get_elem? rest k sf e)

module _ {W : Type 0} ⦃d : Double W⦄ where
  open d use {to_uint32}

  pub length-counts_of : (sfs : List (Subflow W)) → length (map counts_of sfs) ≡ length sfs
  length-counts_of [] = refl
  length-counts_of (sf ∷ rest) = omega (arith, length-counts_of rest)

  pub length-report_of : (s : Sender W) → length (report_of s) ≡ 40 + length s.subflows * 32
  unfolding report_of sender_report_packet
  length-report_of s =
      let ntp = get_ntp_time s.last_packet_time in
      let stamp : Stamp = record {
        timestamp = s.timestamp;
        ntp_msw = ntp.msw;
        ntp_lsw = ntp.lsw;
      } in
      let total : Counts = record {
        subflow_id = 0;
        packet_count = s.packet_count;
        octet_count = s.octet_count;
      } in
      omega (
        arith,
        length-append (make_sender_report s.ssrc stamp total)
            (make_subflow_sender_report s.ssrc stamp (map counts_of s.subflows)),
        length-make_sender_report s.ssrc stamp total,
        length-make_subflow_sender_report s.ssrc stamp (map counts_of s.subflows),
        length-counts_of s.subflows,
      )

  pub update_stream_bitrate-keeps :
      (n : ℕ) (s : Sender W)
      → let s' = update_stream_bitrate n s in
        (s'.subflows ≡ s.subflows)
        × (s'.world.sent ≡ s.world.sent)
        × (s'.last_packet_time ≡ s.last_packet_time)
  unfolding update_stream_bitrate take_time
  update_stream_bitrate-keeps n s = ground arith

  -- With 1 to 2046 subflows at hand, `send_sender_report` stays inside its buffer; one datagram leaves,
  -- which is the report at the next timestamp, to the RTCP port of one subflow. The subflows do not
  -- change, and the time of the report is remembered.
  pub send_sender_report_lem :
      (s : Sender W)
      → s.subflows ≢ []
      → length s.subflows ≤ 2046
      → (k : ℕ) × (sf : Subflow W) × (s' : Sender W) × (send_sender_report s ≡ ok s')
        × (get_elem? s.subflows k ≡ some sf)
        × (s'.world.sent
            ≡ datagram sf.iface (report_of (get_next_timestamp s)) sf.remote true ∷ s.world.sent)
        × (s'.subflows ≡ s.subflows)
        × (s'.last_sender_report_time ≡ (get_next_timestamp s).last_packet_time)
  unfolding send_sender_report send_via log_sent take_random Subflow.send
  send_sender_report_lem s n few =
      let s1 = get_next_timestamp s in
      let (sfs, ssrc, seq, sent, net, range, count, octets) = get_next_timestamp-keeps s in
      let (k, chosen, inside, _) = select_subflow_lem s1 (rw sfs n) in
      let (sf, at) = get_elem?-in s1.subflows k inside in
      let fits =
        le→ltb max_pack_size (length (report_of s1))
          (rw (length-report_of s1, sfs) (omega arith)) in
      let s2 = record s1 { world = (take_random s1.world).1 } in
      let s3 = (send_via k sf (report_of s1) (length (report_of s1)) 0 true s2).0 in
      let (sfs4, sent4, time4) = update_stream_bitrate-keeps (length (report_of s1)) s3 in
      let s4 = update_stream_bitrate (length (report_of s1)) s3 in
      (
        k,
        sf,
        record s4 { last_sender_report_time = s4.last_packet_time },
        rw (fits, chosen, at) refl,
        ap (λ xs. get_elem? xs k) (sym sfs) ∙ at,
        sent4 ∙ ap (λ xs. datagram sf.iface (report_of s1) sf.remote true ∷ xs) sent,
        sfs4 ∙ set-get_elem? s1.subflows k sf at ∙ sfs,
        time4,
      )

  abbrev pub stamp_of : Sender W → Stamp
  stamp_of s =
      let ntp = get_ntp_time s.last_packet_time in
      record { timestamp = s.timestamp; ntp_msw = ntp.msw; ntp_lsw = ntp.lsw }

  abbrev pub total_of : Sender W → Counts
  total_of s = record { subflow_id = 0; packet_count = s.packet_count; octet_count = s.octet_count }

  -- The ranges of the C++ types of what a report states.
  pub record FitsSender (s : Sender W) : Type 0 where
    pub ssrc_fits : s.ssrc < 2 ^ 32
    pub total_fits : FitsCounts (total_of s)
    pub subflows_fit : All FitsCounts (map counts_of s.subflows)

  pub stamp_of-FitsStamp :
      (s : Sender W)
      → ((x : W) → to_uint32 x < 2 ^ 32)
      → s.timestamp < 2 ^ 32
      → FitsStamp (stamp_of s)
  unfolding get_ntp_time
  stamp_of-FitsStamp s range h = record {
    timestamp_fits = h;
    msw_fits = omega arith;
    lsw_fits = range _;
  }

  -- The report that a sender with 1 to 2046 subflows hands over, its fields in the ranges of their
  -- types and a conversion to `uint32_t` too: a session that gets it hands the counts of the stream to
  -- its handler under subflow 0, and then those of each subflow under its number, in order, all with
  -- the times of the report.
  pub send_sender_report-process_rtcp_packet :
      {I S : Type 0} (h : Handlers W I S) (iface : I) (from : Endpoint) (recvtime : W) (state : S)
      (s : Sender W)
      → s.subflows ≢ []
      → length s.subflows ≤ 2046
      → FitsSender s
      → ((x : W) → to_uint32 x < 2 ^ 32)
      → (s' : Sender W) × (out : Datagram) × (send_sender_report s ≡ ok s')
        × (s'.world.sent ≡ out ∷ s.world.sent)
        × (let report = sr_of from recvtime s.ssrc (stamp_of (get_next_timestamp s)) in
            process_rtcp_packet h (arriving from recvtime true out.bytes) iface state ≡ (
              h.on_rtcp_sr_packet (report (total_of s)) 0 iface state
              >>= each
                  (λ c state'. h.on_rtcp_sr_packet (report c) c.subflow_id iface state')
                  (map counts_of s.subflows)))
  unfolding datagram report_of
  send_sender_report-process_rtcp_packet h iface from recvtime state s n few fits range =
      let s1 = get_next_timestamp s in
      let (sfs, ssrc, seq, sent, net, ts, count, octets) = get_next_timestamp-keeps s in
      let (k, sf, s', e, at, out, _, _) = send_sender_report_lem s n few in
      let bytes =
        sender_report_packet s1.ssrc (stamp_of s1) (total_of s1) (map counts_of s1.subflows) in
      (
        s',
        _,
        e,
        out,
        process_rtcp_packet-sender_report_packet h iface (arriving from recvtime true bytes) s.ssrc
            (stamp_of s1) (total_of s) (map counts_of s.subflows) state
            (rw (ssrc, sfs, count, octets) refl) fits.ssrc_fits (stamp_of-FitsStamp s1 range ts)
            fits.total_fits fits.subflows_fit (omega (arith, length-counts_of s.subflows)),
      )
