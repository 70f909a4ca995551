-- ===== src/Source/Exchange.antt =====
-- `source::poll` (src/mprtp_source.cpp), and what the session of the sender makes of its packet.
use mprtplib.Prelude.{
  ℕ, suc, ◌^◌, ◌<◌, ◌≤◌, ◌≡◌, refl, ap, ◌∙◌, arith, true, false, Option, none, some, List, [], ◌∷◌,
  ◌++◌, map, length, All, le→ltb, ltb, if_both,
}
use mprtplib.Prelude.Result.{ok, ◌>>=◌}
use mprtplib.Address.{Endpoint}
use mprtplib.Double.{Double}
use mprtplib.Interface.{Datagram, datagram}
use mprtplib.Rtcp.{SrPacket}
use mprtplib.Rtcp.Build.{ReceiverReport, make_rr_packet, subflows_rr_packet}
use mprtplib.Stat.{SourceStats, fill_receiver_report, fraction_lost, last_sr, delay_since_sr}
use mprtplib.Subflow
use mprtplib.Subflow.{Subflow}
use mprtplib.World.{World, take_time, log_sent}
use mprtplib.Session.{Handlers, process_rtcp_packet}
use mprtplib.Session.Blocks.{each}
use mprtplib.Session.Reports.{FitsReport, rr_of}
use mprtplib.Session.ReceiverReports.{
  FitsBlock, length-subflows_rr_packet, process_rtcp_packet-rr_packets,
}
use mprtplib.Sender.Sending.{arriving}
use mprtplib.Stat.Ranges.{FitsStat}
use mprtplib.Source.Ranges.{FitsSubflow, FitsSource}
use mprtplib.Source.{
  Source, max_packet_size, add_packet, select_front, fill_subflows, store_subflow, create_report,
  send_report, poll,
}

take_time-sent : {W : Type 0} (w : World W) → (take_time w).1.sent ≡ w.sent
unfolding take_time
take_time-sent w = refl

pub select_front-some :
    {W : Type 0} (sfs : List (Subflow W))
    → 0 < length sfs
    → (sf : Subflow W) × (select_front sfs ≡ ok sf)
unfolding select_front
select_front-some [] h = absurd (omega arith)
select_front-some (sf ∷ rest) h = (sf, refl)

module _ {W : Type 0} ⦃d : Double W⦄ where
  -- The reports that `create_report` makes.
  abbrev pub total_of : Source W → World W → ReceiverReport
  total_of src w = (fill_receiver_report src.stat src.ssrc src.last_sender_report (take_time w).0).0

  abbrev pub reports_of :
      Source W → World W → List (ℕ × ReceiverReport) × List (Subflow W) × World W
  reports_of src w = fill_subflows src.ssrc src.last_sender_report src.subflows (take_time w).1

  -- One report for each subflow, in order: under its number, what `fill_receiver_report` makes of its
  -- statistics at some time.
  abbrev pub ReportsOn :
      (ssrc : ℕ) → Option (SrPacket W) → List (ℕ × ReceiverReport) → List (Subflow W) → Type 0
  ReportsOn ssrc sr [] [] = Unit {0}
  ReportsOn ssrc sr [] (sf ∷ sfs) = ⊥
  ReportsOn ssrc sr (r ∷ rs) [] = ⊥
  ReportsOn ssrc sr (r ∷ rs) (sf ∷ sfs) =
      (r.0 ≡ sf.subflow_id)
      × ((now : W) × (r.1 ≡ (fill_receiver_report sf.recv_stat ssrc sr now).0))
      × ReportsOn ssrc sr rs sfs

  fill_subflows-ReportsOn :
      (ssrc : ℕ) (sr : Option (SrPacket W)) (sfs : List (Subflow W)) (w : World W)
      → ReportsOn ssrc sr (fill_subflows ssrc sr sfs w).0 sfs
  unfolding fill_subflows
  fill_subflows-ReportsOn ssrc sr [] w = tt
  fill_subflows-ReportsOn ssrc sr (sf ∷ rest) w =
      (refl, ((take_time w).0, refl), fill_subflows-ReportsOn ssrc sr rest (take_time w).1)

  pub create_report-few :
      (src : Source W) (w : World W)
      → length (reports_of src w).0 ≤ 1820
      → create_report src w
        ≡ ok (
          make_rr_packet src.sender_ssrc (total_of src w)
              ++ subflows_rr_packet src.sender_ssrc src.ssrc (reports_of src w).0,
          record src {
            stat =
                (fill_receiver_report src.stat src.ssrc src.last_sender_report (take_time w).0).1;
            subflows = (reports_of src w).1;
          },
          (reports_of src w).2,
        )
  unfolding create_report add_packet
  create_report-few src w few =
      let rs = (reports_of src w).0 in
      let size = length-subflows_rr_packet src.sender_ssrc src.ssrc rs in
      rw
        (le→ltb max_packet_size (length (subflows_rr_packet src.sender_ssrc src.ssrc rs))
          (omega (arith, size)))
        refl

module _ {W : Type 0} ⦃d : Double W⦄ (range8 : (x : W) → d.to_uint8 x < 256)
    (range32 : (x : W) → d.to_uint32 x < 2 ^ 32) where
  last_sr-fits : (sr : Option (SrPacket W)) → last_sr sr < 2 ^ 32
  unfolding last_sr
  last_sr-fits none = omega arith
  last_sr-fits (some sr) = omega arith

  delay_since_sr-fits : (sr : Option (SrPacket W)) (now : W) → delay_since_sr sr now < 2 ^ 32
  unfolding delay_since_sr
  delay_since_sr-fits none now = omega arith
  delay_since_sr-fits (some sr) now = range32 _

  fraction_lost-fits : (expected received : ℕ) → fraction_lost W expected received < 256
  unfolding fraction_lost
  fraction_lost-fits expected received =
      if_both (λ n. n < 256) (ltb expected received) 0 _ (omega arith) (range8 _)

  fill_receiver_report-FitsReport :
      (st : SourceStats W) (ssrc : ℕ) (sr : Option (SrPacket W)) (now : W)
      → ssrc < 2 ^ 32
      → FitsStat st
      → FitsReport (fill_receiver_report st ssrc sr now).0
  unfolding fill_receiver_report
  fill_receiver_report-FitsReport st ssrc sr now h fits = record {
    ssrc_fits = h;
    fraction_fits = fraction_lost-fits _ _;
    lost_fits = omega arith;
    seq_fits = fits.exthighseqnr_fits;
    jitter_fits = fits.jitter_fits;
    lsr_fits = last_sr-fits sr;
    dlsr_fits = delay_since_sr-fits sr now;
  }

  -- The reports on the subflows: one for each, under its number, in the ranges of their types.
  fill_subflows-FitsBlock :
      (ssrc : ℕ) (sr : Option (SrPacket W)) (sfs : List (Subflow W)) (w : World W)
      → ssrc < 2 ^ 32
      → All FitsSubflow sfs
      → let (rs, after, w') = fill_subflows ssrc sr sfs w in
        All FitsBlock rs
        × (map (λ r. r.0) rs ≡ map (λ sf. sf.subflow_id) sfs)
        × (length rs ≡ length sfs)
        × (length after ≡ length sfs)
        × (w'.sent ≡ w.sent)
        × (w'.net ≡ w.net)
  unfolding fill_subflows take_time
  fill_subflows-FitsBlock ssrc sr [] w h all = (tt, refl, refl, refl, refl, refl)
  fill_subflows-FitsBlock ssrc sr (sf ∷ rest) w h all =
      let (blocks, ids, reports, after, sent, net) =
        fill_subflows-FitsBlock ssrc sr rest (take_time w).1 h all.1 in
      (
        (
          record {
            id_fits = (all.0).id_fits;
            report_fits =
                fill_receiver_report-FitsReport sf.recv_stat ssrc sr (take_time w).0 h
                  (all.0).stat_fits;
          },
          blocks,
        ),
        ap (λ xs. sf.subflow_id ∷ xs) ids,
        ap suc reports,
        ap suc after,
        sent,
        net,
      )

  -- A source that is to report and has 1 to 1820 subflows does so: `poll` returns, and one datagram
  -- leaves, with the report on the source and one report on each subflow, of its own statistics. A
  -- session that gets it hands the report on the source to its handler under subflow 0, and then the
  -- report of each subflow under its number, in order. The fields of the source, and the conversions
  -- to `uint8_t` and `uint32_t`, are in the ranges of their types.
  pub poll-process_rtcp_packet :
      {I S : Type 0} (h : Handlers W I S) (iface : I) (from : Endpoint) (recvtime : W) (state : S)
      (src : Source W) (w : World W)
      → src.send_rr ≡ true
      → 0 < length src.subflows
      → length src.subflows ≤ 1820
      → FitsSource src
      → (src' : Source W) × (w' : World W) × (out : Datagram) × (rs : List (ℕ × ReceiverReport))
        × (poll src w ≡ ok (src', w'))
        × (src'.send_rr ≡ false)
        × (w'.sent ≡ out ∷ w.sent)
        × (map (λ r. r.0) rs ≡ map (λ sf. sf.subflow_id) src.subflows)
        × ReportsOn src.ssrc src.last_sender_report rs src.subflows
        × (out.bytes
            ≡ make_rr_packet src.sender_ssrc (total_of src (take_time w).1)
              ++ subflows_rr_packet src.sender_ssrc src.ssrc rs)
        × (let report = rr_of from recvtime in
            process_rtcp_packet h (arriving from recvtime true out.bytes) iface state ≡ (
              h.on_rtcp_rr_packet
                (report (total_of src (take_time w).1))
                0
                src.sender_ssrc
                iface
                state
              >>= each (λ r s'. h.on_rtcp_rr_packet (report r.1) r.0 src.sender_ssrc iface s') rs))
  unfolding poll send_report datagram log_sent
  poll-process_rtcp_packet h iface from recvtime state src w due some_subflow few fits =
      let w1 = (take_time w).1 in
      let quiet = record src { send_rr = false } in
      let (blocks, ids, count, after, sent, net) =
        fill_subflows-FitsBlock src.ssrc src.last_sender_report src.subflows (take_time w1).1
          fits.ssrc_fits fits.subflows_fit in
      let (rs, sfs, w2) = reports_of quiet w1 in
      let made = create_report-few quiet w1 (omega arith) in
      let (front, chosen) = select_front-some sfs (omega arith) in
      let bytes =
        make_rr_packet src.sender_ssrc (total_of src w1)
        ++ subflows_rr_packet src.sender_ssrc src.ssrc rs in
      let out = datagram front.iface bytes front.remote true in
      let (front', _) = Subflow.send w2.net front bytes (length bytes) 0 true in
      (
        record src {
          send_rr = false;
          stat = (fill_receiver_report src.stat src.ssrc src.last_sender_report (take_time w1).0).1;
          subflows = store_subflow front' sfs;
        },
        log_sent out w2,
        out,
        rs,
        rw (due, made, chosen) refl,
        refl,
        ap (λ xs. out ∷ xs) (sent ∙ take_time-sent w1 ∙ take_time-sent w),
        ids,
        fill_subflows-ReportsOn src.ssrc src.last_sender_report src.subflows (take_time w1).1,
        refl,
        process_rtcp_packet-rr_packets h iface (arriving from recvtime true bytes) src.sender_ssrc
            src.ssrc (total_of src w1) rs state refl fits.sender_ssrc_fits
            (fill_receiver_report-FitsReport src.stat src.ssrc src.last_sender_report _
              fits.ssrc_fits fits.stat_fits)
            blocks (omega arith),
      )
