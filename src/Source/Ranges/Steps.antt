-- ===== src/Source/Ranges/Steps.antt =====
-- A packet and a report leave a source of src/mprtp_source.cpp in its ranges.
use mprtplib.Prelude.{ℕ, ◌^◌, ◌<◌, true, false, Option, List, [], ◌∷◌, All, if_both, length}
use mprtplib.Prelude.Result.{ok, fault, or_fault, Holds, Holds->>=, Holds-after}
use mprtplib.Double.{Double}
use mprtplib.Interface.{Interface}
use mprtplib.Packet.{RtpPacket}
use mprtplib.Rtcp.{SrPacket}
use mprtplib.Stat
use mprtplib.Stat.Ranges.{FitsStat, FitsNumbers, process_packet-Fits, fill_receiver_report-FitsStat}
use mprtplib.Subflow
use mprtplib.Subflow.{Subflow, new_subflow}
use mprtplib.World.{World, take_time}
use mprtplib.Source.{
  Source, select_front, find_or_add, process_packet, fill_subflows, create_report, send_report,
  poll,
}
use mprtplib.Source.Ranges.{
  FitsSubflow, FitsSource, store_subflow-FitsSubflow, find_or_add-FitsSubflow, send-FitsSubflow,
}

module _ {W : Type 0} ⦃d : Double W⦄ (range32 : (x : W) → d.to_uint32 x < 2 ^ 32) where
  with_stat :
      (sf : Subflow W) (st : Stat.SourceStats W)
      → FitsSubflow sf
      → FitsStat st
      → FitsSubflow (record sf { recv_stat = st })
  with_stat sf st s h = record {
    id_fits = s.id_fits;
    sequence_fits = s.sequence_fits;
    packet_count_fits = s.packet_count_fits;
    octet_count_fits = s.octet_count_fits;
    packet_count_tt_fits = s.packet_count_tt_fits;
    octet_count_tt_fits = s.octet_count_tt_fits;
    report_fits = s.report_fits;
    stat_fits = h;
  }

  pub process_packet-FitsSource :
      (src : Source W) (pkt : RtpPacket W) (tsunit : W) (iface : Interface W) (w : World W)
      → FitsNumbers pkt
      → FitsSource src
      → Holds (λ r. FitsSource r.0 × FitsNumbers r.1) (process_packet src pkt tsunit iface w)
  unfolding process_packet Subflow.process_rtp_packet
  process_packet-FitsSource src pkt tsunit iface w n f =
      Holds-after (λ r. FitsSource r.0 × FitsNumbers r.1) (or_fault pkt.rawpack) _
        λ raw.
          let (st, pack1) = Stat.process_packet src.stat pkt false raw.recvtime tsunit in
          let (stat, n1) =
            process_packet-Fits range32 src.stat pkt false raw.recvtime tsunit f.stat_fits n in
          let (sf, after, _) = find_or_add pack1.subflow_id raw.from_address iface src.subflows w in
          let (s, all) =
            find_or_add-FitsSubflow pack1.subflow_id raw.from_address iface src.subflows w
              n1.subflow_id_fits f.subflows_fit in
          let (own, n2) =
            process_packet-Fits range32 sf.recv_stat pack1 true raw.recvtime tsunit s.stat_fits
              n1 in
          (
            record {
              sender_ssrc_fits = f.sender_ssrc_fits;
              ssrc_fits = f.ssrc_fits;
              stat_fits = stat;
              report_fits = f.report_fits;
              subflows_fit = store_subflow-FitsSubflow _ after (with_stat sf _ s own) all;
            },
            n2,
          )

  fill_subflows-FitsSubflow :
      (ssrc : ℕ) (sr : Option (SrPacket W)) (sfs : List (Subflow W)) (w : World W)
      → All FitsSubflow sfs
      → All FitsSubflow (fill_subflows ssrc sr sfs w).1
  unfolding fill_subflows
  fill_subflows-FitsSubflow ssrc sr [] w all = tt
  fill_subflows-FitsSubflow ssrc sr (sf ∷ rest) w all = (
    with_stat sf _ all.0 (
        fill_receiver_report-FitsStat range32 sf.recv_stat ssrc sr (take_time w).0
          (all.0).stat_fits),
    fill_subflows-FitsSubflow ssrc sr rest (take_time w).1 all.1,
  )

  create_report-FitsSource :
      (src : Source W) (w : World W)
      → FitsSource src
      → Holds (λ r. FitsSource r.1) (create_report src w)
  unfolding create_report
  create_report-FitsSource src w f =
      if_both (Holds (λ r. FitsSource r.1)) _ fault (ok _) tt (record {
        sender_ssrc_fits = f.sender_ssrc_fits;
        ssrc_fits = f.ssrc_fits;
        stat_fits =
            fill_receiver_report-FitsStat range32 src.stat src.ssrc src.last_sender_report
              (take_time w).0 f.stat_fits;
        report_fits = f.report_fits;
        subflows_fit =
            fill_subflows-FitsSubflow src.ssrc src.last_sender_report src.subflows _ f.subflows_fit;
      })

  select_front-FitsSubflow :
      (sfs : List (Subflow W)) → All FitsSubflow sfs → Holds FitsSubflow (select_front sfs)
  unfolding select_front
  select_front-FitsSubflow [] all = tt
  select_front-FitsSubflow (sf ∷ rest) all = all.0

  pub poll-FitsSource :
      (src : Source W) (w : World W) → FitsSource src → Holds (λ r. FitsSource r.0) (poll src w)
  unfolding poll send_report
  poll-FitsSource src w f =
      let quiet = record src { send_rr = false } in
      let silent : FitsSource quiet = record {
        sender_ssrc_fits = f.sender_ssrc_fits;
        ssrc_fits = f.ssrc_fits;
        stat_fits = f.stat_fits;
        report_fits = f.report_fits;
        subflows_fit = f.subflows_fit;
      } in
      if_both (Holds (λ r. FitsSource r.0)) src.send_rr _ (ok (src, w))
        (Holds->>= (λ r. FitsSource r.1) (λ r. FitsSource r.0) (create_report quiet (take_time w).1)
          _ (create_report-FitsSource quiet (take_time w).1 silent)
          λ r f1.
            Holds->>= FitsSubflow (λ x. FitsSource x.0) (select_front r.1.subflows) _
              (select_front-FitsSubflow r.1.subflows f1.subflows_fit)
              λ sf s. record {
                sender_ssrc_fits = f1.sender_ssrc_fits;
                ssrc_fits = f1.ssrc_fits;
                stat_fits = f1.stat_fits;
                report_fits = f1.report_fits;
                subflows_fit =
                    store_subflow-FitsSubflow _ r.1.subflows
                      (send-FitsSubflow _ sf r.0 (length r.0) 0 s) f1.subflows_fit;
              })
        f
