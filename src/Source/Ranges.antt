-- ===== src/Source/Ranges.antt =====
-- The numbers that a source of src/mprtp_source.cpp and its subflows keep stay in the ranges of their
-- types.
pub mod Steps
use mprtplib.Prelude.{
  ℕ, ◌+◌, ◌%◌, ◌^◌, ◌<◌, ◌≡◌, ◌==◌, arith, Bool, true, false, inl, inr, Option, none, some, List,
  [], ◌∷◌, ◌++◌, All, Bool-cases, Option-cases, if_both, if◌then◌else◌, length,
}
use mprtplib.Prelude.Int.{ℤ, is_pos}
use mprtplib.Prelude.Result.{ok, fault, or_fault, Holds, Holds->>=, Holds-after}
use mprtplib.Address.{Endpoint}
use mprtplib.Bytes.{Memory}
use mprtplib.Double.{Double}
use mprtplib.Interface.{Interface, Datagram, sendto}
use mprtplib.Packet.{RtpPacket}
use mprtplib.Rtcp.{SrPacket}
use mprtplib.Rtcp.Ranges.{FitsSr}
use mprtplib.Stat
use mprtplib.Stat.Ranges.{
  FitsStat, FitsNumbers, source_stats-FitsStat, process_packet-Fits, fill_receiver_report-FitsStat,
}
use mprtplib.Subflow
use mprtplib.Subflow.{Subflow, new_subflow}
use mprtplib.World.{World, take_time, take_random}
use mprtplib.Session.Traffic.{All-end}
use mprtplib.Source.{
  Source, new_source, find_subflow, store_subflow, select_front, find_or_add, process_packet,
  process_sr_packet, fill_subflows, create_report, send_report, poll,
}

-- The last sender report, if there is one.
abbrev pub FitsLast : {W : Type 0} → Option (SrPacket W) → Type 0
FitsLast none = Unit {0}
FitsLast (some sr) = FitsSr sr

pub record FitsSubflow {W : Type 0} (sf : Subflow W) : Type 0 where
  pub id_fits : sf.subflow_id < 2 ^ 16
  pub sequence_fits : sf.sequence_number < 2 ^ 16
  pub packet_count_fits : sf.packet_count < 2 ^ 32
  pub octet_count_fits : sf.octet_count < 2 ^ 32
  pub packet_count_tt_fits : sf.packet_count_tt < 2 ^ 32
  pub octet_count_tt_fits : sf.octet_count_tt < 2 ^ 32
  pub report_fits : FitsLast sf.last_sender_report
  pub stat_fits : FitsStat sf.recv_stat

pub record FitsSource {W : Type 0} (src : Source W) : Type 0 where
  pub sender_ssrc_fits : src.sender_ssrc < 2 ^ 32
  pub ssrc_fits : src.ssrc < 2 ^ 32
  pub stat_fits : FitsStat src.stat
  pub report_fits : FitsLast src.last_sender_report
  pub subflows_fit : All FitsSubflow src.subflows

module _ {W : Type 0} where
  pub store_subflow-FitsSubflow :
      (new : Subflow W) (sfs : List (Subflow W))
      → FitsSubflow new
      → All FitsSubflow sfs
      → All FitsSubflow (store_subflow new sfs)
  unfolding store_subflow
  store_subflow-FitsSubflow new [] h all = tt
  store_subflow-FitsSubflow new (sf ∷ rest) h all =
      if_both (All FitsSubflow) (sf.subflow_id == new.subflow_id) _ _ (h, all.1)
        (all.0, store_subflow-FitsSubflow new rest h all.1)

  find_subflow-FitsSubflow :
      (id : ℕ) (sfs : List (Subflow W)) (found : Subflow W)
      → All FitsSubflow sfs
      → find_subflow id sfs ≡ some found
      → FitsSubflow found
  unfolding find_subflow
  find_subflow-FitsSubflow id [] found all e = cc
  find_subflow-FitsSubflow id (sf ∷ rest) found all e = elim (Bool-cases (sf.subflow_id == id)) [
    | inl here ↦
        let same : some sf ≡ some found = rw (here, find_subflow) at e in
        let eq : sf ≡ found = cc in rw⁻¹ eq all.0
    | inr later ↦ find_subflow-FitsSubflow id rest found all.1 (rw (later, find_subflow) at e)
  ]

module _ {W : Type 0} ⦃d : Double W⦄ where
  new_subflow-FitsSubflow :
      (random id : ℕ) (iface : Interface W) (addr : Endpoint)
      → id < 2 ^ 16
      → FitsSubflow (new_subflow random id iface addr)
  unfolding new_subflow
  new_subflow-FitsSubflow random id iface addr h = record {
    id_fits = h;
    sequence_fits = omega arith;
    packet_count_fits = omega arith;
    octet_count_fits = omega arith;
    packet_count_tt_fits = omega arith;
    octet_count_tt_fits = omega arith;
    report_fits = tt;
    stat_fits = source_stats-FitsStat;
  }

  pub new_source-FitsSource :
      (ssrc sender_ssrc : ℕ)
      → ssrc < 2 ^ 32
      → sender_ssrc < 2 ^ 32
      → FitsSource {W = W} (new_source ssrc sender_ssrc)
  unfolding new_source
  new_source-FitsSource ssrc sender_ssrc h k = record {
    sender_ssrc_fits = k;
    ssrc_fits = h;
    stat_fits = source_stats-FitsStat;
    report_fits = tt;
    subflows_fit = tt;
  }

  pub find_or_add-FitsSubflow :
      (id : ℕ) (addr : Endpoint) (iface : Interface W) (sfs : List (Subflow W)) (w : World W)
      → id < 2 ^ 16
      → All FitsSubflow sfs
      → let (sf, after, _) = find_or_add id addr iface sfs w in
        FitsSubflow sf × All FitsSubflow after
  unfolding find_or_add take_random
  find_or_add-FitsSubflow id addr iface sfs w h all = elim (Option-cases (find_subflow id sfs)) [
    | inr (sf, e) ↦ rw (e, find_or_add) (find_subflow-FitsSubflow id sfs sf all e, all)
    | inl e ↦
        let fits = new_subflow-FitsSubflow (w.randoms w.randoms_taken) id iface addr h in
        rw (e, find_or_add) (fits, All-end FitsSubflow sfs _ all fits)
  ]

  pub process_sr_packet-FitsSource :
      (src : Source W) (pkt : SrPacket W) (id : ℕ) (iface : Interface W) (w : World W)
      → id < 2 ^ 16
      → FitsSr pkt
      → FitsSource src
      → FitsSource (process_sr_packet src pkt id iface w).0
  unfolding process_sr_packet Subflow.process_sr_packet
  process_sr_packet-FitsSource src pkt id iface w h sr f =
      let (sf, after, w') = find_or_add id pkt.recv_from iface src.subflows w in
      let (s, all) =
        find_or_add-FitsSubflow id pkt.recv_from iface src.subflows w h f.subflows_fit in
      if_both (λ (r : Source W × World W). FitsSource r.0) (id == 0) _ _
        (record {
          sender_ssrc_fits = f.sender_ssrc_fits;
          ssrc_fits = f.ssrc_fits;
          stat_fits = f.stat_fits;
          report_fits = sr;
          subflows_fit = f.subflows_fit;
        })
        (record {
          sender_ssrc_fits = f.sender_ssrc_fits;
          ssrc_fits = f.ssrc_fits;
          stat_fits = f.stat_fits;
          report_fits = f.report_fits;
          subflows_fit =
              store_subflow-FitsSubflow (record sf { last_sender_report = some pkt }) after
                (record {
                  id_fits = s.id_fits;
                  sequence_fits = s.sequence_fits;
                  packet_count_fits = s.packet_count_fits;
                  octet_count_fits = s.octet_count_fits;
                  packet_count_tt_fits = s.packet_count_tt_fits;
                  octet_count_tt_fits = s.octet_count_tt_fits;
                  report_fits = sr;
                  stat_fits = s.stat_fits;
                })
                all;
        })

  pub send-FitsSubflow :
      (net : Datagram → ℤ) (sf : Subflow W) (bytes : Memory) (len n : ℕ)
      → FitsSubflow sf
      → FitsSubflow (Subflow.send net sf bytes len n true).0
  unfolding Subflow.send
  send-FitsSubflow net sf bytes len n h = h
