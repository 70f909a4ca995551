-- ===== src/Subflow.antt =====
-- include/mprtp_subflow.h and src/mprtp_subflow.cpp: one path between a local interface and a remote
-- address, with the counts and the bitrates of the sender and the statistics of the receiver.
pub mod Congestion
use mprtplib.Prelude.{
  ℕ, zero, suc, ◌+◌, ◌-◌, ◌*◌, ◌%◌, ◌^◌, Bool, true, false, ◌&&◌, not, Option, none, some, ltb,
  ◌==◌, if◌then◌else◌,
}
use mprtplib.Prelude.Int.{ℤ, pos, is_pos}
use mprtplib.Address.{Endpoint}
use mprtplib.Bytes.{Memory}
use mprtplib.Constants.{ci_max, alpha, timeout}
use mprtplib.Double.{Double}
use mprtplib.Time.{time_zero}
use mprtplib.Packet.{RtpPacket}
use mprtplib.Rtcp.{RrPacket, SrPacket}
use mprtplib.Interface.{Interface, Datagram, sendto}
use mprtplib.Stat.{SourceStats, source_stats, process_packet, u32, sub32}

pub record Subflow (W : Type 0) : Type 0 where
  pub sequence_number : ℕ
  pub subflow_id : ℕ
  pub remote : Endpoint
  pub iface : Interface W
  pub last_sender_report : Option (SrPacket W)
  pub last_receiver_report : Option (RrPacket W)
  pub packet_count : ℕ
  pub octet_count : ℕ
  pub packet_count_tt : ℕ
  pub octet_count_tt : ℕ
  pub instant_bitrate : W
  pub tested_bitrate : W
  pub tb_initialized : Bool
  pub congested_bitrate : W
  pub cb_initialized : Bool
  pub congestion_indicator : ℕ
  pub congestion_time : W
  pub percentage : W
  pub ready_for_distribution : Bool
  pub recv_stat : SourceStats W

module _ {W : Type 0} ⦃d : Double W⦄ where
  open d use {of_nat, literal, add, sub, mul, div, lt}

  -- The constructor; `random` is the result of `rand()`. The interface is shared with the session,
  -- and a subflow reads only its sockets, which do not change once they are open.
  unfoldable pub new_subflow : (random id : ℕ) → Interface W → Endpoint → Subflow W
  new_subflow random id iface remote = record {
    sequence_number = random % 0xFFFF;
    subflow_id = id;
    remote = remote;
    iface = iface;
    last_sender_report = none;
    last_receiver_report = none;
    packet_count = 0;
    octet_count = 0;
    packet_count_tt = 0;
    octet_count_tt = 0;
    instant_bitrate = of_nat 0;
    tested_bitrate = of_nat 0;
    tb_initialized = false;
    congested_bitrate = of_nat 0;
    cb_initialized = false;
    congestion_indicator = 0;
    congestion_time = time_zero;
    percentage = literal 5 1;
    ready_for_distribution = false;
    recv_stat = source_stats;
  }

  -- `subflow::sendto`: the counts move if all of the packet went out, the number in any case.
  unfoldable pub send :
      (net : Datagram → ℤ)
      → Subflow W
      → Memory
      → (len payload_length : ℕ) → (rtcp : Bool) → Subflow W × ℤ
  send net sf bytes len payload_length rtcp =
      let ret = sendto net sf.iface bytes sf.remote rtcp in
      let counted = record sf {
        packet_count = u32 (sf.packet_count + 1);
        octet_count = u32 (sf.octet_count + payload_length);
        packet_count_tt = u32 (sf.packet_count_tt + 1);
        octet_count_tt = u32 (sf.octet_count_tt + payload_length);
      } in
      let sent = if is_pos ret len then counted else sf in
      (if rtcp then sf else record sent { sequence_number = (sf.sequence_number + 1) % 65536 }, ret)

  unfoldable pub process_rtp_packet :
      Subflow W → RtpPacket W → (recvtime tsunit : W) → Subflow W × RtpPacket W
  process_rtp_packet sf pack recvtime tsunit =
      let (st, pack') = process_packet sf.recv_stat pack true recvtime tsunit in
      (record sf { recv_stat = st }, pack')

  unfoldable pub process_sr_packet : Subflow W → SrPacket W → Subflow W
  process_sr_packet sf pkt = record sf { last_sender_report = some pkt }

  unfoldable pub is_congested : Subflow W → Bool
  is_congested sf = sf.congestion_indicator == ci_max

  unfoldable pub is_lossy : Subflow W → Bool
  is_lossy sf = ltb 0 sf.congestion_indicator && not (sf.congestion_indicator == ci_max)

  -- "Calculate instantaneous bitrate"
  unfoldable pub bitrate : Subflow W → (pkt last : RrPacket W) → W
  bitrate sf pkt last =
      let fract_loss = div (of_nat pkt.fractionlost) (literal 256 0) in
      let avg_packet_size = div (of_nat sf.octet_count_tt) (of_nat sf.packet_count_tt) in
      let time_diff = sub pkt.recv_time last.recv_time in
      let hsn_diff = of_nat (sub32 pkt.exthighseqnr last.exthighseqnr) in
      div (mul (mul hsn_diff (sub (literal 1 0) fract_loss)) avg_packet_size) time_diff

  -- `x * alpha + (1.0 - alpha) * m_instant_bitrate`
  abbrev smoothed : W → W → W
  smoothed x instant = add (mul x alpha) (mul (sub (literal 1 0) alpha) instant)

  unfoldable pub update_tested : Subflow W → Subflow W
  update_tested sf =
      if not sf.tb_initialized
      then record sf { tb_initialized = true; tested_bitrate = mul sf.instant_bitrate alpha }
      else if lt sf.tested_bitrate sf.instant_bitrate
      then record sf { tested_bitrate = smoothed sf.tested_bitrate sf.instant_bitrate }
      else sf

  unfoldable pub update_congested : Subflow W → Subflow W
  update_congested sf =
      if not sf.cb_initialized
      then record sf { cb_initialized = true; congested_bitrate = mul sf.instant_bitrate alpha }
      else if lt sf.congested_bitrate sf.instant_bitrate
      then record sf { congested_bitrate = smoothed sf.congested_bitrate sf.instant_bitrate }
      else sf

  -- The indicator falls once the time since the congestion has passed.
  unfoldable pub cool_down : Subflow W → (now1 now2 : W) → Subflow W
  cool_down sf now1 now2 =
      let due = add sf.congestion_time (mul (of_nat sf.congestion_indicator) timeout) in
      if lt due now1
      then record sf { congestion_indicator = sf.congestion_indicator - 1; congestion_time = now2 }
      else sf

  -- `get_fractionlost() == 0`
  unfoldable pub report_clean : Subflow W → (now1 now2 : W) → Subflow W
  report_clean sf now1 now2 =
      let tested = update_tested sf in
      if ltb 0 tested.congestion_indicator
      then update_congested (cool_down tested now1 now2)
      else tested

  -- "Reset tested bitrate"
  unfoldable pub report_loss : Subflow W → (now1 : W) → Subflow W
  report_loss sf now1 = record sf {
    tested_bitrate = mul sf.instant_bitrate alpha;
    tb_initialized = true;
    congested_bitrate = mul sf.instant_bitrate alpha;
    cb_initialized = true;
    congestion_time = now1;
    congestion_indicator =
        if ltb sf.congestion_indicator ci_max
        then sf.congestion_indicator + 1
        else sf.congestion_indicator;
  }

  -- The body of the `if` of `process_rr_packet`, against the report before.
  unfoldable pub measure : Subflow W → (pkt last : RrPacket W) → (now1 now2 : W) → Subflow W
  measure sf pkt last now1 now2 =
      let sf1 = record sf { instant_bitrate = bitrate sf pkt last } in
      let sf2 =
        if pkt.fractionlost == 0 then report_clean sf1 now1 now2 else report_loss sf1 now1 in
      record sf2 { ready_for_distribution = true }

  -- `if(m_last_receiver_report && m_packet_count_tt > 0)`
  unfoldable pub measure_since :
      Option (RrPacket W) → Subflow W → RrPacket W → (now1 now2 : W) → Subflow W
  measure_since none sf pkt now1 now2 = sf
  measure_since (some last) sf pkt now1 now2 =
      if ltb 0 sf.packet_count_tt then measure sf pkt last now1 now2 else sf

  -- `subflow::process_rr_packet`; `now1` and `now2` are what its calls of `rtp_time::now` answer.
  unfoldable pub process_rr_packet : Subflow W → RrPacket W → (now1 now2 : W) → Subflow W
  process_rr_packet sf pkt now1 now2 =
      let measured = measure_since sf.last_receiver_report sf pkt now1 now2 in
      record measured { packet_count_tt = 0; octet_count_tt = 0; last_receiver_report = some pkt }

  -- How often `process_rr_packet` calls `rtp_time::now`, where the first call answers `now1`.
  unfoldable pub clock_calls : Subflow W → RrPacket W → (now1 : W) → ℕ
  clock_calls sf pkt now1 =
      let due = add sf.congestion_time (mul (of_nat sf.congestion_indicator) timeout) in
      let cooling = if sf.congestion_indicator == 0 then 0 else if lt due now1 then 2 else 1 in
      let measuring = if pkt.fractionlost == 0 then cooling else 1 in
      elim sf.last_receiver_report as (λ _. ℕ) [
        | none ↦ 0
        | some last ↦ if sf.packet_count_tt == 0 then 0 else measuring
      ]
