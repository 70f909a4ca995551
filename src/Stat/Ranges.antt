-- ===== src/Stat/Ranges.antt =====
-- The statistics of src/mprtp_stat.cpp stay in the ranges of their types.
use mprtplib.Prelude.{
  ℕ, ◌+◌, ◌-◌, ◌%◌, ◌^◌, ◌<◌, ◌==◌, arith, Bool, Option, true, false, if_both, leb, ltb,
  if◌then◌else◌,
}
use mprtplib.Double.{Double}
use mprtplib.Packet.{RtpPacket}
use mprtplib.Rtcp.{SrPacket}
use mprtplib.Stat.{
  SourceStats, source_stats, Extended, extend, first_packet, update_jitter, next_packet,
  process_packet, u32, sub16, fill_receiver_report, start_new_interval,
}

-- The members of `source_stats` that are `uint32_t`.
pub record FitsStat {W : Type 0} (st : SourceStats W) : Type 0 where
  pub packets_received_fits : st.packets_received < 2 ^ 32
  pub num_cycles_fits : st.num_cycles < 2 ^ 32
  pub baseseqnr_fits : st.baseseqnr < 2 ^ 32
  pub exthighseqnr_fits : st.exthighseqnr < 2 ^ 32
  pub prev_ext_high_seqnr_fits : st.prev_ext_high_seqnr < 2 ^ 32
  pub jitter_fits : st.jitter < 2 ^ 32
  pub prev_timestamp_fits : st.prev_timestamp < 2 ^ 32
  pub num_new_packets_fits : st.num_new_packets < 2 ^ 32
  pub saved_ext_seqnr_fits : st.saved_ext_seqnr < 2 ^ 32

-- The numbers of a packet on its way through the statistics, in which `m_extseqnr` and
-- `m_subflow_extseqnr` come to have 32 bits.
pub record FitsNumbers {W : Type 0} (pkt : RtpPacket W) : Type 0 where
  pub extseqnr_fits : pkt.extseqnr < 2 ^ 32
  pub subflow_extseqnr_fits : pkt.subflow_extseqnr < 2 ^ 32
  pub subflow_id_fits : pkt.subflow_id < 2 ^ 16
  pub timestamp_fits : pkt.timestamp < 2 ^ 32
  pub ssrc_fits : pkt.ssrc < 2 ^ 32

abbrev FitsExtended : Extended → Type 0
FitsExtended e = (e.cycles < 2 ^ 32) × (e.highest < 2 ^ 32) × (e.extseqnr < 2 ^ 32)

extend-FitsExtended :
    (cycles highest seq : ℕ)
    → cycles < 2 ^ 32
    → highest < 2 ^ 32
    → FitsExtended (extend cycles highest seq)
unfolding extend
extend-FitsExtended cycles highest seq a b =
    let maxseq16 = highest % 65536 in
    let next = u32 (cycles + 0x10000) in
    if_both FitsExtended (leb maxseq16 seq) _ _ (a, omega arith, omega arith)
      (if_both FitsExtended (ltb (sub16 (seq % 65536) maxseq16) (sub16 maxseq16 (seq % 65536)))
        (record { cycles = next; highest = u32 (next + seq); extseqnr = u32 (next + seq) })
        (record { cycles = cycles; highest = highest; extseqnr = u32 (cycles + seq) })
        (omega arith, omega arith, omega arith) (a, b, omega arith))

module _ {W : Type 0} ⦃d : Double W⦄ where
  pub source_stats-FitsStat : FitsStat (source_stats {W = W})
  unfolding source_stats
  source_stats-FitsStat = record {
    packets_received_fits = omega arith;
    num_cycles_fits = omega arith;
    baseseqnr_fits = omega arith;
    exthighseqnr_fits = omega arith;
    prev_ext_high_seqnr_fits = omega arith;
    jitter_fits = omega arith;
    prev_timestamp_fits = omega arith;
    num_new_packets_fits = omega arith;
    saved_ext_seqnr_fits = omega arith;
  }

  abbrev Fits : SourceStats W × RtpPacket W → Type 0
  Fits r = FitsStat r.0 × FitsNumbers r.1

  first_packet-Fits :
      (st : SourceStats W) (pack : RtpPacket W) (seq : ℕ) (recvtime : W)
      → FitsStat st
      → FitsNumbers pack
      → seq < 2 ^ 32
      → Fits (first_packet st pack seq recvtime)
  unfolding first_packet
  first_packet-Fits st pack seq recvtime h n s =
      let base = if seq == 0 then 0xFFFF else seq - 1 in
      let base_fits : base < 2 ^ 32 =
        if_both (λ b. b < 2 ^ 32) (seq == 0) 0xFFFF (seq - 1) (omega arith) (omega arith) in
      (
        record {
          packets_received_fits = omega arith;
          num_cycles_fits =
              if_both (λ c. c < 2 ^ 32) (seq == 0) 0x10000 st.num_cycles (omega arith)
                h.num_cycles_fits;
          baseseqnr_fits = base_fits;
          exthighseqnr_fits = omega arith;
          prev_ext_high_seqnr_fits = base_fits;
          jitter_fits = h.jitter_fits;
          prev_timestamp_fits = n.timestamp_fits;
          num_new_packets_fits = omega arith;
          saved_ext_seqnr_fits = base_fits;
        },
        record {
          extseqnr_fits = omega arith;
          subflow_extseqnr_fits = n.subflow_extseqnr_fits;
          subflow_id_fits = n.subflow_id_fits;
          timestamp_fits = n.timestamp_fits;
          ssrc_fits = n.ssrc_fits;
        },
      )

module _ {W : Type 0} ⦃d : Double W⦄ (range32 : (x : W) → d.to_uint32 x < 2 ^ 32) where
  converted :
      (b : Bool) (x none : W)
      → (if◌then◌else◌ {A = W × ℕ} b (x, d.to_uint32 x) (none, 0)).1 < 2 ^ 32
  converted true x none = range32 x
  converted false x none = omega arith

  update_jitter-fits :
      (st : SourceStats W) (ts : ℕ) (recvtime tsunit : W)
      → (update_jitter st ts recvtime tsunit).1 < 2 ^ 32
  unfolding update_jitter
  update_jitter-fits st ts recvtime tsunit = converted (d.lt (d.of_nat 0) tsunit) _ (d.of_nat 0)

  next_packet-Fits :
      (st : SourceStats W) (pack : RtpPacket W) (seq : ℕ) (subflow : Bool) (recvtime tsunit : W)
      → FitsStat st
      → FitsNumbers pack
      → Fits (next_packet st pack seq subflow recvtime tsunit)
  unfolding next_packet
  next_packet-Fits st pack seq subflow recvtime tsunit h n =
      let (cycles, highest, number) =
        extend-FitsExtended st.num_cycles st.exthighseqnr seq h.num_cycles_fits
          h.exthighseqnr_fits in
      (
        record {
          packets_received_fits = omega arith;
          num_cycles_fits = cycles;
          baseseqnr_fits = h.baseseqnr_fits;
          exthighseqnr_fits = highest;
          prev_ext_high_seqnr_fits = h.prev_ext_high_seqnr_fits;
          jitter_fits = update_jitter-fits st pack.timestamp recvtime tsunit;
          prev_timestamp_fits = n.timestamp_fits;
          num_new_packets_fits = omega arith;
          saved_ext_seqnr_fits = h.saved_ext_seqnr_fits;
        },
        if_both FitsNumbers subflow _ _
            (record {
              extseqnr_fits = n.extseqnr_fits;
              subflow_extseqnr_fits = number;
              subflow_id_fits = n.subflow_id_fits;
              timestamp_fits = n.timestamp_fits;
              ssrc_fits = n.ssrc_fits;
            })
            (record {
              extseqnr_fits = number;
              subflow_extseqnr_fits = n.subflow_extseqnr_fits;
              subflow_id_fits = n.subflow_id_fits;
              timestamp_fits = n.timestamp_fits;
              ssrc_fits = n.ssrc_fits;
            }),
      )

  -- A packet leaves the statistics in their ranges, and its own numbers too.
  pub process_packet-Fits :
      (st : SourceStats W) (pack : RtpPacket W) (subflow : Bool) (recvtime tsunit : W)
      → FitsStat st
      → FitsNumbers pack
      → FitsStat (process_packet st pack subflow recvtime tsunit).0
        × FitsNumbers (process_packet st pack subflow recvtime tsunit).1
  unfolding process_packet
  process_packet-Fits st pack subflow recvtime tsunit h n =
      let seq = if subflow then pack.subflow_extseqnr else pack.extseqnr in
      let seq_fits : seq < 2 ^ 32 =
        if_both (λ s. s < 2 ^ 32) subflow pack.subflow_extseqnr pack.extseqnr
          n.subflow_extseqnr_fits n.extseqnr_fits in
      if_both Fits st.received_data (next_packet st pack seq subflow recvtime tsunit)
        (first_packet st pack seq recvtime)
        (next_packet-Fits st pack seq subflow recvtime tsunit h n)
        (first_packet-Fits st pack seq recvtime h n seq_fits)

  -- A report starts a new interval.
  pub fill_receiver_report-FitsStat :
      (st : SourceStats W) (ssrc : ℕ) (sr : Option (SrPacket W)) (now : W)
      → FitsStat st
      → FitsStat (fill_receiver_report st ssrc sr now).1
  unfolding fill_receiver_report start_new_interval
  fill_receiver_report-FitsStat st ssrc sr now h = record {
    packets_received_fits = h.packets_received_fits;
    num_cycles_fits = h.num_cycles_fits;
    baseseqnr_fits = h.baseseqnr_fits;
    exthighseqnr_fits = h.exthighseqnr_fits;
    prev_ext_high_seqnr_fits = h.prev_ext_high_seqnr_fits;
    jitter_fits = h.jitter_fits;
    prev_timestamp_fits = h.prev_timestamp_fits;
    num_new_packets_fits = omega arith;
    saved_ext_seqnr_fits = h.exthighseqnr_fits;
  }
