-- ===== src/Subflow/Congestion.antt =====
-- The congestion indicator of src/mprtp_subflow.cpp as the reports come in.
use mprtplib.Prelude.{
  ℕ, ◌+◌, ◌≤◌, ◌<◌, ◌≡◌, ◌≢◌, ◌⊎◌, inl, inr, refl, arith, Option, none, some, ltb, ltb→lt, ==_iff,
  Bool-cases, ◌==◌, min,
}
use mprtplib.Double.{Double}
use mprtplib.Constants.{ci_max}
use mprtplib.Rtcp.{RrPacket}
use mprtplib.Subflow.{
  Subflow, process_rr_packet, measure_since, measure, report_clean, report_loss, cool_down,
  update_tested, update_congested, bitrate,
}

-- How one report moves the indicator: up to `CIMAX` on loss, down by one or not at all on none.
abbrev pub Moves : (fractionlost before after : ℕ) → Type 0
Moves fractionlost before after =
    ((fractionlost ≢ 0) × (after ≡ min (before + 1) ci_max))
    ⊎ ((fractionlost ≡ 0) × (after ≤ before) × (before ≤ after + 1))

Moves-bound :
    {fractionlost before after : ℕ}
    → Moves fractionlost before after
    → before ≤ ci_max
    → after ≤ ci_max
Moves-bound (inl (loss, up)) h = omega arith
Moves-bound (inr (clean, down, near)) h = omega arith

module _ {W : Type 0} ⦃d : Double W⦄ where
  update_tested-indicator :
      (sf : Subflow W) → (update_tested sf).congestion_indicator ≡ sf.congestion_indicator
  unfolding update_tested
  update_tested-indicator sf = ground arith

  update_congested-indicator :
      (sf : Subflow W) → (update_congested sf).congestion_indicator ≡ sf.congestion_indicator
  unfolding update_congested
  update_congested-indicator sf = ground arith

  cool_down-indicator :
      (sf : Subflow W) (now1 now2 : W)
      → let ci = (cool_down sf now1 now2).congestion_indicator in
        (ci ≤ sf.congestion_indicator) × (sf.congestion_indicator ≤ ci + 1)
  unfolding cool_down
  cool_down-indicator sf now1 now2 = ground arith

  report_clean-indicator :
      (sf : Subflow W) (now1 now2 : W)
      → let ci = (report_clean sf now1 now2).congestion_indicator in
        (ci ≤ sf.congestion_indicator) × (sf.congestion_indicator ≤ ci + 1)
  unfolding report_clean
  report_clean-indicator sf now1 now2 =
      let t = update_tested sf in
      ground (
        arith,
        update_tested-indicator sf,
        cool_down-indicator t now1 now2,
        update_congested-indicator (cool_down t now1 now2),
      )

  measure-Moves :
      (sf : Subflow W) (pkt last : RrPacket W) (now1 now2 : W)
      → sf.congestion_indicator ≤ ci_max
      → Moves pkt.fractionlost sf.congestion_indicator
          (measure sf pkt last now1 now2).congestion_indicator
  unfolding measure report_loss
  measure-Moves sf pkt last now1 now2 h = elim (Bool-cases (pkt.fractionlost == 0)) [
    | inl clean ↦
        let fall =
          report_clean-indicator (record sf { instant_bitrate = bitrate sf pkt last }) now1 now2 in
        rw clean (inr ((==_iff _ 0).0 clean, fall.0, fall.1))
    | inr loss ↦ rw loss (inl (λ e. cc (rw e at loss), ground arith))
  ]

  -- The report is measured: there is one before it, and packets went out since.
  abbrev pub IsMeasured : Subflow W → Type 0
  IsMeasured sf = (sf.last_receiver_report ≢ none) × (0 < sf.packet_count_tt)

  measure_since-Moves :
      (last : Option (RrPacket W)) (sf : Subflow W) (pkt : RrPacket W) (now1 now2 : W)
      → sf.congestion_indicator ≤ ci_max
      → let ci = (measure_since last sf pkt now1 now2).congestion_indicator in
        ((last ≢ none)
          × (0 < sf.packet_count_tt)
          × Moves pkt.fractionlost sf.congestion_indicator ci)
        ⊎ (((last ≡ none) ⊎ (sf.packet_count_tt ≡ 0)) × (ci ≡ sf.congestion_indicator))
  unfolding measure_since
  measure_since-Moves none sf pkt now1 now2 h = inr (inl refl, refl)
  measure_since-Moves (some last) sf pkt now1 now2 h =
      elim (Bool-cases (ltb 0 sf.packet_count_tt)) [
        | inl sent ↦
            rw (sent, measure_since)
              (inl (λ e. cc, ltb→lt _ _ sent, measure-Moves sf pkt last now1 now2 h))
        | inr idle ↦ rw (idle, measure_since) (inr (inr (ground arith), refl))
      ]

  -- A report moves the indicator only if there is a report before it and packets went out since, and
  -- then by one step at most: up on loss, but not past `CIMAX`, and down or not at all on none. In any
  -- case it is the report that the next is measured against, over the packets sent from then on.
  pub process_rr_packet_step :
      (sf : Subflow W) (pkt : RrPacket W) (now1 now2 : W)
      → sf.congestion_indicator ≤ ci_max
      → let after = process_rr_packet sf pkt now1 now2 in
        let ci = after.congestion_indicator in
        (ci ≤ ci_max)
        × ((IsMeasured sf × Moves pkt.fractionlost sf.congestion_indicator ci)
            ⊎ (¬ IsMeasured sf × (ci ≡ sf.congestion_indicator)))
        × (after.last_receiver_report ≡ some pkt)
        × (after.packet_count_tt ≡ 0)
        × (after.octet_count_tt ≡ 0)
  unfolding process_rr_packet
  process_rr_packet_step sf pkt now1 now2 h =
      elim (measure_since-Moves sf.last_receiver_report sf pkt now1 now2 h) [
        | inl (seen, sent, moves) ↦
            (Moves-bound moves h, inl ((seen, sent), moves), refl, refl, refl)
        | inr (idle, same) ↦ (omega arith, inr (unmeasured idle, same), refl, refl, refl)
      ]
    where
      unmeasured : (sf.last_receiver_report ≡ none) ⊎ (sf.packet_count_tt ≡ 0) → ¬ IsMeasured sf
      unmeasured (inl e) m = m.0 e
      unmeasured (inr e) m = omega (arith, m.1)
