-- ===== src/Sender/Lists.antt =====
-- What the lists of subflows of `sender` (src/mprtp_sender.cpp) keep as one of them changes.
use mprtplib.Prelude.{
  ℕ, zero, suc, ◌+◌, ◌^◌, ◌<◌, ◌≤◌, ◌≡◌, refl, ap, ◌∙◌, arith, ltb, Bool, if◌then◌else◌, Option,
  none, some, List, [], ◌∷◌, map, set, get_elem?, All, length, if_both, ◌==◌,
}
use mprtplib.Address.{Endpoint}
use mprtplib.Constants.{ci_max}
use mprtplib.Double.{Double}
use mprtplib.Rtcp.{RrPacket}
use mprtplib.Interface.{Interface}
use mprtplib.Subflow
use mprtplib.Subflow.{
  Subflow, measure_since, measure, report_clean, report_loss, cool_down, update_tested,
  update_congested, bitrate,
}
use mprtplib.Subflow.Congestion.{process_rr_packet_step}

-- Where a subflow leads.
abbrev pub Route : Type 0 → Type 0
Route W = ℕ × Endpoint × Interface W

module _ {W : Type 0} where
  abbrev pub route : Subflow W → Route W
  route sf = (sf.subflow_id, sf.remote, sf.iface)

  -- The ranges of the C++ types, and the bound on the indicator.
  pub record IsSoundSubflow (sf : Subflow W) : Type 0 where
    pub id_fits : sf.subflow_id < 2 ^ 16
    pub sequence_fits : sf.sequence_number < 2 ^ 16
    pub packets_fit : sf.packet_count < 2 ^ 32
    pub octets_fit : sf.octet_count < 2 ^ 32
    pub congestion_fits : sf.congestion_indicator ≤ ci_max

  abbrev pub total : (Subflow W → ℕ) → List (Subflow W) → ℕ
  total f [] = 0
  total f (sf ∷ rest) = f sf + total f rest

  pub All-set :
      (P : Subflow W → Type 0) (sfs : List (Subflow W)) (k : ℕ) (new : Subflow W)
      → All P sfs
      → P new
      → All P (set sfs k new)
  All-set P [] k new all p = tt
  All-set P (x ∷ rest) zero new all p = (p, all.1)
  All-set P (x ∷ rest) (suc k) new all p = (all.0, All-set P rest k new all.1 p)

  pub total-set :
      (f : Subflow W → ℕ) (sfs : List (Subflow W)) (k : ℕ) (old new : Subflow W)
      → get_elem? sfs k ≡ some old
      → total f (set sfs k new) + f old ≡ total f sfs + f new
  total-set f [] k old new e = cc
  total-set f (x ∷ rest) zero old new e = ground arith
  total-set f (x ∷ rest) (suc k) old new e = omega (arith, total-set f rest k old new e)

  pub map-set {ℓ} :
      {B : Type ℓ} (f : Subflow W → B) (sfs : List (Subflow W)) (k : ℕ) (old new : Subflow W)
      → get_elem? sfs k ≡ some old
      → f new ≡ f old
      → map f (set sfs k new) ≡ map f sfs
  map-set f [] k old new e same = refl
  map-set f (x ∷ rest) zero old new e same = let x_old : some x ≡ some old = e in cc
  map-set f (x ∷ rest) (suc k) old new e same =
      ap (λ xs. f x ∷ xs) (map-set f rest k old new e same)

  pub length-map-route : (sfs : List (Subflow W)) → length (map route sfs) ≡ length sfs
  length-map-route [] = refl
  length-map-route (sf ∷ rest) = ap suc (length-map-route rest)

module _ {W : Type 0} ⦃d : Double W⦄ where
  -- What a report leaves alone.
  abbrev pub fixed : Subflow W → Route W × ℕ × ℕ × ℕ
  fixed sf = (route sf, sf.sequence_number, sf.packet_count, sf.octet_count)

  fixed_if :
      (b : Bool) (x y sf : Subflow W)
      → fixed x ≡ fixed sf
      → fixed y ≡ fixed sf
      → fixed (if b then x else y) ≡ fixed sf
  fixed_if b x y sf = if_both (λ t. fixed t ≡ fixed sf) b x y

  update_tested-fixed : (sf : Subflow W) → fixed (update_tested sf) ≡ fixed sf
  unfolding update_tested
  update_tested-fixed sf = ground arith

  update_congested-fixed : (sf : Subflow W) → fixed (update_congested sf) ≡ fixed sf
  unfolding update_congested
  update_congested-fixed sf = ground arith

  cool_down-fixed : (sf : Subflow W) (now1 now2 : W) → fixed (cool_down sf now1 now2) ≡ fixed sf
  unfolding cool_down
  cool_down-fixed sf now1 now2 = ground arith

  report_clean-fixed :
      (sf : Subflow W) (now1 now2 : W) → fixed (report_clean sf now1 now2) ≡ fixed sf
  unfolding report_clean
  report_clean-fixed sf now1 now2 =
      let t = update_tested sf in
      fixed_if (ltb 0 t.congestion_indicator) (update_congested (cool_down t now1 now2)) t sf
        (update_congested-fixed (cool_down t now1 now2)
          ∙ cool_down-fixed t now1 now2
          ∙ update_tested-fixed sf)
        (update_tested-fixed sf)

  measure-fixed :
      (sf : Subflow W) (pkt last : RrPacket W) (now1 now2 : W)
      → fixed (measure sf pkt last now1 now2) ≡ fixed sf
  unfolding measure report_loss
  measure-fixed sf pkt last now1 now2 =
      let sf1 = record sf { instant_bitrate = bitrate sf pkt last } in
      fixed_if (pkt.fractionlost == 0) (report_clean sf1 now1 now2) (report_loss sf1 now1) sf1
        (report_clean-fixed sf1 now1 now2) refl

  pub process_rr_packet-fixed :
      (sf : Subflow W) (pkt : RrPacket W) (now1 now2 : W)
      → fixed (Subflow.process_rr_packet sf pkt now1 now2) ≡ fixed sf
  unfolding Subflow.process_rr_packet measure_since
  process_rr_packet-fixed sf pkt now1 now2 = since sf.last_receiver_report
    where
      since : (last : Option (RrPacket W)) → fixed (measure_since last sf pkt now1 now2) ≡ fixed sf
      since none = refl
      since (some last) =
          fixed_if (ltb 0 sf.packet_count_tt) (measure sf pkt last now1 now2) sf sf
            (measure-fixed sf pkt last now1 now2) refl

  pub process_rr_packet-IsSound :
      (sf : Subflow W) (pkt : RrPacket W) (now1 now2 : W)
      → IsSoundSubflow sf
      → IsSoundSubflow (Subflow.process_rr_packet sf pkt now1 now2)
  process_rr_packet-IsSound sf pkt now1 now2 h =
      let e = process_rr_packet-fixed sf pkt now1 now2 in
      record {
        id_fits = rw (ap (λ f. (f.0).0) e) h.id_fits;
        sequence_fits = rw (ap (λ f. f.1) e) h.sequence_fits;
        packets_fit = rw (ap (λ f. f.2) e) h.packets_fit;
        octets_fit = rw (ap (λ f. f.3) e) h.octets_fit;
        congestion_fits = (process_rr_packet_step sf pkt now1 now2 h.congestion_fits).0;
      }
