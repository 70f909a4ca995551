-- ===== src/Sender/Alike.antt =====
-- The lists of subflows that reports and `sender::recalc_subflow_percentage` (src/mprtp_sender.cpp)
-- leave behind.
use mprtplib.Prelude.{
  ℕ, ◌+◌, ◌≡◌, refl, ap, sym, ◌∙◌, arith, inl, inr, List, [], ◌∷◌, map, All, Bool-cases, ◌==◌,
  subst,
}
use mprtplib.Double.{Double}
use mprtplib.Rtcp.{RrPacket}
use mprtplib.Subflow.{Subflow, bitrate}
use mprtplib.Sender.Cycle.{report_to}
use mprtplib.Sender.Distribution.{recalc_subflow_percentage}
use mprtplib.Sender.Shares.{shareless, recalc_subflow_percentage-shareless}
use mprtplib.Sender.Lists.{
  route, fixed, IsSoundSubflow, total, process_rr_packet-fixed, process_rr_packet-IsSound,
}

module _ {W : Type 0} ⦃d : Double W⦄ where
  -- The same subflows in the same order, with counts that add up to the same.
  pub record Alike (before after : List (Subflow W)) : Type 0 where
    pub sound : All IsSoundSubflow before → All IsSoundSubflow after
    pub routes : map route after ≡ map route before
    pub packets : total (λ sf. sf.packet_count) after ≡ total (λ sf. sf.packet_count) before
    pub octets : total (λ sf. sf.octet_count) after ≡ total (λ sf. sf.octet_count) before

  pub Alike-refl : (sfs : List (Subflow W)) → Alike sfs sfs
  Alike-refl sfs = record { sound = λ h. h; routes = refl; packets = refl; octets = refl }

  pub Alike-eq : (before after : List (Subflow W)) → after ≡ before → Alike before after
  Alike-eq before after e = subst (Alike before) (sym e) (Alike-refl before)

  Alike-here :
      (sf sf' : Subflow W) (rest : List (Subflow W))
      → (IsSoundSubflow sf → IsSoundSubflow sf')
      → fixed sf' ≡ fixed sf
      → Alike (sf ∷ rest) (sf' ∷ rest)
  Alike-here sf sf' rest h e = record {
    sound = λ all. (h all.0, all.1);
    routes = ap (λ f. f.0 ∷ map route rest) e;
    packets = ap (λ f. f.2 + total (λ x. x.packet_count) rest) e;
    octets = ap (λ f. f.3 + total (λ x. x.octet_count) rest) e;
  }

  Alike-later :
      (sf : Subflow W) (before after : List (Subflow W))
      → Alike before after
      → Alike (sf ∷ before) (sf ∷ after)
  Alike-later sf before after h = record {
    sound = λ all. (all.0, h.sound all.1);
    routes = ap (λ xs. route sf ∷ xs) h.routes;
    packets = ap (λ n. sf.packet_count + n) h.packets;
    octets = ap (λ n. sf.octet_count + n) h.octets;
  }

  pub report_to-Alike :
      (id : ℕ) (pkt : RrPacket W) (now1 now2 : W) (sfs : List (Subflow W))
      → Alike sfs (report_to id pkt now1 now2 sfs).2
  unfolding report_to
  report_to-Alike id pkt now1 now2 [] = Alike-refl []
  report_to-Alike id pkt now1 now2 (sf ∷ rest) = elim (Bool-cases (sf.subflow_id == id)) [
    | inl here ↦
        rw (here, report_to)
          (Alike-here sf _ rest (process_rr_packet-IsSound sf pkt now1 now2)
            (process_rr_packet-fixed sf pkt now1 now2))
    | inr later ↦
        rw (later, report_to) (Alike-later sf rest _ (report_to-Alike id pkt now1 now2 rest))
  ]

  -- Lists that differ in the shares only.
  shareless-Alike :
      (before after : List (Subflow W))
      → map shareless after ≡ map shareless before
      → Alike before after
  shareless-Alike before after e = record {
    sound = λ h. unshared after (subst (All IsSoundSubflow) (sym e) (shared before h));
    routes = sym (routes-shareless after) ∙ ap (map route) e ∙ routes-shareless before;
    packets =
        sym (total-shareless (λ sf. sf.packet_count) (λ sf. refl) after)
        ∙ ap (total (λ sf. sf.packet_count)) e
        ∙ total-shareless (λ sf. sf.packet_count) (λ sf. refl) before;
    octets =
        sym (total-shareless (λ sf. sf.octet_count) (λ sf. refl) after)
        ∙ ap (total (λ sf. sf.octet_count)) e
        ∙ total-shareless (λ sf. sf.octet_count) (λ sf. refl) before;
  }
    where
      shared :
          (sfs : List (Subflow W)) → All IsSoundSubflow sfs → All IsSoundSubflow (map shareless sfs)
      shared [] h = tt
      shared (sf ∷ rest) (h, hs) = (
        record {
          id_fits = h.id_fits;
          sequence_fits = h.sequence_fits;
          packets_fit = h.packets_fit;
          octets_fit = h.octets_fit;
          congestion_fits = h.congestion_fits;
        },
        shared rest hs,
      )

      unshared :
          (sfs : List (Subflow W)) → All IsSoundSubflow (map shareless sfs) → All IsSoundSubflow sfs
      unshared [] h = tt
      unshared (sf ∷ rest) (h, hs) = (
        record {
          id_fits = h.id_fits;
          sequence_fits = h.sequence_fits;
          packets_fit = h.packets_fit;
          octets_fit = h.octets_fit;
          congestion_fits = h.congestion_fits;
        },
        unshared rest hs,
      )

      routes-shareless : (sfs : List (Subflow W)) → map route (map shareless sfs) ≡ map route sfs
      routes-shareless [] = refl
      routes-shareless (sf ∷ rest) = ap (λ xs. route sf ∷ xs) (routes-shareless rest)

      total-shareless :
          (f : Subflow W → ℕ)
          → ((sf : Subflow W) → f (shareless sf) ≡ f sf)
          → (sfs : List (Subflow W)) → total f (map shareless sfs) ≡ total f sfs
      total-shareless f same [] = refl
      total-shareless f same (sf ∷ rest) = omega (arith, same sf, total-shareless f same rest)

  pub recalc_subflow_percentage-Alike :
      (bitrate : W) (sfs : List (Subflow W)) → Alike sfs (recalc_subflow_percentage bitrate sfs)
  recalc_subflow_percentage-Alike bitrate sfs =
      shareless-Alike sfs _ (recalc_subflow_percentage-shareless bitrate sfs)
