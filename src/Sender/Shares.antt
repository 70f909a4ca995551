-- ===== src/Sender/Shares.antt =====
-- What `sender::recalc_subflow_percentage` (src/mprtp_sender.cpp) does to the subflows.
use mprtplib.Prelude.{◌≡◌, refl, arith, List, [], ◌∷◌, map}
use mprtplib.Double.{Double}
use mprtplib.Subflow.{Subflow}
use mprtplib.Sender.Distribution.{
  set_percentage, tested, congested, sum, proportional, limit_one, rest_of, assigned, share_one,
  stepwise, recalc_subflow_percentage,
}

module _ {W : Type 0} ⦃d : Double W⦄ where
  open d use {of_nat, add, div}

  -- A subflow without its share.
  abbrev pub shareless : Subflow W → Subflow W
  shareless sf = set_percentage (of_nat 0) sf

  shareless-map :
      (f : Subflow W → Subflow W) (same : (sf : Subflow W) → shareless (f sf) ≡ shareless sf)
      (sfs : List (Subflow W))
      → map shareless (map f sfs) ≡ map shareless sfs
  shareless-map f same [] = refl
  shareless-map f same (sf ∷ rest) = rw (same sf, shareless-map f same rest) refl

  shareless-limit_one : (a b : W) (sf : Subflow W) → shareless (limit_one a b sf) ≡ shareless sf
  unfolding limit_one
  shareless-limit_one a b sf = ground arith

  shareless-share_one : (a b : W) (sf : Subflow W) → shareless (share_one a b sf) ≡ shareless sf
  unfolding share_one
  shareless-share_one a b sf = ground arith

  shareless-proportional :
      (rate : Subflow W → W) (sfs : List (Subflow W))
      → map shareless (proportional rate sfs) ≡ map shareless sfs
  unfolding proportional
  shareless-proportional rate sfs = shareless-map _ (λ sf. refl) sfs

  shareless-stepwise :
      (bitrate : W) (sfs : List (Subflow W))
      → map shareless (stepwise bitrate sfs) ≡ map shareless sfs
  unfolding stepwise
  shareless-stepwise bitrate sfs =
      let limits = map (limit_one (sum tested sfs) bitrate) sfs in
      let same = shareless-map (limit_one (sum tested sfs) bitrate) (shareless-limit_one _ _) sfs in
      let a = sum tested (rest_of limits) in
      let b = assigned (of_nat 0) limits in
      let shared = shareless-map (share_one a b) (shareless-share_one a b) limits in ground arith

  -- The new distribution changes the shares and nothing else: the subflows, their order and the rest
  -- of their state stay.
  pub recalc_subflow_percentage-shareless :
      (bitrate : W) (sfs : List (Subflow W))
      → map shareless (recalc_subflow_percentage bitrate sfs) ≡ map shareless sfs
  unfolding recalc_subflow_percentage
  recalc_subflow_percentage-shareless bitrate sfs =
      let first = shareless-proportional tested sfs in
      let all = shareless-proportional congested in
      let steps = shareless-stepwise bitrate in
      grind (
        arith,
        shareless-proportional tested sfs,
        shareless-proportional congested sfs,
        shareless-proportional congested (proportional tested sfs),
        shareless-stepwise bitrate sfs,
        shareless-stepwise bitrate (proportional tested sfs),
      )
