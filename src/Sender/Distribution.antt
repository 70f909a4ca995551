-- ===== src/Sender/Distribution.antt =====
-- `sender::recalc_subflow_percentage` (src/mprtp_sender.cpp): how the stream is spread over the
-- subflows. Sums run from the left and start at 0, as the loops do.
use mprtplib.Prelude.{
  ℕ, ◌+◌, Bool, true, ◌&&◌, ◌||◌, not, List, [], ◌∷◌, ◌==◌, if◌then◌else◌, length, map, foldl,
}
use mprtplib.Double.{Double}
use mprtplib.Constants.{beta, gamma}
use mprtplib.Subflow.{Subflow, is_congested, is_lossy}

module _ {W : Type 0} where
  abbrev pub set_percentage : W → Subflow W → Subflow W
  set_percentage percentage sf = record sf { percentage = percentage }

  abbrev pub tested : Subflow W → W
  tested sf = sf.tested_bitrate

  abbrev pub congested : Subflow W → W
  congested sf = sf.congested_bitrate

  unfoldable pub all_ready : List (Subflow W) → Bool
  all_ready [] = true
  all_ready (sf ∷ rest) = sf.ready_for_distribution && all_ready rest

module _ {W : Type 0} ⦃d : Double W⦄ where
  open d use {of_nat, literal, add, sub, mul, div, lt, eq}

  unfoldable pub congested_count : List (Subflow W) → ℕ
  congested_count [] = 0
  congested_count (sf ∷ rest) = (if is_congested sf then 1 else 0) + congested_count rest

  -- `std::min`
  abbrev min : W → W → W
  min a b = if lt b a then b else a

  abbrev pub sum : (Subflow W → W) → List (Subflow W) → W
  sum rate sfs = foldl (λ total sf. add total (rate sf)) (of_nat 0) sfs

  -- Each subflow's share of the sum of one rate.
  unfoldable pub proportional : (Subflow W → W) → List (Subflow W) → List (Subflow W)
  proportional rate sfs = map (λ sf. set_percentage (div (rate sf) (sum rate sfs)) sf) sfs

  -- The share of a congested or a lossy subflow.
  unfoldable pub limited : (factor sum_tb stream_bitrate : W) → Subflow W → W
  limited factor sum_tb stream_bitrate sf =
      min (div sf.tested_bitrate sum_tb) (div (mul factor sf.congested_bitrate) stream_bitrate)

  unfoldable pub is_rest : Subflow W → Bool
  is_rest sf = not (is_congested sf || is_lossy sf)

  -- The loop over all subflows sets the shares of those that are congested or lossy.
  unfoldable pub limit_one : (sum_tb stream_bitrate : W) → Subflow W → Subflow W
  limit_one sum_tb stream_bitrate sf =
      if is_congested sf
      then set_percentage (limited beta sum_tb stream_bitrate sf) sf
      else if is_lossy sf
      then set_percentage (limited gamma sum_tb stream_bitrate sf) sf
      else sf

  -- `AP`, the sum of the shares that the loop sets
  unfoldable pub assigned : W → List (Subflow W) → W
  assigned ap [] = ap
  assigned ap (sf ∷ rest) = assigned (if is_rest sf then ap else add ap sf.percentage) rest

  -- The rest, in order.
  unfoldable pub rest_of : List (Subflow W) → List (Subflow W)
  rest_of [] = []
  rest_of (sf ∷ sfs) = if is_rest sf then sf ∷ rest_of sfs else rest_of sfs

  -- The last loop: what is not assigned goes to the rest, by tested bitrate.
  unfoldable pub share_one : (sum_unass ap : W) → Subflow W → Subflow W
  share_one sum_unass ap sf =
      if is_rest sf
      then set_percentage (mul (div sf.tested_bitrate sum_unass) (sub (literal 1 0) ap)) sf
      else sf

  -- "we use a stepwise approach"
  unfoldable pub stepwise : (stream_bitrate : W) → List (Subflow W) → List (Subflow W)
  stepwise stream_bitrate sfs =
      let limits = map (limit_one (sum tested sfs) stream_bitrate) sfs in
      let ap = assigned (of_nat 0) limits in
      let sum_unass = sum tested (rest_of limits) in
      if length (rest_of limits) == 0
      then limits
      else if eq sum_unass (of_nat 0)
      then limits
      else map (share_one sum_unass ap) limits

  unfoldable pub recalc_subflow_percentage :
      (stream_bitrate : W) → List (Subflow W) → List (Subflow W)
  recalc_subflow_percentage stream_bitrate sfs =
      let count = congested_count sfs in
      let first = if count == 0 then proportional tested sfs else sfs in
      if not (all_ready sfs)
      then sfs
      else if count == length sfs
      then proportional congested first
      else stepwise stream_bitrate first
