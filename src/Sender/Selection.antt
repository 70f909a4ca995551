-- ===== src/Sender/Selection.antt =====
-- `sender::select_subflow` (src/mprtp_sender.cpp): which subflow is chosen.
use mprtplib.Prelude.{
  ℕ, zero, suc, ◌+◌, ◌%◌, ◌<◌, ◌≡◌, ◌≢◌, ◌⊎◌, inl, inr, refl, arith, Bool, true, false, some, none,
  List, [], ◌∷◌, ◌==◌, length, Bool-cases, Option-cases,
}
use mprtplib.Prelude.Result.{ok}
use mprtplib.Double.{Double}
use mprtplib.Subflow.{Subflow}
use mprtplib.World.{take_random}
use mprtplib.Sender.{Sender, select_from, select_subflow}

below-suc :
    (q : ℕ → Bool) (m : ℕ)
    → q 0 ≡ false
    → ((j : ℕ) → j < m → q (suc j) ≡ false)
    → (j : ℕ) → j < suc m
    → q j ≡ false
below-suc q m first later zero h = first
below-suc q m first later (suc j) h = later j (omega arith)

module _ {W : Type 0} ⦃d : Double W⦄ where
  open d use {of_nat, literal, add, div, lt}

  -- The sum of the first `n` shares, from `p` on.
  unfoldable pub reached : (p : W) → List (Subflow W) → (n : ℕ) → W
  reached p sfs zero = p
  reached p [] (suc n) = p
  reached p (sf ∷ rest) (suc n) = reached (add p sf.percentage) rest n

  -- No sum of the first shares up to place `n` exceeds the number.
  abbrev pub NoneBefore : (rnd : W) → List (Subflow W) → (p : W) → (n : ℕ) → Type 0
  NoneBefore rnd sfs p n = (j : ℕ) → j < n → lt rnd (reached p sfs (suc j)) ≡ false

  select_from-some :
      (rnd p : W) (k i : ℕ) (sfs : List (Subflow W))
      → select_from rnd p k sfs ≡ some i
      → (m : ℕ) × (i ≡ k + m)
        × (m < length sfs)
        × (lt rnd (reached p sfs (suc m)) ≡ true)
        × NoneBefore rnd sfs p m
  unfolding select_from reached
  select_from-some rnd p k i [] e = cc
  select_from-some rnd p k i (sf ∷ rest) e = elim (Bool-cases (lt rnd (add p sf.percentage))) [
    | inl t ↦ (0, ground arith, omega arith, t, λ j h. absurd (omega arith))
    | inr f ↦
        let (m, at, inside, r, before) =
          select_from-some rnd (add p sf.percentage) (k + 1) i rest (ground arith) in
        (
          suc m,
          omega arith,
          omega arith,
          r,
          below-suc (λ j. lt rnd (reached (add p sf.percentage) rest j)) m f before,
        )
  ]

  select_from-none :
      (rnd p : W) (k : ℕ) (sfs : List (Subflow W))
      → select_from rnd p k sfs ≡ none
      → NoneBefore rnd sfs p (length sfs)
  unfolding select_from reached
  select_from-none rnd p k [] e = λ j h. absurd (omega arith)
  select_from-none rnd p k (sf ∷ rest) e =
      below-suc (λ j. lt rnd (reached (add p sf.percentage) rest j)) (length rest) (ground arith)
        (select_from-none rnd (add p sf.percentage) (k + 1) rest (ground arith))

  length-nonempty :
      (sfs : List (Subflow W)) → sfs ≢ [] → ((length sfs == 0) ≡ false) × (0 < length sfs)
  length-nonempty [] n = absurd (n refl)
  length-nonempty (sf ∷ rest) n = (ground arith, omega arith)

  -- With a subflow at hand, one is chosen: the first at which the sum of the shares exceeds the random
  -- number, or the front where no sum does.
  pub select_subflow_lem :
      (s : Sender W)
      → s.subflows ≢ []
      → (k : ℕ) × (select_subflow s ≡ ok (k, record s { world = (take_random s.world).1 }))
        × (k < length s.subflows)
        × (let rnd = div (of_nat (s.world.randoms s.world.randoms_taken % 101)) (literal 100 0) in
            ((lt rnd (reached (of_nat 0) s.subflows (suc k)) ≡ true)
              × NoneBefore rnd s.subflows (of_nat 0) k)
            ⊎ ((k ≡ 0) × NoneBefore rnd s.subflows (of_nat 0) (length s.subflows)))
  unfolding select_subflow take_random
  select_subflow_lem s n =
      let (some_subflow, front) = length-nonempty s.subflows n in
      let rnd : W = div (of_nat (s.world.randoms s.world.randoms_taken % 101)) (literal 100 0) in
      elim (Option-cases (select_from rnd (of_nat 0) 0 s.subflows)) [
        | inl e ↦
            rw (e, some_subflow)
              (0, refl, front, inr (refl, select_from-none rnd (of_nat 0) 0 s.subflows e))
        | inr (i, e) ↦
            let (m, at, inside, r, before) = select_from-some rnd (of_nat 0) 0 i s.subflows e in
            let same : i ≡ m = omega arith in
            rw (e, some_subflow) (i, refl, omega arith, inl (rw same (r, before)))
      ]
