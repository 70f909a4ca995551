-- ===== src/Address/Subnet.antt =====
-- `in_same_subnet` (include/mprtp_address.h) as a comparison of prefixes.
use native.Mathlib.Nat.{one-le-pow, mul-div_cancel}
use mprtplib.Prelude.{
  ℕ, suc, ◌+◌, ◌-◌, ◌*◌, ◌/◌, ◌^◌, ◌≤◌, ◌<◌, ◌≡◌, refl, ap, sym, ◌∙◌, arith, Bool, true, false, inl,
  inr, ◌==◌, ==_iff, bit_and, Bool-cases,
}
use mprtplib.Address.{Endpoint, subnet_mask, in_same_subnet}
use mprtplib.Address.Bits.{bit_and-high, pow-add}

width : (prefix : ℕ) → prefix ≤ 32 → 2 ^ prefix * 2 ^ (32 - prefix) ≡ 2 ^ 32
width prefix le =
    let whole : prefix + (32 - prefix) ≡ 32 = omega arith in
    sym (pow-add prefix (32 - prefix)) ∙ ap (λ n. 2 ^ n) whole

-- The mask has `prefix` ones and then zeros.
subnet_mask-ones :
    (prefix : ℕ) → prefix ≤ 32 → subnet_mask prefix ≡ (2 ^ prefix - 1) * 2 ^ (32 - prefix)
unfolding subnet_mask
subnet_mask-ones prefix le =
    let x : ℕ = 2 ^ (32 - prefix) in
    let m : ℕ = 2 ^ prefix - 1 in
    let some : 1 ≤ 2 ^ prefix = one-le-pow prefix 2 (omega arith) in
    let some_x : 1 ≤ x = one-le-pow (32 - prefix) 2 (omega arith) in
    let all : suc m * x ≡ 2 ^ 32 = ap (λ n. n * x) (omega (arith, some)) ∙ width prefix le in
    let split : suc m * x ≡ m * x + x = omega arith in omega (arith, all, split, some_x)

masked :
    (ip prefix : ℕ)
    → ip < 2 ^ 32
    → prefix ≤ 32
    → bit_and ip (subnet_mask prefix) ≡ ip / 2 ^ (32 - prefix) * 2 ^ (32 - prefix)
masked ip prefix fits le =
    rw (subnet_mask-ones prefix le)
      (bit_and-high ip prefix (32 - prefix) (omega (arith, fits, width prefix le)))

same_multiple : (q q' x : ℕ) → 1 ≤ x → (q * x == q' * x) ≡ (q == q')
same_multiple q q' x some = elim (Bool-cases (q == q')) [
  | inl same ↦
      let e : q ≡ q' = (==_iff q q').0 same in
      rw (same, (==_iff (q * x) (q' * x)).1 (ap (λ n. n * x) e)) refl
  | inr other ↦ elim (Bool-cases (q * x == q' * x)) [
    | inl same ↦
        let e : q * x ≡ q' * x = (==_iff (q * x) (q' * x)).0 same in
        let e' : q ≡ q' =
          sym (mul-div_cancel q some) ∙ ap (λ n. n / x) e ∙ mul-div_cancel q' some in
        absurd (never ((==_iff q q').1 e') other)
    | inr different ↦ rw (other, different) refl
  ]
]
  where
    never : {b : Bool} → b ≡ true → b ≡ false → ⊥
    never e f = cc

-- Two addresses of 32 bits are in the same subnet, for a prefix of 1 to 32 bits, exactly if the
-- numbers that their first bits make, as many as the prefix has, are the same.
pub in_same_subnet-prefix :
    (a b : Endpoint) (prefix : ℕ)
    → a.0 < 2 ^ 32
    → b.0 < 2 ^ 32
    → 1 ≤ prefix
    → prefix ≤ 32
    → in_same_subnet a b prefix ≡ (a.0 / 2 ^ (32 - prefix) == b.0 / 2 ^ (32 - prefix))
unfolding in_same_subnet
in_same_subnet-prefix a b prefix fits fits' pos le =
    rw (masked a.0 prefix fits le, masked b.0 prefix fits' le)
      (same_multiple (a.0 / 2 ^ (32 - prefix)) (b.0 / 2 ^ (32 - prefix)) (2 ^ (32 - prefix))
        (one-le-pow (32 - prefix) 2 (omega arith)))
