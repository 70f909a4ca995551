-- ===== src/Address/Bits.antt =====
-- `&` with a mask of high bits, as include/mprtp_address.h has it.
use Prim.Native.Nat.{digits, bit_and-bitwise}
use native.Mathlib.Nat.{pow-suc, one-le-pow, div-add-mod', mod-lt, div-lt_iff_lt-mul}
use mprtplib.Prelude.{
  ℕ, zero, suc, ◌+◌, ◌-◌, ◌*◌, ◌/◌, ◌%◌, ◌^◌, ◌≤◌, ◌<◌, min, ◌≡◌, refl, ap, sym, ◌∙◌, arith,
  bit_and,
}

-- The digits of `a & b`, for `n` digits at most.
abbrev common : (n a b : ℕ) → ℕ
common n a b = digits (λ b. zero) min n a b

scaled_suc : (q j : ℕ) → q * 2 ^ suc j ≡ q * 2 ^ j * 2
scaled_suc q j = omega (arith, ap (λ (x : ℕ). q * x) (pow-suc 2 j))

common-ones : (n p a : ℕ) → a ≤ n → a < 2 ^ p → common n a (2 ^ p - 1) ≡ a
common-ones zero p zero le lt = refl
common-ones zero p (suc a) le lt = absurd (omega arith)
common-ones (suc n) p zero le lt = refl
common-ones (suc n) zero (suc a) le lt = absurd (omega arith)
common-ones (suc n) (suc p) (suc a) le lt =
    let half : (2 ^ suc p - 1) / 2 ≡ 2 ^ p - 1 = omega (arith, pow-suc 2 p) in
    let odd : (2 ^ suc p - 1) % 2 ≡ 1 = omega (arith, pow-suc 2 p, lt) in
    rw (half, odd, common-ones n p (suc a / 2) (omega arith) (omega (arith, pow-suc 2 p)))
      (omega arith)

common-high :
    (n j p q r a : ℕ)
    → a ≡ q * 2 ^ j + r
    → a ≤ n
    → r < 2 ^ j
    → q < 2 ^ p
    → common n a ((2 ^ p - 1) * 2 ^ j) ≡ q * 2 ^ j
common-high n zero p q r a e le rest below =
    let whole : a ≡ q = omega (arith, e, rest) in
    let one : (2 ^ p - 1) * 2 ^ 0 ≡ 2 ^ p - 1 = omega arith in
    rw (one, common-ones n p a le (omega (arith, whole))) (omega (arith, whole))
common-high zero (suc j) p q r zero e le rest below = omega (arith, e)
common-high zero (suc j) p q r (suc a) e le rest below = absurd (omega (arith, le))
common-high (suc n) (suc j) p q r zero e le rest below = omega (arith, e)
common-high (suc n) (suc j) p q r (suc a) e le rest below =
    let mask : (2 ^ p - 1) * 2 ^ suc j ≡ (2 ^ p - 1) * 2 ^ j * 2 = scaled_suc (2 ^ p - 1) j in
    let half : (2 ^ p - 1) * 2 ^ suc j / 2 ≡ (2 ^ p - 1) * 2 ^ j = omega (arith, mask) in
    let even : (2 ^ p - 1) * 2 ^ suc j % 2 ≡ 0 = omega (arith, mask) in
    let later =
      common-high n j p q (r / 2) (suc a / 2) (omega (arith, e, scaled_suc q j)) (omega (arith, le))
        (omega (arith, rest, pow-suc 2 j)) below in
    rw (half, even, later) (omega (arith, scaled_suc q j))

-- The bits of `a` from the one at `j` on, of `p + j` bits.
pub bit_and-high :
    (a p j : ℕ) → a < 2 ^ p * 2 ^ j → bit_and a ((2 ^ p - 1) * 2 ^ j) ≡ a / 2 ^ j * 2 ^ j
bit_and-high a p j lt =
    let some : 0 < 2 ^ j = one-le-pow j 2 (omega arith) in
    bit_and-bitwise a ((2 ^ p - 1) * 2 ^ j)
    ∙ common-high a j p (a / 2 ^ j) (a % 2 ^ j) a (sym (div-add-mod' a (2 ^ j))) (omega arith)
        (mod-lt a some) ((div-lt_iff_lt-mul some).1 lt)

pub pow-add : (p j : ℕ) → 2 ^ (p + j) ≡ 2 ^ p * 2 ^ j
pow-add p zero = let none : p + 0 ≡ p = omega arith in rw none (omega arith)
pow-add p (suc j) =
    let shifted : p + suc j ≡ suc (p + j) = omega arith in
    rw shifted (omega (arith, pow-suc 2 (p + j), pow-add p j, scaled_suc (2 ^ p) j))
