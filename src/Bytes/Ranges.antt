-- ===== src/Bytes/Ranges.antt =====
-- Reads of memory that holds bytes.
use mprtplib.Prelude.{ℕ, zero, suc, ◌+◌, ◌*◌, ◌^◌, ◌<◌, arith, [], ◌∷◌, drop}
use mprtplib.Prelude.Result.{ok, Holds, Holds->>=}
use mprtplib.Bytes.{Memory, IsByte, AreBytes, u8_at, u16_at, u32_at}

pub AreBytes-drop : (n : ℕ) (p : Memory) → AreBytes p → AreBytes (drop n p)
AreBytes-drop zero p h = h
AreBytes-drop (suc n) [] h = tt
AreBytes-drop (suc n) (b ∷ rest) h = AreBytes-drop n rest h.1

pub u8_at-Holds : (p : Memory) (i : ℕ) → AreBytes p → Holds IsByte (u8_at p i)
unfolding u8_at
u8_at-Holds [] i h = tt
u8_at-Holds (b ∷ rest) zero h = h.0
u8_at-Holds (b ∷ rest) (suc i) h = u8_at-Holds rest i h.1

pub u16_at-Holds : (p : Memory) (i : ℕ) → AreBytes p → Holds (λ x. x < 2 ^ 16) (u16_at p i)
unfolding u16_at
u16_at-Holds p i h =
    Holds->>= IsByte (λ x. x < 2 ^ 16) (u8_at p i) _ (u8_at-Holds p i h)
      λ hi a.
        Holds->>= IsByte (λ x. x < 2 ^ 16) (u8_at p (i + 1)) (λ lo. ok (hi * 256 + lo))
          (u8_at-Holds p (i + 1) h) λ lo b. omega arith

pub u32_at-Holds : (p : Memory) (i : ℕ) → AreBytes p → Holds (λ x. x < 2 ^ 32) (u32_at p i)
unfolding u32_at
u32_at-Holds p i h =
    Holds->>= (λ x. x < 2 ^ 16) (λ x. x < 2 ^ 32) (u16_at p i) _ (u16_at-Holds p i h)
      λ hi a.
        Holds->>= (λ x. x < 2 ^ 16) (λ x. x < 2 ^ 32) (u16_at p (i + 2))
          (λ lo. ok (hi * 65536 + lo)) (u16_at-Holds p (i + 2) h) λ lo b. omega arith
