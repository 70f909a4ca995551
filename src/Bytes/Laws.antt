-- ===== src/Bytes/Laws.antt =====
-- Reads of what was written, and reads inside and outside the buffer.
use mprtplib.Prelude.{
  ℕ, ◌+◌, ◌*◌, ◌/◌, ◌%◌, ◌^◌, ◌<◌, ◌≤◌, ◌≡◌, arith, length, get_elem?-in, get_elem?-out,
}
use mprtplib.Prelude.Result.{ok, fault}
use mprtplib.Bytes.{Memory, u8_at, u16_at, u32_at}

pub u16_of_htons : (x : ℕ) → x < 65536 → x / 256 % 256 * 256 + x % 256 ≡ x
u16_of_htons x h = omega arith

pub u32_of_htonl :
    (x : ℕ)
    → x < 2 ^ 32
    → (x / 2 ^ 24 % 256 * 256 + x / 2 ^ 16 % 256) * 65536 + (x / 256 % 256 * 256 + x % 256) ≡ x
u32_of_htonl x h = omega arith

pub u8_at-in : (p : Memory) (i : ℕ) → i < length p → (b : ℕ) × (u8_at p i ≡ ok b)
unfolding u8_at
u8_at-in p i h = let (b, e) = get_elem?-in p i h in (b, rw e)

pub u8_at-out : (p : Memory) (i : ℕ) → length p ≤ i → u8_at p i ≡ fault
unfolding u8_at
u8_at-out p i h = rw (get_elem?-out p i h)

pub u16_at-in : (p : Memory) (i : ℕ) → i + 1 < length p → (x : ℕ) × (u16_at p i ≡ ok x)
unfolding u16_at
u16_at-in p i h =
    let (a, e) = u8_at-in p i (omega arith) in
    let (b, f) = u8_at-in p (i + 1) h in (a * 256 + b, rw (e, f))

pub u32_at-in : (p : Memory) (i : ℕ) → i + 3 < length p → (x : ℕ) × (u32_at p i ≡ ok x)
unfolding u32_at
u32_at-in p i h =
    let (a, e) = u16_at-in p i (omega arith) in
    let (b, f) = u16_at-in p (i + 2) (omega arith) in (a * 65536 + b, rw (e, f))

pub u16_at-out : (p : Memory) (i : ℕ) → length p ≤ i + 1 → u16_at p i ≡ fault
unfolding u16_at
u16_at-out p i h = ground (arith, u8_at-in p i, u8_at-out p i, u8_at-out p (i + 1))
