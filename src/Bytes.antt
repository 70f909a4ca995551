-- ===== src/Bytes.antt =====
-- Packet memory. A `const uint8_t*` into a packet is the list of the bytes from there to the
-- end of the buffer, so `p += n` is `drop n p`, and a read behind the end is a `fault`.
pub mod Laws
pub mod Ranges
use mprtplib.Prelude.{ℕ, ◌+◌, ◌*◌, ◌/◌, ◌%◌, ◌^◌, List, [], ◌∷◌, get_elem?, ◌<◌, All}
use mprtplib.Prelude.Result.{Result, ok, fault, stuck, ◌>>=◌, or_fault}

abbrev pub Memory : Type 0
Memory = List ℕ

abbrev pub IsByte : ℕ → Type 0
IsByte b = b < 256

abbrev pub AreBytes : Memory → Type 0
AreBytes = All IsByte

-- `p[i]`
unfoldable pub u8_at : Memory → ℕ → Result ℕ
u8_at p i = or_fault (get_elem? p i)

-- `ntohs` of the two bytes at `p + i`
unfoldable pub u16_at : Memory → ℕ → Result ℕ
u16_at p i = do hi ← u8_at p i; lo ← u8_at p (i + 1); ok (hi * 256 + lo)

-- `ntohl` of the four bytes at `p + i`
unfoldable pub u32_at : Memory → ℕ → Result ℕ
u32_at p i = do hi ← u16_at p i; lo ← u16_at p (i + 2); ok (hi * 65536 + lo)

-- `htons` and `htonl`, as the bytes that they leave in memory
abbrev pub htons : ℕ → Memory
htons x = (x / 256 % 256) ∷ (x % 256) ∷ []

abbrev pub htonl : ℕ → Memory
htonl x = (x / 2 ^ 24 % 256) ∷ (x / 2 ^ 16 % 256) ∷ (x / 256 % 256) ∷ (x % 256) ∷ []
