-- ===== src/Stat/Sequence.antt =====
-- The extended sequence numbers of src/mprtp_stat.cpp. The sender numbers its packets without end;
-- a packet carries 16 bits of the number, and the statistics rebuild 32.
use mprtplib.Prelude.{ℕ, ◌+◌, ◌*◌, ◌/◌, ◌%◌, ◌^◌, ◌≤◌, ◌<◌, ◌≡◌, arith}
use mprtplib.Stat.{extend}

-- The state that stands at number `x`: its last 32 bits, and its cycles.
pub record At (x cycles highest : ℕ) : Type 0 where
  pub at_highest : highest ≡ x % 2 ^ 32
  pub at_cycles : cycles ≡ x / 65536 * 65536 % 2 ^ 32

-- A packet that is ahead by less than 2 ^ 15 moves the state to its own number, over a wrap too.
pub extend-ahead :
    (x y cycles highest : ℕ)
    → At x cycles highest
    → x ≤ y
    → y < x + 32768
    → let e = extend cycles highest (y % 65536) in
      At y e.cycles e.highest × (e.extseqnr ≡ y % 2 ^ 32)
unfolding extend
extend-ahead x y cycles highest a lo hi = ground arith

-- A packet that comes late within its cycle gets its own number, and moves nothing.
pub extend-late :
    (x y cycles highest : ℕ)
    → At x cycles highest
    → y < x
    → x ≤ y + 32768
    → x / 65536 ≡ y / 65536
    → extend cycles highest (y % 65536)
      ≡ record { cycles = cycles; highest = highest; extseqnr = y % 2 ^ 32 }
unfolding extend
extend-late x y cycles highest a lo hi same = ground arith

-- A packet that comes late from the cycle before, by at most 2 ^ 15, is taken for one of the cycle that
-- runs: the state moves to 2 ^ 16 past the number of the packet.
pub extend-late_jump :
    (x y cycles highest : ℕ)
    → At x cycles highest
    → y < x
    → x ≤ y + 32768
    → y / 65536 + 1 ≡ x / 65536
    → let e = extend cycles highest (y % 65536) in
      At (y + 65536) e.cycles e.highest × (e.extseqnr ≡ (y + 65536) % 2 ^ 32)
unfolding extend
extend-late_jump x y cycles highest a lo hi before = ground arith
