-- ===== src/Stat/Jitter.antt =====
-- The timestamp difference in the jitter of src/mprtp_stat.cpp.
use mprtplib.Prelude.{ℕ, ◌+◌, ◌%◌, ◌^◌, ◌<◌, ◌≡◌, arith}
use mprtplib.Prelude.Int.{pos, negsuc}
use mprtplib.Stat.{timestamp_diff}

-- Timestamps wrap at 2 ^ 32. Two that are less than 2 ^ 28 apart differ by the true signed amount, on
-- either side of a wrap and in either order.
pub timestamp_diff-wrap :
    (prev n m : ℕ)
    → prev < 2 ^ 32
    → n < 2 ^ 28
    → m + 1 < 2 ^ 28
    → (timestamp_diff ((prev + n) % 2 ^ 32) prev ≡ pos n)
      × (timestamp_diff prev ((prev + (m + 1)) % 2 ^ 32) ≡ negsuc m)
unfolding timestamp_diff
timestamp_diff-wrap prev n m hp hn hm = ground arith
