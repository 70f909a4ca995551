-- ===== src/Time.antt =====
-- include/mprtp_time.h: times. An `rtp_time` holds one double, the seconds, so a time is a `W`;
-- and `get_double` returns it.
use mprtplib.Prelude.{
  ℕ, ◌+◌, ◌-◌, ◌%◌, ◌^◌, Bool, Option, none, some, ltb, leb, if◌then◌else◌, List, [], ◌∷◌,
}
use mprtplib.Prelude.Int.{ℤ, pos, negsuc}
use mprtplib.Double.{Double}

abbrev pub ntp_time_offset : ℕ
ntp_time_offset = 2_208_988_800

-- `class rtp_ntp_time`
pub record NtpTime : Type 0 where
  pub msw : ℕ
  pub lsw : ℕ

-- `struct timespec`
pub record Timespec : Type 0 where
  pub tv_sec : ℕ
  pub tv_nsec : ℕ

-- What a call of `nanosleep` answers: `interrupted` is -1 with `EINTR`, and the time that is left.
pub data Nanosleep : Type 0 where
  returned : Nanosleep
  interrupted : Timespec → Nanosleep

-- The loop of `wait`: the times that it asks `nanosleep` to sleep. Where the answers end, the last
-- call has not returned.
unfoldable pub sleep_loop : (req : Timespec) → List Nanosleep → List Timespec
sleep_loop req [] = req ∷ []
sleep_loop req (returned ∷ later) = req ∷ []
sleep_loop req (interrupted rem ∷ later) = req ∷ sleep_loop rem later

module _ {W : Type 0} ⦃d : Double W⦄ where
  open d use {of_nat, literal, add, sub, mul, div, neg, lt, le, eq, to_uint32, to_uint64, to_int64}

  -- `(double)` of an `int64_t`
  abbrev pub of_int : ℤ → W
  of_int (pos n) = of_nat n
  of_int (negsuc n) = neg (of_nat (n + 1))

  -- `rtp_time(int64_t seconds, uint32_t microseconds)`
  unfoldable pub rtp_time : ℤ → ℕ → W
  rtp_time (pos seconds) microseconds =
      add (of_nat seconds) (mul (literal 1 6) (of_nat microseconds))
  rtp_time (negsuc n) microseconds =
      neg (add (of_nat (n + 1)) (mul (literal 1 6) (of_nat microseconds)))

  -- `rtp_time(0, 0)`
  abbrev pub time_zero : W
  time_zero = rtp_time (pos 0) 0

  unfoldable pub is_zero : W → Bool
  is_zero t = eq t (of_nat 0)

  -- 65536.0 * 65536.0
  abbrev two_32 : W
  two_32 = mul (literal 65536 0) (literal 65536 0)

  -- `rtp_time(rtp_ntp_time ntptime)`
  unfoldable pub of_ntp_time : NtpTime → W
  of_ntp_time ntptime =
      let x = mul (div (of_nat ntptime.lsw) two_32) (literal 1000000 0) in
      if ltb ntptime.msw ntp_time_offset
      then of_nat 0
      else add (of_nat (ntptime.msw - ntp_time_offset)) (mul (literal 1 6) (of_nat (to_uint32 x)))

  unfoldable pub get_seconds : W → ℤ
  get_seconds t = to_int64 t

  -- The fraction of `s >= 0`, rounded to microseconds.
  abbrev rounded_microseconds : W → ℕ
  rounded_microseconds s =
      to_uint32 (add (mul (literal 1000000 0) (sub s (of_int (to_int64 s)))) (literal 5 1))

  unfoldable pub get_microseconds : W → ℕ
  get_microseconds t =
      let microsec = rounded_microseconds (if le (of_nat 0) t then t else neg t) in
      if leb 1_000_000 microsec then 999_999 else microsec

  unfoldable pub get_ntp_time : W → NtpTime
  get_ntp_time t =
      let sec = to_uint32 t in
      let microsec = to_uint32 (mul (sub t (of_nat sec)) (literal 1000000 0)) in
      record {
        msw = (sec + ntp_time_offset) % 2 ^ 32;
        lsw = to_uint32 (mul (div (of_nat microsec) (literal 1000000 0)) two_32);
      }

  unfoldable pub timespec_to_double : Timespec → W
  timespec_to_double ts = add (of_nat ts.tv_sec) (mul (literal 1 9) (of_nat ts.tv_nsec))

  -- `rtp_time::now`: the static offset, once it is set, and the answers of the two clocks. The
  -- result is the time and the offset that is kept.
  unfoldable pub now : Option W → (realtime monotonic : Timespec) → W × Option W
  now none realtime monotonic =
      let sys = timespec_to_double realtime in (sys, some (sub sys (timespec_to_double monotonic)))
  now (some offset) realtime monotonic = (add (timespec_to_double monotonic) offset, some offset)

  -- `rtp_time::wait`; `time_t` holds the seconds of a delay below 2 ^ 63.
  unfoldable pub wait : (delay : W) → List Nanosleep → List Timespec
  wait delay answers =
      let sec = to_uint64 delay in
      let nanosec = to_uint32 (mul (literal 1000000000 0) (sub delay (of_nat sec))) in
      if le delay (of_nat 0)
      then []
      else sleep_loop (record { tv_sec = sec; tv_nsec = nanosec }) answers

  -- `operator-=` and `operator+=`
  unfoldable pub sub_assign : W → W → W
  sub_assign t u = sub t u

  unfoldable pub add_assign : W → W → W
  add_assign t u = add t u

  -- `operator<`, `operator>`, `operator<=` and `operator>=`
  unfoldable pub is_less : W → W → Bool
  is_less t u = lt t u

  unfoldable pub is_greater : W → W → Bool
  is_greater t u = lt u t

  unfoldable pub is_less_equal : W → W → Bool
  is_less_equal t u = le t u

  unfoldable pub is_greater_equal : W → W → Bool
  is_greater_equal t u = le u t
