-- ===== src/Time/Clock.antt =====
-- The `datetime` and `timedelta` of Python's library, as far as time_utils.py and runner.py use
-- them. All times are aware and in UTC, and are counted in microseconds from the first instant of
-- the year 1. A time span is a number of microseconds, which may be negative.
use delayed_order_sms_flink.Base.{
  ℕ, ◌+◌, ◌-◌, ◌*◌, leb, ltb, ℤ, pos, negsuc, neg, suc, if◌then◌else◌, Result, ok, err,
  overflow_error,
}

abbrev pub second : ℕ
second = 1000000

abbrev pub day : ℕ
day = 86400000000

-- Behind the last microsecond of the year 9999.
abbrev pub max_time : ℕ
max_time = 3652059 * day

-- `timedelta(…)` at arguments that are not negative: at most 999999999 days, and less than one.
unfoldable pub timedelta : ℕ → Result ℤ
timedelta us = if ltb us (1000000000 * day) then ok (pos us) else err overflow_error

-- `-delta`: at least -999999999 days.
unfoldable pub negate : ℤ → Result ℤ
negate (pos us) = if leb us (999999999 * day) then ok (neg (pos us)) else err overflow_error
negate (negsuc n) = timedelta (suc n)

-- `time + delta`, and `time - delta`
unfoldable pub add_time : ℕ → ℤ → Result ℕ
add_time t (pos us) = if ltb (t + us) max_time then ok (t + us) else err overflow_error
add_time t (negsuc n) = if ltb n t then ok (t - suc n) else err overflow_error

unfoldable pub sub_time : ℕ → ℤ → Result ℕ
unfolding add_time
sub_time t d = add_time t (neg d)
