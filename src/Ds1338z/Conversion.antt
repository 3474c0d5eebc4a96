-- ===== src/Ds1338z/Conversion.antt =====
-- `ds1338z_setUnixTime` and `ds1338z_getUnixTime` of application/libhw/ds1338z.c against each
-- other and against the calendar.
use or1k_spartan6_platform_x.Base.{
  ℕ, suc, ◌+◌, ◌-◌, ◌*◌, ◌^◌, ◌≤◌, ◌<◌, some, ◌≡◌, refl, ap, ◌∙◌, arith, inl, ◌⊎◌, u32,
}
use native.Mathlib.Nat.{le_trans}
use or1k_spartan6_platform_x.Bcd.Laws.{u8_bcd2dec-u8_dec2bcd}
use or1k_spartan6_platform_x.Ds1338z.{
  ClockData, days_of_years, days_of_months, month_seconds, split_seconds, split_month,
  clock_data_of, unix_time_of, seconds_of, day_seconds, unix_millennium, decode, encode, year_loop,
  month_loop, year_seconds,
}
use or1k_spartan6_platform_x.Ds1338z.Calendar.{
  before_year, before_month, days_below, days_of_months-eq, days_below-year, YearFound,
  year_loop-YearFound, MonthFound, month_loop-MonthFound,
}

-- The seconds since the start of the month.
abbrev pub month_part : ClockData → ℕ
month_part p = (p.day - 1) * day_seconds + p.hour * 3600 + p.minute * 60 + p.second

-- What clock data says of the seconds since 2000: every field is in the range of its register,
-- and the fields add up. The month has index `k`.
pub record IsClock (seconds : ℕ) (p : ClockData) : Type 0 where
  pub k : ℕ
  pub month_is : p.month ≡ suc k
  pub k_lt : k < 12
  pub year_lt : p.year < 99
  pub hour_lt : p.hour < 24
  pub minute_lt : p.minute < 60
  pub second_lt : p.second < 60
  pub day_pos : 0 < p.day
  pub day_le : p.day ≤ 32
  pub in_month : month_part p ≤ month_seconds p.year p.month
  pub started : (k ≡ 0) ⊎ (0 < month_part p)
  pub adds_up : month_part p + before_month p.year k + before_year p.year ≡ seconds

abbrev pub end_of_time : ℕ
end_of_time = 2 ^ 31

century : (seconds : ℕ) → seconds + unix_millennium < end_of_time → seconds < before_year 99
unfolding days_of_years
century seconds h = omega arith

pub month_seconds-le : (year k : ℕ) → k < 12 → month_seconds year (suc k) ≤ 31 * day_seconds
month_seconds-le year k h = ground arith

pub split_month_adds :
    (raw : ClockData) (year month s : ℕ)
    → s ≤ 31 * day_seconds
    → month_part (split_month raw year month s) ≡ s
unfolding split_month
split_month_adds raw year month s h = omega arith

split_month-IsClock :
    (raw : ClockData) (seconds year k s : ℕ)
    → year < 99
    → k < 12
    → s ≤ 31 * day_seconds
    → s ≤ month_seconds year (suc k)
    → (k ≡ 0) ⊎ (0 < s)
    → s + before_month year k + before_year year ≡ seconds
    → IsClock seconds (split_month raw year (suc k) s)
unfolding split_month
split_month-IsClock raw seconds year k s hy hk hs hm st e = record {
  k = k;
  month_is = refl;
  k_lt = hk;
  year_lt = hy;
  hour_lt = omega arith;
  minute_lt = omega arith;
  second_lt = omega arith;
  day_pos = omega arith;
  day_le = omega arith;
  in_month = omega (arith, split_month_adds raw year (suc k) s hs);
  started = ground (arith, split_month_adds raw year (suc k) s hs);
  adds_up = ground (arith, split_month_adds raw year (suc k) s hs);
}

-- The years and the months that the two loops find.
pub years :
    (seconds : ℕ)
    → seconds + unix_millennium < end_of_time
    → YearFound seconds 99 (year_loop 99 0 seconds)
unfolding days_of_years
years seconds h = year_loop-YearFound 99 0 seconds seconds 99 (omega arith) refl (century seconds h)

pub months : (year s : ℕ) → s < year_seconds year → MonthFound s 12 year (month_loop year 12 1 s)
months year s h =
    month_loop-MonthFound year 12 0 s s 12 (omega arith) refl (inl refl)
      (ground (arith, days_below-year year)) (omega arith)

module _ (raw : ClockData) (seconds : ℕ) (y : YearFound seconds 99 (year_loop 99 0 seconds))
    (m : MonthFound
      (year_loop 99 0 seconds).1
      12
      y.year
      (month_loop y.year 12 1 (year_loop 99 0 seconds).1)) where
  found-IsClock : IsClock seconds (split_seconds raw seconds)
  unfolding split_seconds
  found-IsClock =
      rw (y.returns, m.returns)
        (split_month-IsClock raw seconds y.year m.k
          (month_loop y.year 12 1 (year_loop 99 0 seconds).1).1 y.below m.below
          (le_trans m.in_month (month_seconds-le y.year m.k m.below)) m.in_month m.started
          (omega (arith, m.adds_up, y.adds_up)))

-- Seconds since 2000 that end before the end of signed 32-bit time are split into fields in the
-- ranges of their registers that add up to these seconds.
pub split_seconds-IsClock :
    (raw : ClockData) (seconds : ℕ)
    → seconds + unix_millennium < end_of_time
    → IsClock seconds (split_seconds raw seconds)
split_seconds-IsClock raw seconds h =
    found-IsClock raw seconds (years seconds h)
      (months (years seconds h).year (year_loop 99 0 seconds).1 (years seconds h).in_year)

seconds_of-eq :
    (days seconds : ℕ) (p : ClockData)
    → 0 < p.day
    → month_part p + day_seconds * days ≡ seconds
    → seconds + unix_millennium < end_of_time
    → seconds_of days p ≡ seconds + unix_millennium
unfolding seconds_of
seconds_of-eq days seconds p pos e h = omega arith

-- Clock data whose fields add up stand for that time.
unix_time_of-IsClock :
    (seconds : ℕ) (p : ClockData)
    → IsClock seconds p
    → seconds + unix_millennium < end_of_time
    → unix_time_of p ≡ some (seconds + unix_millennium)
unfolding unix_time_of
unix_time_of-IsClock seconds p c h =
    let e : p.month - 1 ≡ c.k = omega arith in
    let q : days_of_months p.year (p.month - 1) ≡ some (days_below p.year c.k) =
      rw e (days_of_months-eq p.year c.k (omega arith)) in
    rw (q, unix_time_of)
      (ap some (
        seconds_of-eq (days_of_years p.year + days_below p.year c.k) seconds p c.day_pos
          (omega (arith, c.adds_up)) h))

-- The fields survive the registers: what is read back is what was encoded.
pub decode-encode :
    (seconds : ℕ) (p : ClockData) → IsClock seconds p → p.dow < 100 → decode (encode p) ≡ p
unfolding decode encode
decode-encode seconds p c hd = ground (
  arith,
  u8_bcd2dec-u8_dec2bcd p.second,
  u8_bcd2dec-u8_dec2bcd p.minute,
  u8_bcd2dec-u8_dec2bcd p.hour,
  u8_bcd2dec-u8_dec2bcd p.dow,
  u8_bcd2dec-u8_dec2bcd p.day,
  u8_bcd2dec-u8_dec2bcd p.month,
  u8_bcd2dec-u8_dec2bcd p.year,
)

clock_data_of-eq :
    (raw : ClockData) (tm : ℕ)
    → unix_millennium ≤ tm
    → tm < end_of_time
    → clock_data_of raw tm ≡ split_seconds raw (tm - unix_millennium)
unfolding clock_data_of
clock_data_of-eq raw tm lo hi =
    let e : u32 (tm + 2 ^ 32 - unix_millennium) ≡ tm - unix_millennium = omega arith in
    rw e (ground arith)

dow-split_seconds : (raw : ClockData) (s : ℕ) → (split_seconds raw s).dow ≡ raw.dow
unfolding split_seconds split_month
dow-split_seconds raw s = refl

-- Setting the clock to a time from 2000 to the end of the 32-bit range and reading the registers
-- back gives that time, whatever the stack held, if the day of the week that it left in the
-- uninitialised field has two decimal digits.
pub unix_time_of-clock_data_of :
    (raw : ClockData) (tm : ℕ)
    → unix_millennium ≤ tm
    → tm < end_of_time
    → raw.dow < 100
    → unix_time_of (decode (encode (clock_data_of raw tm))) ≡ some tm
unix_time_of-clock_data_of raw tm lo hi hd =
    let s : ℕ = tm - unix_millennium in
    let c = split_seconds-IsClock raw s (omega arith) in
    rw (clock_data_of-eq raw tm lo hi, decode-encode s _ c (rw dow-split_seconds hd))
      (unix_time_of-IsClock s _ c (omega arith) ∙ ap some (omega arith))
