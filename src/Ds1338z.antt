-- ===== src/Ds1338z.antt =====
-- application/libhw/ds1338z.c, built with the I2C bus: the real-time clock's registers and the
-- conversion between them and Unix time. `time_t` and `timer_t` are 32 bits wide.
pub mod Calendar
pub mod Conversion
pub mod MonthStart
pub mod Bus
use or1k_spartan6_platform_x.Base.{
  ℕ, zero, suc, ◌+◌, ◌^◌, ◌-◌, ◌*◌, ◌/◌, ◌%◌, u8, u32, List, [], ◌∷◌, Option, none, some, map,
  get_elem?, get_or, Bool, ◌&&◌, ltb, leb, ◌==◌, if◌then◌else◌,
}
use or1k_spartan6_platform_x.Bcd.{u8_dec2bcd, u8_bcd2dec}
use or1k_spartan6_platform_x.I2c.{Rsp, rsp_done, Commands, i2c_read_bus_mul, i2c_write_bus_mul}

-- `enum enDS1338z_err`.
pub data Err : Type 0 where
  ok error : Err

abbrev pub err_of : Rsp → Err
err_of rsp_done = ok
err_of r = error

-- `struct sDS1338z_clock_data`, in the order of its bytes.
pub record ClockData : Type 0 where
  pub second : ℕ
  pub minute : ℕ
  pub hour : ℕ
  pub dow : ℕ
  pub day : ℕ
  pub month : ℕ
  pub year : ℕ

abbrev pub to_bytes : ClockData → List ℕ
to_bytes p = p.second ∷ p.minute ∷ p.hour ∷ p.dow ∷ p.day ∷ p.month ∷ p.year ∷ []

abbrev pub of_bytes : List ℕ → ClockData
of_bytes b = record {
  second = get_or b 0 0;
  minute = get_or b 1 0;
  hour = get_or b 2 0;
  dow = get_or b 3 0;
  day = get_or b 4 0;
  month = get_or b 5 0;
  year = get_or b 6 0;
}

abbrev pub i2c_addr : ℕ
i2c_addr = 0b1101000

abbrev pub nvram_start : ℕ
nvram_start = 8

abbrev pub day_seconds : ℕ
day_seconds = 24 * 60 * 60

abbrev pub unix_millennium : ℕ
unix_millennium = 946684800

abbrev pub days_in_month : List ℕ
days_in_month = 31 ∷ 28 ∷ 31 ∷ 30 ∷ 31 ∷ 30 ∷ 31 ∷ 31 ∷ 30 ∷ 31 ∷ 30 ∷ 31 ∷ []

abbrev pub is_leap : ℕ → Bool
is_leap year = year % 4 == 0

abbrev pub year_days : ℕ → ℕ
year_days year = if is_leap year then 366 else 365

-- The first loop of `ds1338z_getUnixTime`: the days of the years below `year`.
unfoldable pub days_of_years : ℕ → ℕ
days_of_years zero = 0
days_of_years (suc year) = days_of_years year + year_days year

-- What the second loop adds at index `month`, `none` for a read behind the table.
unfoldable pub month_days : ℕ → ℕ → Option ℕ
month_days year month = elim (get_elem? days_in_month month) [
  | none ↦ none
  | some d ↦ some (d + (if is_leap year && (month == 1) then 1 else 0))
]

-- The second loop: the days of the months below index `month`.
unfoldable pub days_of_months : ℕ → ℕ → Option ℕ
unfolding month_days
days_of_months year zero = some 0
days_of_months year (suc month) = elim (days_of_months year month) [
  | none ↦ none
  | some n ↦ elim (month_days year month) [ none ↦ none | some d ↦ some (n + d) ]
]

-- `(days + (time_t)(day - 1)) * 24 * 60 * 60` is unsigned, and the sums behind it are the bit
-- patterns of `time_t`.
unfoldable pub seconds_of : ℕ → ClockData → ℕ
seconds_of days p =
    let since_2k = u32 (u32 (days + u32 (p.day + 4294967295)) * day_seconds) in
    u32 (since_2k + p.second + p.minute * 60 + p.hour * 60 * 60 + unix_millennium)

-- The time of decimal clock data, `none` where a month of 0 or above 13 reads behind the table of
-- months; `month - 1` of type `int` is no round of the loop at 0.
unfoldable pub unix_time_of : ClockData → Option ℕ
unix_time_of p = elim (days_of_months p.year (p.month - 1)) [
  | none ↦ none
  | some days ↦ some (seconds_of (days_of_years p.year + days) p)
]

abbrev pub year_seconds : ℕ → ℕ
year_seconds year = if is_leap year then 366 * day_seconds else 365 * day_seconds

-- The year loop of `ds1338z_setUnixTime` with `left` rounds to go: the year, `none` where the loop
-- ends without a break and leaves the field as it was, and the seconds left.
unfoldable pub year_loop : ℕ → ℕ → ℕ → Option ℕ × ℕ
year_loop zero year seconds = (none, seconds)
year_loop (suc left) year seconds =
    let rest = year_loop left (year + 1) (seconds - year_seconds year) in
    if leb (year_seconds year) seconds then rest else (some year, seconds)

abbrev pub month_seconds : ℕ → ℕ → ℕ
month_seconds year month =
    get_or days_in_month (month - 1) 0 * day_seconds
    + (if (month == 2) && is_leap year then day_seconds else 0)

-- The month loop, which tests `<` where the year loop tests `<=`.
unfoldable pub month_loop : ℕ → ℕ → ℕ → ℕ → Option ℕ × ℕ
month_loop year zero month seconds = (none, seconds)
month_loop year (suc left) month seconds =
    let rest = month_loop year left (month + 1) (seconds - month_seconds year month) in
    if ltb (month_seconds year month) seconds then rest else (some month, seconds)

abbrev pub or_old : Option ℕ → ℕ → ℕ
or_old none old = old
or_old (some v) old = v

-- The assignments behind the two loops. The day of the week is never assigned.
unfoldable pub split_month : ClockData → ℕ → ℕ → ℕ → ClockData
split_month raw year month in_month =
    let day = u8 (in_month / day_seconds) in
    let in_day = in_month - day * day_seconds in
    let hour = u8 (in_day / (60 * 60)) in
    let in_hour = in_day - hour * (60 * 60) in
    let minute = u8 (in_hour / 60) in
    record {
      second = u8 (in_hour - minute * 60);
      minute = minute;
      hour = hour;
      dow = raw.dow;
      day = u8 (day + 1);
      month = month;
      year = year;
    }

-- `seconds` counts from the year 2000, and `raw` is what the stack holds.
unfoldable pub split_seconds : ClockData → ℕ → ClockData
split_seconds raw seconds =
    let (y, in_year) = year_loop 99 0 seconds in
    let year = or_old y raw.year in
    let (m, in_month) = month_loop year 12 1 in_year in
    split_month raw year (or_old m raw.month) in_month

-- `-n` as a `uint8_t`.
abbrev pub neg8 : ℕ → ℕ
neg8 n = u8 (256 - n % 256)

-- A time before 2000: `seconds` is `-n`, both loops stop at once, and `/` rounds towards zero.
unfoldable pub split_negative : ClockData → ℕ → ClockData
split_negative raw n =
    let day = neg8 (n / day_seconds) in
    let n1 = n + day * day_seconds in
    let hour = neg8 (n1 / (60 * 60)) in
    let n2 = n1 + hour * (60 * 60) in
    let minute = neg8 (n2 / 60) in
    record {
      second = neg8 (n2 + minute * 60);
      minute = minute;
      hour = hour;
      dow = raw.dow;
      day = u8 (day + 1);
      month = 1;
      year = 0;
    }

-- The clock data that `ds1338z_setUnixTime` computes from the 32 bits of a `time_t`. The difference to
-- the year 2000 has the sign of its highest bit.
unfoldable pub clock_data_of : ClockData → ℕ → ClockData
clock_data_of raw tm =
    let seconds = u32 (tm + 2 ^ 32 - unix_millennium) in
    if ltb seconds (2 ^ 31)
    then split_seconds raw seconds
    else split_negative raw (2 ^ 32 - seconds)

-- The registers as `ds1338z_setRawClockData` makes them in the memory of its argument, which its caller
-- drops behind the call, and writes them, and what `ds1338z_getRawClockData` makes
-- of the bytes that it read.
unfoldable pub encode : ClockData → List ℕ
encode p = map u8_dec2bcd (to_bytes p)

unfoldable pub decode : List ℕ → ClockData
decode b = of_bytes (map u8_bcd2dec b)

-- The bytes that were read, as numbers if the bus did its work.
abbrev pub decoded {ℓ} : {S : Type ℓ} → Err → List ℕ → S → Err × List ℕ × S
decoded ok b s = (ok, map u8_bcd2dec b, s)
decoded error b s = (error, b, s)

abbrev pub timed : Err → List ℕ → Err × Option ℕ
timed ok b = (ok, unix_time_of (of_bytes b))
timed error b = (error, none)

module _ {S : Type 0} (cmds : Commands S) where
  -- `i2c_init` is a macro for the driver's initialisation.
  unfoldable pub init : (S → S) → ℕ → S → Err × S
  init i2c_init t s =
      let (r, b, s') = i2c_read_bus_mul cmds i2c_addr 0 (t ∷ []) 1 (i2c_init s) in (err_of r, s')

  unfoldable pub get_raw_clock_data : List ℕ → S → Err × List ℕ × S
  get_raw_clock_data p s =
      let (r, b, s') = i2c_read_bus_mul cmds i2c_addr 0 p 7 s in decoded (err_of r) b s'

  -- `none` inside the result is a read behind the table of months.
  unfoldable pub get_unix_time : List ℕ → S → (Err × Option ℕ) × S
  get_unix_time raw s = let (e, b, s') = get_raw_clock_data raw s in (timed e b, s')

  unfoldable pub set_raw_clock_data : ClockData → S → Err × S
  set_raw_clock_data p s =
      let (r, s') = i2c_write_bus_mul cmds i2c_addr 0 (encode p) s in (err_of r, s')

  unfoldable pub set_unix_time : ClockData → ℕ → S → Err × S
  set_unix_time raw tm s = set_raw_clock_data (clock_data_of raw tm) s

  unfoldable pub read_nvram : List ℕ → ℕ → ℕ → S → Err × List ℕ × S
  read_nvram dest offset size s =
      let (r, b, s') = i2c_read_bus_mul cmds i2c_addr (u8 (nvram_start + offset)) dest size s in
      (err_of r, b, s')

  unfoldable pub write_nvram : ℕ → List ℕ → S → Err × S
  write_nvram offset src s =
      let (r, s') = i2c_write_bus_mul cmds i2c_addr (u8 (nvram_start + offset)) src s in
      (err_of r, s')
