-- ===== src/Tests/Clock.antt =====
-- The clock chip and its number format on concrete dates.
use or1k_spartan6_platform_x.Base.{◌+◌, ◌/◌, ◌≡◌, ◌<◌, arith}
use or1k_spartan6_platform_x.Ds1338z.{
  ClockData, split_seconds, day_seconds, month_seconds, days_of_years, days_of_months, month_days,
  unix_millennium,
}
use or1k_spartan6_platform_x.Ds1338z.Calendar.{before_year, before_month}
use or1k_spartan6_platform_x.Ds1338z.Conversion.{month_part, end_of_time}
use or1k_spartan6_platform_x.Ds1338z.MonthStart.{split_seconds-month_start}

abbrev blank : ClockData
blank = record { second = 0; minute = 0; hour = 0; dow = 0; day = 0; month = 0; year = 0 }

before_february : before_month 16 1 + before_year 16 + unix_millennium < end_of_time
unfolding days_of_years days_of_months month_days
before_february = omega arith

split_seconds-month_start_example :
    let p = split_seconds blank (before_month 16 1 + before_year 16) in
    (p.year ≡ 16)
    × (p.month ≡ 1)
    × (month_part p ≡ month_seconds 16 1)
    × (p.day ≡ month_seconds 16 1 / day_seconds + 1)
split_seconds-month_start_example =
    split_seconds-month_start blank 16 0 (omega arith) before_february
