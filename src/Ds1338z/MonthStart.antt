-- ===== src/Ds1338z/MonthStart.antt =====
-- The month loop of `ds1338z_setUnixTime` (application/libhw/ds1338z.c) at the first second of a
-- month, where its test `<` differs from the year loop's `<=`.
use or1k_spartan6_platform_x.Base.{
  ℕ, zero, suc, ◌+◌, ◌-◌, ◌*◌, ◌/◌, ◌≤◌, ◌<◌, ◌≡◌, refl, subst, arith, some,
}
use native.Mathlib.Nat.{le_trans}
use native.Mathlib.Decide.{dec_lt}
use or1k_spartan6_platform_x.Ds1338z.{
  ClockData, split_seconds, year_loop, month_loop, month_seconds, year_seconds, day_seconds,
  unix_millennium, split_month,
}
use or1k_spartan6_platform_x.Ds1338z.Calendar.{
  before_year, before_month, before_year-suc, before_year-add_one, days_below-year, YearFound,
  MonthFound, month_seconds-suc,
}
use or1k_spartan6_platform_x.Ds1338z.Conversion.{
  years, months, end_of_time, month_seconds-le, split_month_adds, month_part,
}

before_year_mono : (a d : ℕ) → before_year a ≤ before_year (a + d)
before_year_mono a zero = ground arith
before_year_mono a (suc d) =
    ground (arith, before_year_mono a d, before_year-add_one (a + d), split)
  where
    split : a + suc d ≡ a + d + 1
    split = omega arith

before_month_mono : (year a d : ℕ) → before_month year a ≤ before_month year (a + d)
before_month_mono year a zero = ground arith
before_month_mono year a (suc d) =
    subst (λ n. before_month year a ≤ before_month year n) split
      (le_trans (before_month_mono year a d) (omega (arith, month_seconds-suc year (a + d))))
  where
    split : suc (a + d) ≡ a + suc d
    split = omega arith

-- A number lies between the values of a monotone function at one index only.
not_below :
    (f : ℕ → ℕ)
    → ((a d : ℕ) → f a ≤ f (a + d))
    → (total x y : ℕ) → total < f (suc x)
    → f y ≤ total
    → y ≤ x
not_below f mono total x y b c = elim (dec_lt x y) [
  | yes lt ↦ absurd (
      let up : f (suc x) ≤ f y =
        subst (λ n. f (suc x) ≤ f n) (split lt) (mono (suc x) (y - suc x)) in
      omega arith)
  | no ge ↦ omega arith
]
  where
    split : x < y → suc x + (y - suc x) ≡ y
    split lt = omega arith

between :
    (f : ℕ → ℕ)
    → ((a d : ℕ) → f a ≤ f (a + d))
    → (total x y : ℕ) → f x ≤ total
    → total < f (suc x)
    → f y ≤ total
    → total < f (suc y)
    → x ≡ y
between f mono total x y a b c d =
    omega (arith, not_below f mono total x y b c, not_below f mono total y x d a)

-- The year loop finds the year that a number of seconds falls into.
year_loop-eq :
    (year rest : ℕ)
    → rest < year_seconds year
    → rest + before_year year + unix_millennium < end_of_time
    → year_loop 99 0 (rest + before_year year) ≡ (some year, rest)
year_loop-eq year rest lt h = ground (arith, y.returns, y.adds_up, same)
  where
    y : YearFound (rest + before_year year) 99 (year_loop 99 0 (rest + before_year year))
    y = years (rest + before_year year) h

    same : y.year ≡ year
    same =
        between before_year before_year_mono (rest + before_year year) y.year year
          (omega (arith, y.adds_up)) (omega (arith, y.adds_up, y.in_year, before_year-suc y.year))
          (omega arith) (omega (arith, before_year-suc year))

month_seconds-pos : (year k : ℕ) → k < 12 → 0 < month_seconds year (suc k)
month_seconds-pos year k h = ground arith

before_month-lt : (year j : ℕ) → suc j < 12 → before_month year (suc j) < year_seconds year
before_month-lt year j h =
    let up : before_month year (suc (suc j)) ≤ before_month year 12 =
      subst (λ n. before_month year (suc (suc j)) ≤ before_month year n) (split h)
        (before_month_mono year (suc (suc j)) (12 - suc (suc j))) in
    ground (
      arith,
      month_seconds-suc year (suc j),
      month_seconds-pos year (suc j) h,
      days_below-year year,
    )
  where
    split : suc j < 12 → suc (suc j) + (12 - suc (suc j)) ≡ 12
    split lt = omega arith

-- At the seconds of whole months the month loop stops in the month before, with all of it left.
month_loop-eq :
    (year j : ℕ)
    → suc j < 12
    → month_loop year 12 1 (before_month year (suc j)) ≡ (some (suc j), month_seconds year (suc j))
month_loop-eq year j h = ground (arith, m.returns, m.adds_up, same, month_seconds-suc year j)
  where
    m :
        MonthFound
          (before_month year (suc j))
          12
          year
          (month_loop year 12 1 (before_month year (suc j)))
    m = months year (before_month year (suc j)) (before_month-lt year j h)

    pos : 0 < before_month year (suc j)
    pos = omega (arith, month_seconds-suc year j, month_seconds-pos year j (omega arith))

    same : m.k ≡ j
    same =
        between (before_month year) (before_month_mono year) (before_month year (suc j) - 1) m.k j
          (ground (arith, m.adds_up, m.started, pos))
          (omega (arith, m.adds_up, m.in_month, month_seconds-suc year m.k, pos))
          (omega (arith, month_seconds-pos year j (omega arith), month_seconds-suc year j))
          (omega (arith, pos))

split_month-fields :
    (raw : ClockData) (year month s : ℕ)
    → s ≤ 31 * day_seconds
    → let p = split_month raw year month s in
      (p.year ≡ year) × (p.month ≡ month) × (month_part p ≡ s) × (p.day ≡ s / day_seconds + 1)
unfolding split_month
split_month-fields raw year month s h =
    (refl, refl, split_month_adds raw year month s h, omega arith)

-- At the first second of every month but January, from the year 2000 up to the end of signed 32-bit
-- time, the loops stop in the month before, with all of it left and a day behind its last.
pub split_seconds-month_start :
    (raw : ClockData) (year j : ℕ)
    → suc j < 12
    → before_month year (suc j) + before_year year + unix_millennium < end_of_time
    → let p = split_seconds raw (before_month year (suc j) + before_year year) in
      (p.year ≡ year)
      × (p.month ≡ suc j)
      × (month_part p ≡ month_seconds year (suc j))
      × (p.day ≡ month_seconds year (suc j) / day_seconds + 1)
unfolding split_seconds
split_seconds-month_start raw year j hj h =
    rw
      (
        year_loop-eq year (before_month year (suc j)) (before_month-lt year j hj) h,
        month_loop-eq year j hj,
      )
      (split_month-fields raw year (suc j) (month_seconds year (suc j))
        (month_seconds-le year j (omega arith)))
