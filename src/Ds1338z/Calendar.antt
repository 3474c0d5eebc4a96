-- ===== src/Ds1338z/Calendar.antt =====
-- The calendar loops of application/libhw/ds1338z.c: what each direction of the conversion
-- consumes, and that the two directions agree.
use or1k_spartan6_platform_x.Base.{
  ℕ, zero, suc, ◌+◌, ◌-◌, ◌*◌, ◌≤◌, ◌<◌, Option, some, ◌≡◌, refl, ap, arith, Bool-cases, ltb→lt,
  inl, inr, leb, ltb, ◌==◌, get_or, if◌then◌else◌, ◌&&◌, get_elem?-eq-get_or, ◌⊎◌,
}
use native.Mathlib.Numerals.{add-one}
use or1k_spartan6_platform_x.Ds1338z.{
  days_of_years, days_of_months, year_seconds, year_loop, month_seconds, month_loop, day_seconds,
  year_days, is_leap, days_in_month,
}

-- The seconds of the years below `year`.
abbrev pub before_year : ℕ → ℕ
before_year year = day_seconds * days_of_years year

pub before_year-suc : (year : ℕ) → before_year (suc year) ≡ before_year year + year_seconds year
unfolding days_of_years
before_year-suc year = ground arith

pub before_year-add_one : (year : ℕ) → before_year (year + 1) ≡ before_year year + year_seconds year
before_year-add_one year = rw add-one (before_year-suc year)

-- A year loop that broke: at a year below `top`, with less than a year left of `total`.
pub record YearFound (total top : ℕ) (out : Option ℕ × ℕ) : Type 0 where
  pub year : ℕ
  pub returns : out ≡ (some year, out.1)
  pub adds_up : out.1 + before_year year ≡ total
  pub in_year : out.1 < year_seconds year
  pub below : year < top

-- The year loop breaks if the seconds do not last for all of its years.
pub year_loop-YearFound :
    (left year seconds total top : ℕ)
    → seconds + before_year year ≡ total
    → year + left ≡ top
    → total < before_year top
    → YearFound total top (year_loop left year seconds)
unfolding year_loop
year_loop-YearFound zero year s total top e t h = absurd (ground arith)
year_loop-YearFound (suc left) year s total top e t h =
    elim (Bool-cases (leb (year_seconds year) s)) [
      | inl more ↦ rw more (
          year_loop-YearFound left (year + 1) (s - year_seconds year) total top
            (ground (arith, before_year-add_one year)) (omega arith) h)
      | inr stop ↦ rw stop (record {
        year = year;
        returns = refl;
        adds_up = e;
        in_year = ground arith;
        below = omega arith;
      })
    ]

-- The days of the months below index `k`.
abbrev pub days_below : ℕ → ℕ → ℕ
days_below year zero = 0
days_below year (suc k) =
    days_below year k + (get_or days_in_month k 0 + (if is_leap year && (k == 1) then 1 else 0))

pub days_of_months-eq : (year k : ℕ) → k ≤ 12 → days_of_months year k ≡ some (days_below year k)
unfolding days_of_months
days_of_months-eq year zero h = refl
days_of_months-eq year (suc k) h =
    rw (days_of_months-eq year k (omega arith), get_elem?-eq-get_or days_in_month k 0 (omega arith))

pub days_below-year : (year : ℕ) → days_below year 12 ≡ year_days year
days_below-year year = ground arith

abbrev pub before_month : ℕ → ℕ → ℕ
before_month year k = day_seconds * days_below year k

pub month_seconds-suc :
    (year k : ℕ) → before_month year k + month_seconds year (suc k) ≡ before_month year (suc k)
month_seconds-suc year k = ground arith

-- In the last month of a year the loop cannot go on.
month_left :
    (year k left top seconds total : ℕ)
    → seconds + before_month year k ≡ total
    → k + suc left ≡ top
    → total ≤ before_month year top
    → month_seconds year (suc k) < seconds
    → 0 < left
month_left year k zero top s total e t h more =
    absurd (ground (arith, month_seconds-suc year k, ap (before_month year) last))
  where
    last : top ≡ suc k
    last = omega arith
month_left year k (suc left) top s total e t h more = omega arith

-- A month loop that broke: at the month of index `k`, with at most that month left of `total`, and
-- with something left unless the month is the first.
pub record MonthFound (total top year : ℕ) (out : Option ℕ × ℕ) : Type 0 where
  pub k : ℕ
  pub returns : out ≡ (some (suc k), out.1)
  pub adds_up : out.1 + before_month year k ≡ total
  pub in_month : out.1 ≤ month_seconds year (suc k)
  pub started : (k ≡ 0) ⊎ (0 < out.1)
  pub below : k < top

pub month_loop-MonthFound :
    (year left k seconds total top : ℕ)
    → seconds + before_month year k ≡ total
    → k + left ≡ top
    → (k ≡ 0) ⊎ (0 < seconds)
    → total ≤ before_month year top
    → 0 < left
    → MonthFound total top year (month_loop year left (suc k) seconds)
unfolding month_loop
month_loop-MonthFound year zero k s total top e t st h pos = absurd (omega arith)
month_loop-MonthFound year (suc left) k s total top e t st h pos =
    elim (Bool-cases (ltb (month_seconds year (suc k)) s)) [
      | inl more ↦
          rw (more, add-one)
            (month_loop-MonthFound year left (suc k) (s - month_seconds year (suc k)) total top
              (ground (arith, month_seconds-suc year k)) (omega arith) (ground arith) h
              (month_left year k left top s total e t h (ltb→lt _ _ more)))
      | inr stop ↦ rw stop (record {
        k = k;
        returns = refl;
        adds_up = e;
        in_month = ground arith;
        started = st;
        below = omega arith;
      })
    ]
