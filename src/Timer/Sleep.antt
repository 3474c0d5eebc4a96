-- ===== src/Timer/Sleep.antt =====
-- When the waits of application/libhw/timer.c are over.
use or1k_spartan6_platform_x.Base.{
  ℕ, ◌+◌, ◌^◌, ◌<◌, ◌≡◌, refl, arith, Option, none, some, map, List, [], ◌∷◌, ltb, u32,
  if◌then◌else◌,
}
use mathlib.Core.Option
use or1k_spartan6_platform_x.Timer.{timer_diff, sleep_loop, timer_sleep}

-- The counter, so many counts behind `t`.
abbrev pub counter : ℕ → ℕ → ℕ
counter t e = u32 (t + e)

-- What is left behind the first number that is not below `ticks`.
unfoldable pub behind : ℕ → List ℕ → Option (List ℕ)
behind ticks [] = none
behind ticks (e ∷ es) = let rest = behind ticks es in if ltb e ticks then rest else some es

-- Every number is below 2^31.
abbrev pub AllShort : List ℕ → Type 0
AllShort [] = Unit {0}
AllShort (e ∷ es) = (e < 2 ^ 31) × AllShort es

timer_diff-counter : (t e : ℕ) → t < 2 ^ 32 → e < 2 ^ 31 → timer_diff (counter t e) t ≡ e
unfolding timer_diff
timer_diff-counter t e ht he = omega arith

sleep_loop-behind :
    (es : List ℕ) (t ticks : ℕ)
    → t < 2 ^ 32
    → ticks < 2 ^ 31
    → AllShort es
    → sleep_loop (map (counter t) es) t ticks ≡ Option.map (map (counter t)) (behind ticks es)
unfolding sleep_loop behind
sleep_loop-behind [] t ticks ht hn h = refl
sleep_loop-behind (e ∷ es) t ticks ht hn h =
    ground (arith, timer_diff-counter t e ht h.0, sleep_loop-behind es t ticks ht hn h.1)

-- A sleep is over at the first look at which the counter has gone on by so many counts, also over the
-- counter's wrap: less than 2^31 counts are asked for, and the counter has gone less than 2^31 on at
-- every look.
pub timer_sleep-behind :
    (t ticks : ℕ) (es : List ℕ)
    → t < 2 ^ 32
    → ticks < 2 ^ 31
    → AllShort es
    → timer_sleep (t ∷ map (counter t) es) ticks ≡ Option.map (map (counter t)) (behind ticks es)
unfolding timer_sleep
timer_sleep-behind t ticks es ht hn h = sleep_loop-behind es t ticks ht hn h
