-- ===== src/Timer.antt =====
-- application/libhw/timer.c: waits for a counter of 32 bits. The values that the loop reads are a list.
pub mod Sleep
use or1k_spartan6_platform_x.Base.{
  ℕ, ◌+◌, ◌-◌, ◌%◌, ◌^◌, Bool, true, false, Option, none, some, List, [], ◌∷◌, ltb, u32,
  if◌then◌else◌,
}

-- `timer_diff`, a `long` as its bit pattern.
unfoldable pub timer_diff : ℕ → ℕ → ℕ
timer_diff a b = u32 (a + 2 ^ 32 - b)

-- `<` of two words with sign.
abbrev pub lt_signed : ℕ → ℕ → Bool
lt_signed a b = ltb (u32 (a + 2 ^ 31)) (u32 (b + 2 ^ 31))

-- The values left when the loop is over, `none` where the counter is still looked at.
unfoldable pub sleep_loop : List ℕ → ℕ → ℕ → Option (List ℕ)
sleep_loop [] t ticks = none
sleep_loop (now ∷ reads) t ticks =
    let rest = sleep_loop reads t ticks in
    if lt_signed (timer_diff now t) ticks then rest else some reads

-- `timer_sleep` and `hires_timer_sleep`, which read different counters. The first value is the start.
unfoldable pub timer_sleep : List ℕ → ℕ → Option (List ℕ)
timer_sleep [] ticks = none
timer_sleep (t ∷ reads) ticks = sleep_loop reads t ticks
