-- ===== src/ProgTimer/Interval.antt =====
-- `progtimer_get_interval` of application/libhw/prog_timer.c.
use or1k_spartan6_platform_x.Base.{ℕ, ◌+◌, ◌-◌, ◌%◌, ◌^◌, ◌<◌, ◌≤◌, ◌≡◌, ◌↔◌, arith}
use or1k_spartan6_platform_x.ProgTimer.{progtimer_get_interval}

-- For two readings of a 32-bit tick counter the result is the number of ticks from the first to
-- the second, across the counter's wrap.
pub progtimer_get_interval-wrap32 :
    (start end : ℕ)
    → start < 2 ^ 32
    → end < 2 ^ 32
    → progtimer_get_interval start end ≡ (end + 2 ^ 32 - start) % 2 ^ 32
unfolding progtimer_get_interval
progtimer_get_interval-wrap32 start end hs he = ground arith

-- For two readings of the 64-bit counter that the module keeps, the result is the number of ticks
-- from the first to the second exactly if the counter did not wrap between them.
pub progtimer_get_interval-wrap64 :
    (start end : ℕ)
    → start < 2 ^ 64
    → end < 2 ^ 64
    → (progtimer_get_interval start end ≡ (end + 2 ^ 64 - start) % 2 ^ 64) ↔ (start ≤ end)
unfolding progtimer_get_interval
progtimer_get_interval-wrap64 start end hs he = ground arith
