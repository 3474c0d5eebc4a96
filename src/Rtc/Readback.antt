-- ===== src/Rtc/Readback.antt =====
-- Setting and reading the system clock of application/libhw/rtc.c.
use or1k_spartan6_platform_x.Base.{
  ℕ, ◌*◌, ◌/◌, ◌%◌, ◌^◌, ◌≤◌, ◌<◌, ◌≡◌, refl, arith, ltb, u32, length, ◌∙◌, subst, false,
}
use or1k_spartan6_platform_x.I2c.{Commands}
use or1k_spartan6_platform_x.Ds1338z.{ClockData, set_unix_time}
use or1k_spartan6_platform_x.ProgTimer.{
  State, finished, progtimer_setclock, progtimer_get_ticks, period_ms,
}
use or1k_spartan6_platform_x.ProgTimer.Chain.{Cells, Holds}
use or1k_spartan6_platform_x.ProgTimer.Reset.{reset_to, progtimer_setclock-reset_to}
use or1k_spartan6_platform_x.Rtc.{errno_of, Clock, Timespec, clock_gettime, clock_settime}

clock_gettime-at :
    {W S : Type 0} (c : Clock W S) (ts : ℕ)
    → c.timers.current_time ≡ ts
    → ts < 2 ^ 32 * 1000
    → clock_gettime c ≡ record { tv_sec = ts / 1000; tv_nsec = ts % 1000 }
unfolding clock_gettime progtimer_get_ticks
clock_gettime-at c ts e h = rw e (ap2 (omega arith) (omega arith))
  where
    ap2 :
        {a b a' b' : ℕ}
        → a ≡ a'
        → b ≡ b'
        → ◌≡◌ {A = Timespec}
            (record { tv_sec = a; tv_nsec = b })
            (record { tv_sec = a'; tv_nsec = b' })
    ap2 p q = cc

module _ {W S : Type 0} (cmds : Commands S) (build fuel : ℕ) (raw : ClockData) (c : Clock W S) where
  -- A time in milliseconds from the build up to the end of signed 32-bit seconds is set: with a list of
  -- timers that is well formed and fuel for its length the call ends, the chip is set to the whole
  -- seconds, whose outcome is returned, `clock_gettime` then gives the seconds and the rest in
  -- milliseconds, and every timer starts anew.
  pub clock_gettime-clock_settime :
      (ts : ℕ) (ts_cells : Cells)
      → build * 1000 ≤ ts
      → ts < 2 ^ 31 * 1000
      → Holds c.timers ts_cells
      → length ts_cells < fuel
      → let (e, s) = set_unix_time cmds raw (ts / 1000) c.dev in
        (c' : Clock W S) × (clock_settime cmds build fuel raw ts c ≡ finished (errno_of e, c'))
        × (c'.dev ≡ s)
        × (clock_gettime c' ≡ record { tv_sec = ts / 1000; tv_nsec = ts % 1000 })
        × Holds c'.timers (reset_to ts ts_cells)
  unfolding clock_settime
  clock_gettime-clock_settime ts ts_cells lo hi h f = (
    record c { timers = t.0; dev = (set_unix_time cmds raw (ts / 1000) c.dev).1 },
    rw (late, t.1, whole) refl,
    refl,
    clock_gettime-at (record c { timers = t.0; dev = (set_unix_time cmds raw (ts / 1000) c.dev).1 })
        ts (t.2 ∙ by_one) (omega arith),
    subst (λ n. Holds t.0 (reset_to n ts_cells)) by_one t.3,
  )
    where
      t :
          (m' : State W) × (progtimer_setclock fuel ts c.timers ≡ finished m')
          × (m'.current_time ≡ ts / period_ms)
          × Holds m' (reset_to (ts / period_ms) ts_cells)
          × (m'.world ≡ c.timers.world)
      t = progtimer_setclock-reset_to fuel ts ts_cells c.timers h f

      late : ltb ts (build * 1000) ≡ false
      late = ground arith

      whole : u32 (ts / 1000) ≡ ts / 1000
      whole = omega arith

      by_one : ts / period_ms ≡ ts
      by_one = omega arith
