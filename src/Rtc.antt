-- ===== src/Rtc.antt =====
-- application/libhw/rtc.c: the system clock, which counts in the software timers' ticks and is
-- kept in step with the clock chip. `BULD_TIMESTAMP` comes from the build. `time_t` is 32 bits wide.
pub mod Readback
use or1k_spartan6_platform_x.Base.{
  ℕ, ◌+◌, ◌-◌, ◌*◌, ◌/◌, ◌%◌, ◌^◌, List, Option, none, some, Bool, ltb, if◌then◌else◌, u32,
}
use or1k_spartan6_platform_x.I2c.{Commands}
use or1k_spartan6_platform_x.Ds1338z.{Err, ok, error, ClockData, init, get_unix_time, set_unix_time}
use or1k_spartan6_platform_x.ProgTimer.{
  Ptr, Timer, State, Run, fault, finished, and_then, progtimer_new, progtimer_setclock,
  progtimer_get_ticks, ticks_in_sec,
}

-- What the calls return: 0, `-EINVAL` or `-ECONNREFUSED`.
pub data Errno : Type 0 where
  success einval econnrefused : Errno

abbrev pub errno_of : Err → Errno
errno_of ok = success
errno_of error = econnrefused

-- The timers, the module's variables and the chip.
pub record Clock (W S : Type 0) : Type 0 where
  pub timers : State W
  pub local_seconds : ℕ
  pub sec_point : ℕ
  pub sec_timer : Ptr
  pub dev : S

pub record Timespec : Type 0 where
  pub tv_sec : ℕ
  pub tv_nsec : ℕ

-- The time to start from: that of the chip, but not before the build.
abbrev pub not_before : ℕ → ℕ → ℕ
not_before build tm = if ltb tm build then build else tm

module _ {W S : Type 0} where
  unfoldable pub clock_add_second : Clock W S → Clock W S
  clock_add_second c = record c {
    local_seconds = u32 (c.local_seconds + 1);
    sec_point = progtimer_get_ticks c.timers;
  }

  -- Products and differences in 32 bits.
  unfoldable pub clock_gettime : Clock W S → Timespec
  clock_gettime c =
      let timestamp = progtimer_get_ticks c.timers in
      let sec = u32 (timestamp / 1000) in
      record { tv_sec = sec; tv_nsec = u32 (timestamp + 2 ^ 32 - u32 (sec * 1000)) }

  unfoldable pub clock_catch_timestamp : Clock W S → ℕ
  clock_catch_timestamp c = progtimer_get_ticks c.timers

  -- `raw` is what the clock data holds before it is assigned.
  module _ (cmds : Commands S) (build fuel : ℕ) (raw : ClockData) where
    abbrev pub set_chip : ℕ → Clock W S → State W → Run (Errno × Clock W S)
    set_chip ts c m =
        let (e, s) = set_unix_time cmds raw (u32 (ts / 1000)) c.dev in
        finished (errno_of e, record c { timers = m; dev = s })

    unfoldable pub clock_settime : ℕ → Clock W S → Run (Errno × Clock W S)
    clock_settime ts c =
        if ltb ts (build * 1000)
        then finished (einval, c)
        else and_then (progtimer_setclock fuel ts c.timers) (set_chip ts c)

    abbrev pub from_chip : (Err × Option ℕ) × S → Clock W S → Run (Clock W S)
    from_chip ((error, tm), s) c = finished (record c { dev = s })
    from_chip ((ok, none), s) c = fault
    from_chip ((ok, some tm), s) c =
        and_then (clock_settime (1000 * not_before build tm) (record c { dev = s }))
          (λ r. finished r.1)

    abbrev pub probe_chip : Err × S → List ℕ → Clock W S → Run (Clock W S)
    probe_chip (error, s) bytes c = finished (record c { dev = s })
    probe_chip (ok, s) bytes c = from_chip (get_unix_time cmds bytes s) c

    -- `handler` is the address of `clock_add_second`.
    unfoldable pub rtc_init :
        (State W → Ptr) → Timer → ℕ → (S → S) → ℕ → List ℕ → Clock W S → Run (Clock W S)
    rtc_init malloc junk handler i2c_init t bytes c =
        let (p, m) = progtimer_new malloc junk ticks_in_sec (some handler) 0 c.timers in
        probe_chip (init cmds i2c_init t c.dev) bytes (record c { timers = m; sec_timer = p })
