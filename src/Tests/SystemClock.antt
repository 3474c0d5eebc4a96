-- ===== src/Tests/SystemClock.antt =====
-- The system clock on a device that answers every command.
use or1k_spartan6_platform_x.Base.{ℕ, ◌/◌, ◌%◌, ◌≡◌, [], some, none, true, arith}
use or1k_spartan6_platform_x.I2c.{Commands, rsp_done}
use or1k_spartan6_platform_x.Ds1338z.{ClockData, set_unix_time}
use or1k_spartan6_platform_x.ProgTimer.{finished}
use or1k_spartan6_platform_x.ProgTimer.Chain.{Holds, nil}
use or1k_spartan6_platform_x.ProgTimer.Reset.{reset_to}
use or1k_spartan6_platform_x.Rtc.{errno_of, Clock, clock_gettime, clock_settime}
use or1k_spartan6_platform_x.Rtc.Readback.{clock_gettime-clock_settime}

-- The device keeps the last byte that was written.
abbrev keeper : Commands ℕ
keeper = record {
  start = λ s. (rsp_done, s);
  stop = λ s. (rsp_done, s);
  write = λ b s. (rsp_done, b);
  read_ack = λ s. (rsp_done, some 0, s);
  read_nak = λ s. (rsp_done, some 0, s);
}

abbrev unset : ClockData
unset = record { second = 0; minute = 0; hour = 0; dow = 1; day = 0; month = 0; year = 0 }

abbrev reset : Clock ℕ ℕ
reset = record {
  timers = record { head = 0; cells = λ p. none; current_time = 0; irq_on = true; world = 0 };
  local_seconds = 0;
  sec_point = 0;
  sec_timer = 0;
  dev = 0;
}

clock_gettime-clock_settime_example :
    let (e, s) = set_unix_time keeper unset (1500000000123 / 1000) 0 in
    (c' : Clock ℕ ℕ) × (clock_settime keeper 1460000000 1 unset 1500000000123 reset
      ≡ finished (errno_of e, c'))
    × (c'.dev ≡ s)
    × (clock_gettime c' ≡ record { tv_sec = 1500000000123 / 1000; tv_nsec = 1500000000123 % 1000 })
    × Holds c'.timers (reset_to 1500000000123 [])
clock_gettime-clock_settime_example =
    clock_gettime-clock_settime keeper 1460000000 1 unset reset 1500000000123 [] (omega arith)
      (omega arith) nil (omega arith)
