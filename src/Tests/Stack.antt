-- ===== src/Tests/Stack.antt =====
-- The counters of the network stack over an hour of ticks.
use or1k_spartan6_platform_x.Base.{ℕ, ◌+◌, ◌≡◌, refl, arith, true, none, ◌==◌, if◌then◌else◌}
use or1k_spartan6_platform_x.ProgTimer.{Ptr, Timer, State, ok, progtimer_new, write}
use or1k_spartan6_platform_x.ProgTimer.Chain.{nil}
use or1k_spartan6_platform_x.EthTimers.{Clocks, init_eth_timers}
use or1k_spartan6_platform_x.EthTimers.Elapsed.{ticks, elapsed}
use or1k_spartan6_platform_x.EthTimers.Start.{init_eth_timers-elapsed}

abbrev leased : Clocks
leased = record { dhcp_1ms = 5000; renewal = 1800; lease = 3600; clock_10ms = 250; is_linked = 0 }

abbrev bare : State Clocks
bare = record { head = 0; cells = λ p. none; current_time = 0; irq_on = true; world = leased }

abbrev bump : State Clocks → Ptr
bump m = m.head + 16

abbrev zeroed : Ptr → Timer
zeroed p = record { timer_cnt = 0; timer_rv = 0; handler = none; cookie = 0 }

abbrev plugged : ℕ → ℕ
plugged now = if now == 3600000 then 1 else 0

-- The lease has run out, and the renewal before it.
init_eth_timers-elapsed_example :
    (m' : State Clocks) × (ticks plugged 4 3600000 (init_eth_timers bump zeroed bare) ≡ ok m')
    × (m'.world ≡ elapsed plugged 3600000 leased)
    × (m'.current_time ≡ 3600000)
unfolding progtimer_new write
init_eth_timers-elapsed_example =
    init_eth_timers-elapsed plugged bump zeroed 3600000 4 bare nil refl (omega arith)
      (omega arith, refl, refl) (omega arith, refl, refl) (omega arith, refl, refl) (omega arith)
      (omega arith)

hour :
    elapsed plugged 3600000 leased
    ≡ record { dhcp_1ms = 0; renewal = 0; lease = 0; clock_10ms = 58; is_linked = 1 }
hour = refl
