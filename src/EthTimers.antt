-- ===== src/EthTimers.antt =====
-- application/ibexukIP/timers.c: the counters of the network stack that software timers drive.
pub mod Elapsed
pub mod Start
use or1k_spartan6_platform_x.Base.{ℕ, ◌+◌, ◌-◌, some, u8, ◌==◌, if◌then◌else◌}
use or1k_spartan6_platform_x.ProgTimer.{Ptr, Timer, State, progtimer_new}

-- The stack's variables: `eth_dhcp_1ms_timer`, `eth_dhcp_1sec_renewal_timer`,
-- `eth_dhcp_1sec_lease_timer`, `ethernet_10ms_clock_timer_working` and `nic_is_linked`.
pub record Clocks : Type 0 where
  pub dhcp_1ms : ℕ
  pub renewal : ℕ
  pub lease : ℕ
  pub clock_10ms : ℕ
  pub is_linked : ℕ

-- `if (x) x--;`
abbrev pub count_down : ℕ → ℕ
count_down x = if x == 0 then x else x - 1

unfoldable pub tick_1ms : Clocks → Clocks
tick_1ms w = record w { dhcp_1ms = count_down w.dhcp_1ms }

-- `link now` is what `MDIO_getConnectionStatus(-1)` returns at the time `now`.
unfoldable pub tick_1s : (ℕ → ℕ) → ℕ → Clocks → Clocks
tick_1s link now w = record w {
  renewal = count_down w.renewal;
  lease = count_down w.lease;
  is_linked = u8 (link now);
}

unfoldable pub tick_10ms : Clocks → Clocks
tick_10ms w = record w { clock_10ms = u8 (w.clock_10ms + 1) }

-- The handlers by their numbers: 1 is `tick_1ms`, 2 is `tick_10ms` and 3 is `tick_1s`.
unfoldable pub handler : (ℕ → ℕ) → ℕ → ℕ → ℕ → Clocks → Clocks
handler link h cookie now w =
    if h == 1 then tick_1ms w else if h == 2 then tick_10ms w else tick_1s link now w

abbrev pub call : (ℕ → ℕ) → ℕ → ℕ → State Clocks → State Clocks
call link h cookie m = record m { world = handler link h cookie m.current_time m.world }

-- The allocations one by one. `junk p` is what the memory at `p` holds, and the cookies are `NULL`.
module _ (malloc : State Clocks → Ptr) (junk : Ptr → Timer) where
  abbrev pub new_timer : ℕ → ℕ → State Clocks → State Clocks
  new_timer period h m = (progtimer_new malloc (junk (malloc m)) period (some h) 0 m).1

  unfoldable pub init_eth_timers : State Clocks → State Clocks
  init_eth_timers m = new_timer 1000 3 (new_timer 10 2 (new_timer 1 1 m))
