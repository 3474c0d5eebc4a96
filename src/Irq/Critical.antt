-- ===== src/Irq/Critical.antt =====
-- Critical sections of application/libhw/irq.c.
use or1k_spartan6_platform_x.Base.{◌+◌, ◌<◌, ◌^◌, ◌≡◌, ◌↔◌, true, arith}
use or1k_spartan6_platform_x.Irq.{Machine, enter_critical, exit_critical}

-- Interrupts are enabled exactly when no critical section is open.
abbrev pub IsNested : {W : Type 0} → Machine W → Type 0
IsNested m = (m.gie ≡ true) ↔ (m.irq_disable_counter ≡ 0)

module _ {W : Type 0} where
  -- Opening a section keeps the invariant while the counter does not wrap.
  pub enter_critical-IsNested :
      (m : Machine W) → m.irq_disable_counter + 1 < 2 ^ 32 → IsNested (enter_critical m)
  unfolding enter_critical
  enter_critical-IsNested m h = ground arith

  -- Closing a section keeps the agreement of the interrupt enable bit with the nesting counter,
  -- the superfluous close at depth 0 included.
  pub exit_critical-IsNested : (m : Machine W) → IsNested m → IsNested (exit_critical m)
  unfolding exit_critical
  exit_critical-IsNested m h = ground arith

  -- A section that is opened and closed leaves a state as it was whose interrupt enable bit
  -- agrees with its nesting counter, if the counter does not overflow.
  pub exit_critical-enter_critical :
      (m : Machine W)
      → IsNested m
      → m.irq_disable_counter + 1 < 2 ^ 32
      → exit_critical (enter_critical m) ≡ m
  unfolding enter_critical exit_critical
  exit_critical-enter_critical m h b = ground arith
