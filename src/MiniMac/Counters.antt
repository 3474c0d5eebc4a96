-- ===== src/MiniMac/Counters.antt =====
-- The range of the counters of hdl/myminimac/myminimac_ctlif_cd2.v.
use or1k_spartan6_platform_x.Base.{
  ℕ, zero, suc, ◌+◌, ◌*◌, ◌%◌, ◌<◌, ◌≤◌, ◌≡◌, arith, leb, true, false, Bool-cases, inl, inr,
}
use native.Mathlib.Nat.{mod-eq_of_lt}
use or1k_spartan6_platform_x.MiniMac.{Config, power_from, counter_range}

leb-false : (n w : ℕ) → leb n w ≡ false → w < n
leb-false n w e = ground arith

leb-true : (n w : ℕ) → leb n w ≡ true → n ≤ w
leb-true n w e = ground arith

power_from-le : (fuel w n : ℕ) → 0 < w → n ≤ w + fuel → n ≤ power_from fuel w n
unfolding power_from
power_from-le zero w n pos h = omega arith
power_from-le (suc fuel) w n pos h = elim (Bool-cases (leb n w)) [
  | inl e ↦ rw (power_from, e) (leb-true n w e)
  | inr e ↦
      rw (power_from, e)
        (power_from-le fuel (w * 2) n (omega arith) (omega (arith, leb-false n w e)))
]

counter_range-le : (cfg : Config) → cfg.mtu ≤ counter_range cfg
unfolding counter_range
counter_range-le cfg = power_from-le cfg.mtu 1 cfg.mtu (omega arith) (omega arith)

-- A counter holds every number below `MTU`.
pub counter_range-lt : (cfg : Config) (n : ℕ) → n < cfg.mtu → n % counter_range cfg ≡ n
counter_range-lt cfg n h = mod-eq_of_lt (omega (arith, h, counter_range-le cfg))
