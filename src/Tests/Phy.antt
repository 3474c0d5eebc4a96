-- ===== src/Tests/Phy.antt =====
-- PHYs behind an MDIO controller that is always ready.
use or1k_spartan6_platform_x.Base.{
  ℕ, ◌+◌, ◌*◌, ◌/◌, ◌%◌, ◌^◌, ◌<◌, ◌≡◌, refl, sym, ◌∙◌, arith, Option, none, some, ◌==◌,
  if◌then◌else◌,
}
use mathlib.Core.Option.{some-injective}
use or1k_spartan6_platform_x.Mdio.{
  Controller, Mdio, wait_loop, wait_ready, mdio_get_connection_status,
}
use or1k_spartan6_platform_x.Mdio.Detect.{
  Answers, IsFirst, link_status, mdio_get_connection_status-link_status,
}

-- One PHY answers, at address 1, with its link up.
abbrev value : ℕ → ℕ → ℕ
value phy reg = if phy == 1 then 4 else 0xffff

-- The state is the last command. The data register has a bit above its low 16.
abbrev bench : Controller ℕ
bench = record {
  ctl = λ s. (268435456, s);
  set_ctl = λ w s. w;
  reg_data = λ s. 65536 + value (s / 32 % 32) (s % 32);
  set_reg_data = λ w s. s;
}

ready : (s : ℕ) → wait_ready bench 1 s ≡ some s
unfolding wait_ready wait_loop
ready s = refl

value-low : (phy reg : ℕ) → (65536 + value phy reg) % 2 ^ 16 ≡ value phy reg
value-low phy reg = ground arith

bench-Answers : Answers bench 1 value
bench-Answers = record {
  waits = λ s. (s, ready s);
  reads = λ phy reg s t hp hr run. reply phy reg t hp hr (
      some-injective (2147483648 + (phy * 32 + reg)) t
        (sym (ready (2147483648 + (phy * 32 + reg))) ∙ run));
}
  where
    reply :
        (phy reg t : ℕ)
        → phy < 32
        → reg < 32
        → 2147483648 + (phy * 32 + reg) ≡ t
        → (65536 + value (t / 32 % 32) (t % 32)) % 2 ^ 16 ≡ value phy reg
    reply phy reg t hp hr e =
        let a : t / 32 % 32 ≡ phy = omega arith in
        let b : t % 32 ≡ reg = omega arith in value-low (t / 32 % 32) (t % 32) ∙ rw (a) refl

abbrev idle : Mdio ℕ
idle = record { controller = 0; last_detected = none }

mdio_get_connection_status-link_status_example :
    (found : Option ℕ) × (t : Mdio ℕ) × (mdio_get_connection_status bench 1 none idle
      ≡ some (link_status value found, t))
    × IsFirst value 0 32 found
    × (t.last_detected ≡ found)
mdio_get_connection_status-link_status_example =
    mdio_get_connection_status-link_status bench 1 value bench-Answers idle refl
