-- ===== src/Tests/Pins.antt =====
-- The bit-banged bus on concrete values.
use or1k_spartan6_platform_x.Base.{ℕ, if◌then◌else◌, Bool, true, false, List, [], ◌∷◌, arith}
use or1k_spartan6_platform_x.BbI2c.{Drive, Port}
use or1k_spartan6_platform_x.BbI2c.{bb_i2c_init}
use or1k_spartan6_platform_x.Gpio.{Gpio}
use or1k_spartan6_platform_x.Gpio.OpenDrain.{
  low_sda, float_sda, low_scl, port_run, gpio_run, gpio_i2c_init, Drives, gpio_run-port_run,
}

abbrev idle : Port
idle = record { now = record { sda_low = false; scl_low = false }; trace = [] }

-- No other device pulls a line low.
abbrev free : List Drive → Bool
free trace = true

-- A port whose inputs show what is driven, and are high elsewhere.
abbrev read_back : Gpio → ℕ → Bool
read_back g i = if g.oe i then g.out i else true

abbrev port_off : Gpio
port_off = record { out = λ i. true; oe = λ i. false; ctrl = λ i. false }

abbrev port_idle : Port
port_idle = record { now = record { sda_low = true; scl_low = true }; trace = [] }

gpio_run-port_run_example :
    Drives 0 1
      (gpio_run 0 1 (low_sda ∷ low_scl ∷ float_sda ∷ []) (gpio_i2c_init 0 1 read_back port_off))
      (port_run (low_sda ∷ low_scl ∷ float_sda ∷ []) (bb_i2c_init port_idle)).now
gpio_run-port_run_example =
    gpio_run-port_run 0 1 read_back (low_sda ∷ low_scl ∷ float_sda ∷ []) port_off port_idle
      (λ e. absurd (omega arith))
