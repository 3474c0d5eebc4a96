-- ===== src/Gpio.antt =====
-- application/libhw/GPIO.c: a port of pins. A register is the function of its bits, and the levels at
-- the pins, which the input register shows, are an argument.
pub mod OpenDrain
use or1k_spartan6_platform_x.Base.{ℕ, Bool, true, false, ◌&&◌, ◌||◌, not, ◌==◌}

abbrev pub Bits : Type 0
Bits = ℕ → Bool

abbrev pub no_bits : Bits
no_bits i = false

-- `1 << pin`.
abbrev pub bit : ℕ → Bits
bit pin i = pin == i

abbrev pub both : Bits → Bits → Bits
both a b i = a i || b i

-- `OUT`, `OE` and `CTRL` of `struct sGPIO`.
pub record Gpio : Type 0 where
  pub out : Bits
  pub oe : Bits
  pub ctrl : Bits

unfoldable pub gpio_port_init : Bits → Gpio → Gpio
gpio_port_init direction g = record {
  out = no_bits;
  oe = direction;
  ctrl = λ i. g.ctrl i && not (bit 0 i);
}

unfoldable pub gpio_port_set_dir_all : Bits → Gpio → Gpio
gpio_port_set_dir_all direction g = record g { oe = direction }

unfoldable pub gpio_port_set_all : Bits → Gpio → Gpio
gpio_port_set_all val g = record g { out = val }

unfoldable pub gpio_port_get_dir : Gpio → Bits
gpio_port_get_dir g = g.oe

unfoldable pub gpio_port_set_dir : Bits → Bits → Gpio → Gpio
gpio_port_set_dir set_out_mask set_in_mask g =
    gpio_port_set_dir_all (λ i. gpio_port_get_dir g i && not (set_in_mask i) || set_out_mask i) g

module _ (levels : Gpio → Bits) where
  unfoldable pub gpio_port_get_val : Gpio → Bits
  gpio_port_get_val g = levels g

  unfoldable pub gpio_port_set_val : Bits → Bits → Gpio → Gpio
  gpio_port_set_val set_mask unset_mask g =
      gpio_port_set_all (λ i. gpio_port_get_val g i && not (unset_mask i) || set_mask i) g
