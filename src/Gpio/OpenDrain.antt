-- ===== src/Gpio/OpenDrain.antt =====
-- The two bus lines of application/libhw/bb_i2c.c on the registers of application/libhw/GPIO.c, which
-- BbI2c has as what the pins drive.
use or1k_spartan6_platform_x.Base.{
  ℕ, ◌≡◌, ◌≢◌, refl, ap, sym, ◌∙◌, Bool, true, false, ◌&&◌, ◌||◌, not, List, [], ◌∷◌, ◌==◌, ==-refl,
  ==-ne,
}
use or1k_spartan6_platform_x.BbI2c.{
  Drive, Port, sda_0, sda_1, scl_0, scl_1, release_both, bb_i2c_init,
}
use or1k_spartan6_platform_x.Gpio.{
  Bits, no_bits, bit, both, Gpio, gpio_port_set_all, gpio_port_set_dir_all, gpio_port_get_dir,
  gpio_port_set_dir, gpio_port_get_val, gpio_port_set_val,
}

-- The macros `SDA_0` to `SCL_1`.
pub data Macro : Type 0 where
  low_sda float_sda low_scl float_scl : Macro

abbrev pub on_port : Macro → Port → Port
on_port low_sda p = sda_0 p
on_port float_sda p = sda_1 p
on_port low_scl p = scl_0 p
on_port float_scl p = scl_1 p

abbrev pub port_run : List Macro → Port → Port
port_run [] p = p
port_run (m ∷ ms) p = port_run ms (on_port m p)

set_dir-raised : (a b c : Bool) → c ≡ true → (a && not b || c) ≡ true
set_dir-raised true true true h = refl
set_dir-raised true false true h = refl
set_dir-raised false b true h = refl
set_dir-raised a b false h = absurd (cc)

set_dir-lowered : (a b c : Bool) → b ≡ true → c ≡ false → (a && not b || c) ≡ false
set_dir-lowered true true false h k = refl
set_dir-lowered false b false h k = refl
set_dir-lowered true false false h k = absurd (cc)
set_dir-lowered a b true h k = absurd (cc)

set_dir-kept : (a b c d : Bool) → a ≡ d → b ≡ false → c ≡ false → (a && not b || c) ≡ d
set_dir-kept true false false d e h k = e
set_dir-kept false false false d e h k = e
set_dir-kept a true c d e h k = absurd (cc)
set_dir-kept a b true d e h k = absurd (cc)

-- The pins `BB_I2C_SDA_PIN` and `BB_I2C_SCL_PIN`.
module _ (sda scl : ℕ) where
  unfoldable pub on_gpio : Macro → Gpio → Gpio
  on_gpio low_sda g = gpio_port_set_dir (bit sda) no_bits g
  on_gpio float_sda g = gpio_port_set_dir no_bits (bit sda) g
  on_gpio low_scl g = gpio_port_set_dir (bit scl) no_bits g
  on_gpio float_scl g = gpio_port_set_dir no_bits (bit scl) g

  unfoldable pub gpio_run : List Macro → Gpio → Gpio
  gpio_run [] g = g
  gpio_run (m ∷ ms) g = gpio_run ms (on_gpio m g)

  -- `bb_i2c_init` on the registers.
  unfoldable pub gpio_i2c_init : (Gpio → Bits) → Gpio → Gpio
  gpio_i2c_init levels g =
      gpio_port_set_val levels no_bits (both (bit sda) (bit scl))
        (gpio_port_set_dir no_bits (both (bit sda) (bit scl)) g)

  -- A pin is pulled low where it is an output, and the output register is low there.
  pub record Drives (g : Gpio) (d : Drive) : Type 0 where
    pub sda_out : g.out sda ≡ false
    pub scl_out : g.out scl ≡ false
    pub sda_dir : g.oe sda ≡ d.sda_low
    pub scl_dir : g.oe scl ≡ d.scl_low

  module _ (apart : sda ≢ scl) where
    macro-Drives :
        (m : Macro) (g : Gpio) (p : Port) → Drives g p.now → Drives (on_gpio m g) (on_port m p).now
    unfolding on_gpio gpio_port_set_dir gpio_port_set_dir_all gpio_port_get_dir sda_0 sda_1 scl_0
        scl_1
    macro-Drives low_sda g p h = record {
      sda_out = h.sda_out;
      scl_out = h.scl_out;
      sda_dir = set_dir-raised (g.oe sda) false (sda == sda) (==-refl sda);
      scl_dir =
          set_dir-kept (g.oe scl) false (sda == scl) p.now.scl_low h.scl_dir refl
            (==-ne sda scl apart);
    }
    macro-Drives float_sda g p h = record {
      sda_out = h.sda_out;
      scl_out = h.scl_out;
      sda_dir = set_dir-lowered (g.oe sda) (sda == sda) false (==-refl sda) refl;
      scl_dir =
          set_dir-kept (g.oe scl) (sda == scl) false p.now.scl_low h.scl_dir (==-ne sda scl apart)
            refl;
    }
    macro-Drives low_scl g p h = record {
      sda_out = h.sda_out;
      scl_out = h.scl_out;
      sda_dir =
          set_dir-kept (g.oe sda) false (scl == sda) p.now.sda_low h.sda_dir refl
            (==-ne scl sda (λ e. apart (sym e)));
      scl_dir = set_dir-raised (g.oe scl) false (scl == scl) (==-refl scl);
    }
    macro-Drives float_scl g p h = record {
      sda_out = h.sda_out;
      scl_out = h.scl_out;
      sda_dir =
          set_dir-kept (g.oe sda) (scl == sda) false p.now.sda_low h.sda_dir
            (==-ne scl sda (λ e. apart (sym e))) refl;
      scl_dir = set_dir-lowered (g.oe scl) (scl == scl) false (==-refl scl) refl;
    }

    gpio_run-Drives :
        (ms : List Macro) (g : Gpio) (p : Port)
        → Drives g p.now
        → Drives (gpio_run ms g) (port_run ms p).now
    unfolding gpio_run
    gpio_run-Drives [] g p h = h
    gpio_run-Drives (m ∷ ms) g p h =
        gpio_run-Drives ms (on_gpio m g) (on_port m p) (macro-Drives m g p h)

  or_true : (b : Bool) → (b || true) ≡ true
  or_true true = refl
  or_true false = refl

  init-Drives :
      (levels : Gpio → Bits) (g : Gpio) (p : Port)
      → Drives (gpio_i2c_init levels g) (bb_i2c_init p).now
  unfolding gpio_i2c_init gpio_port_set_val gpio_port_set_all gpio_port_get_val gpio_port_set_dir
      gpio_port_set_dir_all gpio_port_get_dir bb_i2c_init release_both
  init-Drives levels g p =
      let dir = gpio_port_set_dir no_bits (both (bit sda) (bit scl)) g in
      let on_sda : both (bit sda) (bit scl) sda ≡ true =
        ap (λ b. b || (scl == sda)) (==-refl sda) in
      let on_scl : both (bit sda) (bit scl) scl ≡ true =
        ap (λ b. (sda == scl) || b) (==-refl scl) ∙ or_true (sda == scl) in
      record {
        sda_out = set_dir-lowered (levels dir sda) (both (bit sda) (bit scl) sda) false on_sda refl;
        scl_out = set_dir-lowered (levels dir scl) (both (bit sda) (bit scl) scl) false on_scl refl;
        sda_dir = set_dir-lowered (g.oe sda) (both (bit sda) (bit scl) sda) false on_sda refl;
        scl_dir = set_dir-lowered (g.oe scl) (both (bit sda) (bit scl) scl) false on_scl refl;
      }

  -- Behind the initialisation and any sequence of the four macros, a port's registers pull exactly the
  -- lines low that the model of the two pins has low, whatever the port held and its inputs show, if
  -- the two pins differ.
  pub gpio_run-port_run :
      (levels : Gpio → Bits) (ms : List Macro) (g : Gpio) (p : Port)
      → sda ≢ scl
      → Drives (gpio_run ms (gpio_i2c_init levels g)) (port_run ms (bb_i2c_init p)).now
  gpio_run-port_run levels ms g p apart =
      gpio_run-Drives apart ms (gpio_i2c_init levels g) (bb_i2c_init p) (init-Drives levels g p)

-- Setting and clearing pins also copies the level of each input pin outside of both masks to the output
-- register, which it then drives when it becomes an output.
pub gpio_port_set_val-latches :
    (levels : Gpio → Bits) (set_mask unset_mask : Bits) (g : Gpio) (i : ℕ)
    → set_mask i ≡ false
    → unset_mask i ≡ false
    → (gpio_port_set_val levels set_mask unset_mask g).out i ≡ levels g i
unfolding gpio_port_set_val gpio_port_set_all gpio_port_get_val
gpio_port_set_val-latches levels set_mask unset_mask g i hs hu =
    set_dir-kept (levels g i) (unset_mask i) (set_mask i) (levels g i) refl hu hs
