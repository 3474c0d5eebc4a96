-- ===== src/BbI2c/Wire.antt =====
-- What the slave of BbI2c.Chip sees of the primitives and the bits of application/libhw/bb_i2c.c.
use or1k_spartan6_platform_x.Base.{
  ℕ, zero, suc, ◌+◌, ◌*◌, ◌/◌, ◌%◌, ◌^◌, ◌<◌, ◌≡◌, Bool, true, false, ◌&&◌, not, refl, ap, subst,
  ◌∙◌, u8, ◌==◌, if◌then◌else◌,
}
use or1k_spartan6_platform_x.Base.Below.{same_below, same_below_lem}
use or1k_spartan6_platform_x.I2c.Slave.{Slave}
use or1k_spartan6_platform_x.BbI2c.{
  Drive, Port, drive, release_both, sda_0, sda_1, scl_0, scl_1, write_bits, sda_status,
}
use or1k_spartan6_platform_x.BbI2c.Receiver.{bit, pulse}
use or1k_spartan6_platform_x.BbI2c.Chip.{
  Act, taking, Chip, pulls, see, last_drive, chip_of, answers, unheld,
}

abbrev pub lines : Bool → Bool → Drive
lines a b = record { sda_low = a; scl_low = b }

abbrev pub chip : Act → Slave → Chip
chip a v = record { act = a; view = v }

-- The bits of a byte, taken and given.
unfoldable pub taken : ℕ → ℕ → ℕ → ℕ
taken zero n w = w
taken (suc left) n w = taken left (u8 (n * 2)) (2 * w + bit (n / 2 ^ 7 % 2 == 1))

unfoldable pub given : ℕ → ℕ → ℕ → ℕ
given zero w val = val
given (suc left) w val =
    given left (u8 (w * 2)) (if w / 2 ^ 7 % 2 == 1 then u8 (val * 2) + 1 else u8 (val * 2))

taken_table : same_below 256 (λ n. taken 8 n 0) (λ n. n) ≡ true
unfolding same_below taken
taken_table = refl

given_table : same_below 256 (λ n. given 8 n 0) (λ n. n) ≡ true
unfolding same_below given
given_table = refl

pub taken_byte : (n : ℕ) → n < 256 → taken 8 n 0 ≡ n
taken_byte n h = same_below_lem 256 (λ k. taken 8 k 0) (λ k. k) n taken_table h

pub given_byte : (n : ℕ) → n < 256 → given 8 n 0 ≡ n
given_byte n h = same_below_lem 256 (λ k. given 8 k 0) (λ k. k) n given_table h

module _ (sa : ℕ) (c : Chip) where
  -- The master drives `d` and the slave, which began as `c`, is `k`.
  abbrev pub Sees : Port → Drive → Chip → Type 0
  Sees p d k = (p.now ≡ d) × (last_drive p.trace ≡ d) × (chip_of sa c p.trace ≡ k)

  driven :
      (f : Drive → Drive) (p : Port) (d : Drive) (k : Chip)
      → Sees p d k
      → Sees (drive (f p.now) p) (f d) (see sa d.scl_low (f d).scl_low d (f d) k)
  unfolding chip_of
  driven f p d k (now, last, is) =
      subst (λ x. Sees (drive (f p.now) p) x (see sa d.scl_low x.scl_low d x k)) (ap f now)
        (
          refl,
          refl,
          ap (λ x. see sa x.scl_low (f p.now).scl_low x (f p.now) (chip_of sa c p.trace)) last
              ∙ ap (λ x. see sa d.scl_low (f p.now).scl_low d (f p.now) x) is,
        )

  pub sda_0-Sees :
      (p : Port) (d : Drive) (k : Chip)
      → Sees p d k
      → Sees
          (sda_0 p)
          (lines true d.scl_low)
          (see sa d.scl_low d.scl_low d (lines true d.scl_low) k)
  unfolding sda_0
  sda_0-Sees p d k s = driven (λ x. record x { sda_low = true }) p d k s

  pub sda_1-Sees :
      (p : Port) (d : Drive) (k : Chip)
      → Sees p d k
      → Sees
          (sda_1 p)
          (lines false d.scl_low)
          (see sa d.scl_low d.scl_low d (lines false d.scl_low) k)
  unfolding sda_1
  sda_1-Sees p d k s = driven (λ x. record x { sda_low = false }) p d k s

  pub scl_0-Sees :
      (p : Port) (d : Drive) (k : Chip)
      → Sees p d k
      → Sees (scl_0 p) (lines d.sda_low true) (see sa d.scl_low true d (lines d.sda_low true) k)
  unfolding scl_0
  scl_0-Sees p d k s = driven (λ x. record x { scl_low = true }) p d k s

  pub scl_1-Sees :
      (p : Port) (d : Drive) (k : Chip)
      → Sees p d k
      → Sees (scl_1 p) (lines d.sda_low false) (see sa d.scl_low false d (lines d.sda_low false) k)
  unfolding scl_1
  scl_1-Sees p d k s = driven (λ x. record x { scl_low = false }) p d k s

  pub released-Sees :
      (p : Port) (d : Drive) (k : Chip)
      → Sees p d k
      → Sees (release_both p) (lines false false) (see sa d.scl_low false d (lines false false) k)
  unfolding release_both
  released-Sees p d k s = driven (λ x. lines false false) p d k s

  -- The level that the master samples.
  pub sda_status-Sees :
      (p : Port) (a b : Bool) (k : Chip)
      → Sees p (lines a b) k
      → sda_status (answers sa c) unheld p ≡ (not a && not (pulls k.act))
  unfolding sda_status answers
  sda_status-Sees p a b k (now, last, is) =
      ap (λ d. not d.sda_low && not (pulls (chip_of sa c p.trace).act)) now
      ∙ ap (λ x. not a && not (pulls x.act)) is

  -- A slave that takes a byte takes a bit at a clock pulse.
  pulse-Sees :
      (bt : Bool) (left w : ℕ) (v : Slave) (p : Port) (a b : Bool)
      → Sees p (lines a b) (chip (taking (suc left) w) v)
      → Sees (pulse bt p) (lines (not bt) false) (chip (taking left (2 * w + bit bt)) v)
  pulse-Sees true left w v p a true s =
      let s1 = scl_0-Sees p (lines a true) (chip (taking (suc left) w) v) s in
      let s2 = sda_1-Sees (scl_0 p) (lines a true) (chip (taking (suc left) w) v) s1 in
      scl_1-Sees (sda_1 (scl_0 p)) (lines false true) (chip (taking (suc left) w) v) s2
  pulse-Sees true left w v p a false s =
      let s1 = scl_0-Sees p (lines a false) (chip (taking (suc left) w) v) s in
      let s2 = sda_1-Sees (scl_0 p) (lines a true) (chip (taking (suc left) w) v) s1 in
      scl_1-Sees (sda_1 (scl_0 p)) (lines false true) (chip (taking (suc left) w) v) s2
  pulse-Sees false left w v p a true s =
      let s1 = scl_0-Sees p (lines a true) (chip (taking (suc left) w) v) s in
      let s2 = sda_0-Sees (scl_0 p) (lines a true) (chip (taking (suc left) w) v) s1 in
      scl_1-Sees (sda_0 (scl_0 p)) (lines true true) (chip (taking (suc left) w) v) s2
  pulse-Sees false left w v p a false s =
      let s1 = scl_0-Sees p (lines a false) (chip (taking (suc left) w) v) s in
      let s2 = sda_0-Sees (scl_0 p) (lines a true) (chip (taking (suc left) w) v) s1 in
      scl_1-Sees (sda_0 (scl_0 p)) (lines true true) (chip (taking (suc left) w) v) s2

  rounds-Sees :
      (left n w : ℕ) (v : Slave) (p : Port) (a : Bool)
      → Sees p (lines a false) (chip (taking left w) v)
      → (z : Bool) × Sees
          (write_bits left n p)
          (lines z false)
          (chip (taking zero (taken left n w)) v)
  unfolding write_bits taken
  rounds-Sees zero n w v p a s = (a, s)
  rounds-Sees (suc left) n w v p a s =
      rounds-Sees left (u8 (n * 2)) (2 * w + bit (n / 2 ^ 7 % 2 == 1)) v
        (pulse (n / 2 ^ 7 % 2 == 1) p) (not (n / 2 ^ 7 % 2 == 1))
        (pulse-Sees (n / 2 ^ 7 % 2 == 1) left w v p a false s)

  -- A slave that expects a byte has it behind its last bit, and SCL is high.
  pub write_bits-Sees :
      (n : ℕ) (v : Slave) (p : Port) (a b : Bool)
      → n < 256
      → Sees p (lines a b) (chip (taking 8 0) v)
      → (z : Bool) × Sees (write_bits 8 n p) (lines z false) (chip (taking zero n) v)
  unfolding write_bits taken
  write_bits-Sees n v p a b h s =
      let bt = n / 2 ^ 7 % 2 == 1 in
      let (z, end) =
        rounds-Sees 7 (u8 (n * 2)) (2 * 0 + bit bt) v (pulse bt p) (not bt)
          (pulse-Sees bt 7 0 v p a b s) in
      (
        z,
        subst (λ w. Sees (write_bits 8 n p) (lines z false) (chip (taking zero w) v))
            (taken_byte n h) end,
      )
