-- ===== src/BbI2c/Receiver.antt =====
-- What a device on the lines receives from `bb_i2c_cmd_write` (application/libhw/bb_i2c.c).
use or1k_spartan6_platform_x.Base.{
  ℕ, zero, suc, ◌+◌, ◌*◌, ◌/◌, ◌%◌, ◌^◌, ◌<◌, ◌≡◌, Bool, true, false, ◌&&◌, not, List, [], ◌∷◌,
  refl, arith, u8, ◌==◌, if◌then◌else◌, ap, ◌∙◌,
}
use or1k_spartan6_platform_x.BbI2c.{
  Drive, Port, sda_0, sda_1, scl_0, scl_1, write_bits, bb_i2c_cmd_write,
}

-- The bits that a receiver takes at the rising edges of SCL, the last first.
abbrev pub edge : Drive → List Drive → List Bool → List Bool
edge d [] bits = bits
edge d (e ∷ ds) bits = if e.scl_low && not d.scl_low then not d.sda_low ∷ bits else bits

unfoldable pub received : List Drive → List Bool
received [] = []
received (d ∷ ds) = edge d ds (received ds)

-- A bit as a number, and the number of 8 bits, the last first.
abbrev pub bit : Bool → ℕ
bit true = 1
bit false = 0

unfoldable pub byte_of : ℕ → List Bool → ℕ
byte_of zero bits = 0
byte_of (suc n) [] = 0
byte_of (suc n) (b ∷ bits) = bit b + 2 * byte_of n bits

-- The highest `left` bits of a byte, put before others.
unfoldable pub high_bits : ℕ → ℕ → List Bool → List Bool
high_bits zero n bits = bits
high_bits (suc left) n bits = high_bits left (u8 (n * 2)) ((n / 2 ^ 7 % 2 == 1) ∷ bits)

edge-low :
    (d : Drive) (ds : List Drive) (bits : List Bool) → d.scl_low ≡ true → edge d ds bits ≡ bits
edge-low d [] bits h = refl
edge-low d (e ∷ ds) bits h = ground arith

-- A clock pulse with a level on SDA.
abbrev pub pulse : Bool → Port → Port
pulse b p = scl_1 (if b then sda_1 (scl_0 p) else sda_0 (scl_0 p))

received-pulse : (b : Bool) (p : Port) → received (pulse b p).trace ≡ b ∷ received p.trace
unfolding received scl_0 scl_1 sda_0 sda_1
received-pulse true p =
    ap (λ l. true ∷ l)
      (edge-low (record (p.now) { scl_low = true }) p.trace (received p.trace) refl)
received-pulse false p =
    ap (λ l. false ∷ l)
      (edge-low (record (p.now) { scl_low = true }) p.trace (received p.trace) refl)

received-write_bits :
    (left n : ℕ) (p : Port)
    → received (write_bits left n p).trace ≡ high_bits left n (received p.trace)
unfolding write_bits high_bits
received-write_bits zero n p = refl
received-write_bits (suc left) n p =
    received-write_bits left (u8 (n * 2)) (pulse (n / 2 ^ 7 % 2 == 1) p)
    ∙ rw (received-pulse (n / 2 ^ 7 % 2 == 1) p) refl

shift_out : (x : ℕ) → x < 256 → u8 (x * 2) + 256 * bit (x / 2 ^ 7 % 2 == 1) ≡ 2 * x
shift_out x h = ground arith

byte_of-high_bits : (n : ℕ) (bits : List Bool) → n < 256 → byte_of 8 (high_bits 8 n bits) ≡ n
unfolding byte_of high_bits
byte_of-high_bits n bits h =
    let x0 : ℕ = n in
    let x1 : ℕ = u8 (x0 * 2) in
    let x2 : ℕ = u8 (x1 * 2) in
    let x3 : ℕ = u8 (x2 * 2) in
    let x4 : ℕ = u8 (x3 * 2) in
    let x5 : ℕ = u8 (x4 * 2) in
    let x6 : ℕ = u8 (x5 * 2) in
    let x7 : ℕ = u8 (x6 * 2) in
    omega (
      arith,
      shift_out x0 h,
      shift_out x1 (omega arith),
      shift_out x2 (omega arith),
      shift_out x3 (omega arith),
      shift_out x4 (omega arith),
      shift_out x5 (omega arith),
      shift_out x6 (omega arith),
      shift_out x7 (omega arith),
    )

received-released :
    (p : Port) → received (scl_0 (scl_1 (sda_1 (scl_0 p)))).trace ≡ true ∷ received p.trace
unfolding received scl_0 scl_1 sda_1
received-released p =
    ap (λ l. true ∷ l)
      (edge-low (record (p.now) { scl_low = true }) p.trace (received p.trace) refl)

-- A receiver that takes a bit at every rising edge of SCL has received, behind the command, the
-- byte with its highest bit first, and then the released line of the acknowledgement.
pub received-cmd_write :
    (sda scl : List Drive → Bool) (n : ℕ) (p : Port)
    → n < 256
    → (bits : List Bool) × (received (bb_i2c_cmd_write sda scl n p).1.trace ≡ true ∷ bits)
      × (byte_of 8 bits ≡ n)
unfolding bb_i2c_cmd_write
received-cmd_write sda scl n p h = (
  high_bits 8 n (received p.trace),
  received-released (write_bits 8 n p) ∙ ap (λ l. true ∷ l) (received-write_bits 8 n p),
  byte_of-high_bits n (received p.trace) h,
)
