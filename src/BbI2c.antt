-- ===== src/BbI2c.antt =====
-- application/libhw/bb_i2c.c: the bus commands on two open-drain pins of a GPIO port. The port's
-- output register is 0, so a pin pulls its line low where its direction is output. The levels that
-- the other devices leave depend on what was driven so far, and delays are not modelled.
pub mod Receiver
pub mod Chip
pub mod Wire
pub mod Reading
pub mod OnWire
pub mod Conditions
pub mod Law
pub mod Transfer
use or1k_spartan6_platform_x.Base.{
  ℕ, zero, suc, ◌+◌, ◌*◌, ◌/◌, ◌%◌, ◌^◌, Bool, true, false, ◌&&◌, not, List, [], ◌∷◌, Option, none,
  some, u8, ◌==◌, if◌then◌else◌,
}
use or1k_spartan6_platform_x.I2c.{Rsp, rsp_done, rsp_nak, rsp_arb_lost, Commands}

-- Whether SDA and SCL are pulled low.
pub record Drive : Type 0 where
  pub sda_low : Bool
  pub scl_low : Bool

-- The port, and what it drove behind each change, the last first.
pub record Port : Type 0 where
  pub now : Drive
  pub trace : List Drive

abbrev pub drive : Drive → Port → Port
drive d p = record { now = d; trace = d ∷ p.trace }

-- `SDA_0`, `SDA_1`, `SCL_0` and `SCL_1`.
unfoldable pub sda_0 : Port → Port
sda_0 p = drive (record (p.now) { sda_low = true }) p

unfoldable pub sda_1 : Port → Port
sda_1 p = drive (record (p.now) { sda_low = false }) p

unfoldable pub scl_0 : Port → Port
scl_0 p = drive (record (p.now) { scl_low = true }) p

unfoldable pub scl_1 : Port → Port
scl_1 p = drive (record (p.now) { scl_low = false }) p

-- Both pins are inputs.
unfoldable pub release_both : Port → Port
release_both p = drive (record { sda_low = false; scl_low = false }) p

unfoldable pub bb_i2c_init : Port → Port
unfolding release_both
bb_i2c_init p = release_both p

unfoldable pub bb_i2c_disable : Port → Port
unfolding release_both
bb_i2c_disable p = release_both p

-- The rounds of `bb_i2c_cmd_write`, with `left` bits to go.
unfoldable pub write_bits : ℕ → ℕ → Port → Port
write_bits zero n p = p
write_bits (suc left) n p =
    let p1 = scl_0 p in
    write_bits left (u8 (n * 2)) (scl_1 (if n / 2 ^ 7 % 2 == 1 then sda_1 p1 else sda_0 p1))

-- `sda` and `scl` say whether the other devices leave the lines high.
module _ (sda scl : List Drive → Bool) where
  unfoldable pub sda_status : Port → Bool
  sda_status p = not p.now.sda_low && sda p.trace

  unfoldable pub scl_status : Port → Bool
  scl_status p = not p.now.scl_low && scl p.trace

  unfoldable pub bb_i2c_cmd_write : ℕ → Port → Rsp × Port
  bb_i2c_cmd_write n p =
      let p1 = scl_1 (sda_1 (scl_0 (write_bits 8 n p))) in
      (if sda_status p1 then rsp_nak else rsp_done, scl_0 p1)

  -- The rounds of `bb_i2c_cmd_read_com`.
  unfoldable pub read_bits : ℕ → ℕ → Port → ℕ × Port
  read_bits zero val p = (val, p)
  read_bits (suc left) val p =
      let p1 = scl_1 (scl_0 p) in
      let room = u8 (val * 2) in read_bits left (if sda_status p1 then room + 1 else room) p1

  unfoldable pub bb_i2c_cmd_read_com : Port → ℕ × Port
  bb_i2c_cmd_read_com p = let (val, p1) = read_bits 8 0 p in (val, scl_0 p1)

  unfoldable pub finalise_read_com : Port → Port
  finalise_read_com p = sda_1 (scl_0 (scl_1 p))

  unfoldable pub bb_i2c_cmd_read_ack : Port → Rsp × Option ℕ × Port
  bb_i2c_cmd_read_ack p =
      let (val, p1) = bb_i2c_cmd_read_com p in (rsp_done, some val, finalise_read_com (sda_0 p1))

  unfoldable pub bb_i2c_cmd_read_nak : Port → Rsp × Option ℕ × Port
  bb_i2c_cmd_read_nak p =
      let (val, p1) = bb_i2c_cmd_read_com p in (rsp_done, some val, finalise_read_com (sda_1 p1))

  unfoldable pub bb_i2c_cmd_start : Port → Rsp × Port
  bb_i2c_cmd_start p =
      if not (sda_status p)
      then (rsp_arb_lost, p)
      else (rsp_done, sda_0 (if scl_status p then p else scl_1 p))

  unfoldable pub bb_i2c_cmd_stop : Port → Rsp × Port
  bb_i2c_cmd_stop p = (rsp_done, sda_1 (scl_1 (sda_0 p)))

  -- The commands of the bus transactions.
  unfoldable pub bb_commands : Commands Port
  bb_commands = record {
    start = bb_i2c_cmd_start;
    stop = bb_i2c_cmd_stop;
    write = bb_i2c_cmd_write;
    read_ack = bb_i2c_cmd_read_ack;
    read_nak = bb_i2c_cmd_read_nak;
  }
