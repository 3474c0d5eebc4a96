-- ===== src/BbI2c/Law.antt =====
-- The commands of application/libhw/bb_i2c.c as those of a bus with a slave.
use or1k_spartan6_platform_x.Base.{
  ℕ, suc, ◌+◌, ◌*◌, ◌<◌, ◌≤◌, ◌≡◌, false, refl, arith, ==-ne, ==-refl,
}
use or1k_spartan6_platform_x.Base.Memory.{Memory, update, update-AllByteCells}
use or1k_spartan6_platform_x.I2c.{Commands, address}
use or1k_spartan6_platform_x.I2c.Slave.{addressing, selecting, writing, reading, slave, HasSlave}
use or1k_spartan6_platform_x.BbI2c.{Port, bb_commands}
use or1k_spartan6_platform_x.BbI2c.Chip.{acking, Chip, accept, answers, unheld}
use or1k_spartan6_platform_x.BbI2c.Wire.{chip}
use or1k_spartan6_platform_x.BbI2c.OnWire.{
  OnWire, writes-OnWire, fetches_ack-OnWire, fetches_nak-OnWire,
}
use or1k_spartan6_platform_x.BbI2c.Conditions.{starts-OnWire, stops-OnWire}

module _ (sa : ℕ) (c : Chip) where
  module _ (small : sa < 128) (size : ℕ) (fits : size ≤ 256) where
    wire : Commands Port
    wire = bb_commands (answers sa c) unheld

    accepts_write :
        (p : ℕ) (r : Memory)
        → accept sa addressing (address wire sa 0) (slave addressing p r)
          ≡ chip acking (slave selecting p r)
    accepts_write p r =
        let w : address wire sa 0 ≡ sa * 2 = omega arith in rw (w, ==-refl (sa * 2)) refl

    accepts_read :
        (p : ℕ) (r : Memory)
        → accept sa addressing (address wire sa 1) (slave addressing p r)
          ≡ chip acking (slave reading p r)
    accepts_read p r =
        let w : address wire sa 1 ≡ sa * 2 + 1 = omega arith in
        rw (w, ==-ne (sa * 2 + 1) (sa * 2) (λ e. absurd (omega arith)), ==-refl (sa * 2 + 1)) refl

    -- The commands on the lines keep what the transactions expect of a slave, if its address has seven
    -- bits and the numbers of its registers are bytes.
    pub bb_commands-HasSlave : HasSlave (bb_commands (answers sa c) unheld) sa size (OnWire sa c)
    unfolding bb_commands
    bb_commands-HasSlave = record {
      starts = starts-OnWire sa c;
      stops = stops-OnWire sa c;
      addresses_write = λ p r s at.
          let (t, run, sees) =
            writes-OnWire sa c addressing p (address wire sa 0) r s at.0 (slave selecting p r) refl
              (omega arith) (accepts_write p r) at.1 in
          (t, run, (false, sees, at.2));
      addresses_read = λ p r s at.
          let (t, run, sees) =
            writes-OnWire sa c addressing p (address wire sa 1) r s at.0 (slave reading p r) refl
              (omega arith) (accepts_read p r) at.1 in
          (t, run, (false, sees, at.2));
      selects = λ p b r s at lt.
          let (t, run, sees) =
            writes-OnWire sa c selecting p b r s at.0 (slave writing b r) refl (omega arith) refl
              at.1 in
          (t, run, (false, sees, at.2));
      stores = λ p b r s at lt byte.
          let (t, run, sees) =
            writes-OnWire sa c writing p b r s at.0 (slave writing (suc p) (update r p b)) refl byte
              refl at.1 in
          (t, run, (false, sees, update-AllByteCells r p b at.2 byte));
      fetches_ack = λ p r s at lt. fetches_ack-OnWire sa c p r s at;
      fetches_nak = λ p r s at lt. fetches_nak-OnWire sa c p r s at;
    }
