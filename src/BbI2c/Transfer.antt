-- ===== src/BbI2c/Transfer.antt =====
-- The transactions of application/libhw/i2c.c on the two lines of application/libhw/bb_i2c.c.
use or1k_spartan6_platform_x.Base.{
  ℕ, ◌+◌, ◌*◌, ◌<◌, ◌≤◌, ◌≡◌, ◌≢◌, refl, sym, subst, ap, ◌∙◌, arith, List, length, AllBytes,
}
use or1k_spartan6_platform_x.Base.Memory.{Memory, write_block, read_block-write_block}
use or1k_spartan6_platform_x.I2c.{
  rsp_done, rsp_nak, Commands, address, finish, select, i2c_read_bus, i2c_read_bus_mul,
  i2c_write_bus, i2c_write_bus_mul,
}
use or1k_spartan6_platform_x.I2c.Slave.{
  unaddressed, Rests, i2c_write_bus_mul-write_block, i2c_read_bus_mul-read_block,
}
use or1k_spartan6_platform_x.BbI2c.{Port, bb_commands}
use or1k_spartan6_platform_x.BbI2c.Chip.{Chip, answers, unheld}
use or1k_spartan6_platform_x.BbI2c.OnWire.{OnWire, refused-OnWire}
use or1k_spartan6_platform_x.BbI2c.Conditions.{starts-OnWire, stops-OnWire}
use or1k_spartan6_platform_x.BbI2c.Law.{bb_commands-HasSlave}

module _ (sa : ℕ) (c : Chip) where
  abbrev wire : Commands Port
  wire = bb_commands (answers sa c) unheld

  -- Bytes that i2c_write_bus_mul sends over the two lines are what i2c_read_bus_mul brings back over
  -- them, both are done, and the slave rests behind them with these bytes in its registers: the slave
  -- follows the rules of the bus, has an address of seven bits and rests before, the block is not
  -- empty, its registers have numbers below 256, and the buffer has its size.
  pub i2c_read_bus_mul-i2c_write_bus_mul :
      (a : ℕ) (bs d : List ℕ) (p : Port) (r : Memory)
      → sa < 128
      → Rests (OnWire sa c) p r
      → 0 < length bs
      → a + length bs ≤ 256
      → AllBytes bs
      → length d ≡ length bs
      → (t : Port) × (u : Port) × (i2c_write_bus_mul (bb_commands (answers sa c) unheld) sa a bs p
          ≡ (rsp_done, t))
        × (i2c_read_bus_mul (bb_commands (answers sa c) unheld) sa a d (length bs) t
            ≡ (rsp_done, bs, u))
        × Rests (OnWire sa c) u (write_block r a bs)
  i2c_read_bus_mul-i2c_write_bus_mul a bs d p r small rests pos fits bytes room =
      let law = bb_commands-HasSlave sa c small 256 (omega arith) in
      let (t, wrote, stored) =
        i2c_write_bus_mul-write_block wire sa 256 (OnWire sa c) law a bs p r rests (omega arith)
          fits bytes in
      let (u, read, kept) =
        i2c_read_bus_mul-read_block wire sa 256 (OnWire sa c) law a (length bs) d t
          (write_block r a bs) stored room pos fits in
      (t, u, wrote, read ∙ ap (λ l. (rsp_done, l, u)) (read_block-write_block r a bs), kept)

  -- The bus behind a start, the address for writing and a stop.
  abbrev pub behind_address : ℕ → Port → Port
  behind_address other p =
      let cmds = bb_commands (answers sa c) unheld in
      (cmds.stop (cmds.write (other * 2) (cmds.start p).1).1).1

  -- A transaction with another address of seven bits ends with rsp_nak, has done nothing on the bus but
  -- a start, the byte of the address and a stop, stores nothing in the buffer and leaves the slave at
  -- rest with its registers.
  pub i2c_transactions-absent :
      (other a b n : ℕ) (bs d : List ℕ) (p : Port) (r : Memory)
      → sa < 128
      → other < 128
      → other ≢ sa
      → Rests (OnWire sa c) p r
      → let t = behind_address other p in
        (i2c_write_bus_mul (bb_commands (answers sa c) unheld) other a bs p ≡ (rsp_nak, t))
        × (i2c_write_bus (bb_commands (answers sa c) unheld) other a b p ≡ (rsp_nak, t))
        × (i2c_read_bus_mul (bb_commands (answers sa c) unheld) other a d n p ≡ (rsp_nak, d, t))
        × (i2c_read_bus (bb_commands (answers sa c) unheld) other a d p ≡ (rsp_nak, d, t))
        × Rests (OnWire sa c) t r
  unfolding bb_commands i2c_write_bus_mul i2c_write_bus i2c_read_bus_mul i2c_read_bus finish select
  i2c_transactions-absent other a b n bs d p r small small' apart (q, at) =
      let w : address wire other 0 ≡ other * 2 = omega arith in
      let (s1, run1, at1) = starts-OnWire sa c unaddressed q r p tt at in
      let (s2, run2, at2) =
        refused-OnWire sa c q (address wire other 0) r s1 (omega arith) (λ e. apart (omega arith))
          (λ e. absurd (omega arith)) at1 in
      let first : behind_address other p ≡ (wire.stop s2).1 =
        ap (λ k. (wire.stop (wire.write k (wire.start p).1).1).1) (sym w)
        ∙ ap (λ x. (wire.stop (wire.write (address wire other 0) x.1).1).1) run1
        ∙ ap (λ x. (wire.stop x.1).1) run2 in
      (
        rw (run1, run2) refl ∙ ap (λ t. (rsp_nak, t)) (sym first),
        rw (run1, run2) refl ∙ ap (λ t. (rsp_nak, t)) (sym first),
        rw (run1, run2) refl ∙ ap (λ t. (rsp_nak, d, t)) (sym first),
        rw (run1, run2) refl ∙ ap (λ t. (rsp_nak, d, t)) (sym first),
        subst (λ t. Rests (OnWire sa c) t r) (sym first)
            (q, stops-OnWire sa c unaddressed q r s2 tt at2),
      )
