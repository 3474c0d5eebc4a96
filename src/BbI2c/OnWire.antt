-- ===== src/BbI2c/OnWire.antt =====
-- The commands of application/libhw/bb_i2c.c on the two lines, with a slave at the other end.
use or1k_spartan6_platform_x.Base.{
  ℕ, zero, suc, ◌+◌, ◌*◌, ◌<◌, ◌≡◌, ◌≢◌, Bool, true, false, ◌&&◌, not, refl, ap, subst, some, ==-ne,
  if◌then◌else◌,
}
use or1k_spartan6_platform_x.Base.Memory.{Memory, AllByteCells}
use or1k_spartan6_platform_x.I2c.{rsp_done, rsp_nak}
use or1k_spartan6_platform_x.I2c.Slave.{
  Phase, unaddressed, addressing, selecting, writing, reading, Slave, slave,
}
use or1k_spartan6_platform_x.BbI2c.{
  Drive, Port, bb_i2c_init, release_both, sda_0, sda_1, scl_0, scl_1, write_bits, bb_i2c_cmd_write,
  finalise_read_com, bb_i2c_cmd_read_ack, bb_i2c_cmd_read_nak,
}
use or1k_spartan6_platform_x.BbI2c.Chip.{
  Act, away, taking, acking, giving, looking, more, Chip, fresh, accept, acked, fall, rise, pulls,
  answers, unheld,
}
use or1k_spartan6_platform_x.BbI2c.Reading.{read_com-Sees}
use or1k_spartan6_platform_x.BbI2c.Wire.{
  lines, chip, Sees, sda_0-Sees, sda_1-Sees, scl_0-Sees, scl_1-Sees, released-Sees, sda_status-Sees,
  write_bits-Sees,
}

-- What the master drives between two commands. Behind a transaction SCL may be low or high.
abbrev pub rest_lines : Phase → Bool → Drive
rest_lines unaddressed b = lines false b
rest_lines addressing b = lines true false
rest_lines selecting b = lines false true
rest_lines writing b = lines false true
rest_lines reading b = lines false true

abbrev pub rest_act : Phase → ℕ → Memory → Act
rest_act unaddressed p r = away
rest_act addressing p r = fresh
rest_act selecting p r = fresh
rest_act writing p r = fresh
rest_act reading p r = giving 7 (r p)

module _ (sa : ℕ) (c : Chip) where
  -- The port stands between two commands, the slave at the other end is `v`, and its registers hold
  -- bytes.
  abbrev pub OnWire : Port → Slave → Type 0
  OnWire p v =
      (b : Bool) × Sees sa c p (rest_lines v.phase b) (chip (rest_act v.phase v.pointer v.regs) v)
      × AllByteCells v.regs

  -- Behind a whole byte the master samples whether the slave acknowledges it.
  cmd_write-Sees :
      (n : ℕ) (v : Slave) (k : Chip) (p : Port) (a b : Bool)
      → n < 256
      → accept sa v.phase n v ≡ k
      → rise (not false && not (pulls k.act)) k.act k.view ≡ k
      → Sees sa c p (lines a b) (chip fresh v)
      → (t : Port) × (bb_i2c_cmd_write (answers sa c) unheld n p
          ≡ (if not (pulls k.act) then rsp_nak else rsp_done, t))
        × Sees sa c t (lines false true) (fall sa k.act k.view)
  unfolding bb_i2c_cmd_write
  cmd_write-Sees n v k p a b h takes stays s =
      let p8 = write_bits 8 n p in
      let (z, s8) = write_bits-Sees sa c n v p a b h s in
      let s9 : Sees sa c (scl_0 p8) (lines z true) k =
        subst (λ x. Sees sa c (scl_0 p8) (lines z true) x) takes
          (scl_0-Sees sa c p8 (lines z false) (chip (taking zero n) v) s8) in
      let s10 = sda_1-Sees sa c (scl_0 p8) (lines z true) k s9 in
      let p11 = scl_1 (sda_1 (scl_0 p8)) in
      let s11 : Sees sa c p11 (lines false false) k =
        subst (λ x. Sees sa c p11 (lines false false) x) stays
          (scl_1-Sees sa c (sda_1 (scl_0 p8)) (lines false true) k s10) in
      (
        scl_0 p11,
        ap (λ l. (if l then rsp_nak else rsp_done, scl_0 p11))
            (sda_status-Sees sa c p11 false false k s11),
        scl_0-Sees sa c p11 (lines false false) k s11,
      )

  -- Starting the bus leaves a slave that rests alone.
  pub bb_i2c_init-OnWire :
      (p : ℕ) (r : Memory) (s : Port)
      → OnWire s (slave unaddressed p r)
      → OnWire (bb_i2c_init s) (slave unaddressed p r)
  unfolding bb_i2c_init release_both
  bb_i2c_init-OnWire p r s (true, sees, bytes) = (
    false,
    released-Sees sa c s (lines false true) (chip away (slave unaddressed p r)) sees,
    bytes,
  )
  bb_i2c_init-OnWire p r s (false, sees, bytes) = (
    false,
    released-Sees sa c s (lines false false) (chip away (slave unaddressed p r)) sees,
    bytes,
  )

  pub writes-OnWire :
      (f : Phase) (p n : ℕ) (r : Memory) (s : Port) (b : Bool) (v' : Slave)
      → rest_act f p r ≡ fresh
      → n < 256
      → accept sa f n (slave f p r) ≡ chip acking v'
      → Sees sa c s (rest_lines f b) (chip (rest_act f p r) (slave f p r))
      → (t : Port) × (bb_i2c_cmd_write (answers sa c) unheld n s ≡ (rsp_done, t))
        × Sees sa c t (lines false true) (acked v'.phase v')
  writes-OnWire f p n r s b v' ready h takes sees =
      cmd_write-Sees n (slave f p r) (chip acking v') s (rest_lines f b).sda_low
        (rest_lines f b).scl_low h takes refl
        (subst (λ a. Sees sa c s (rest_lines f b) (chip a (slave f p r))) ready sees)

  -- An address that is not the slave's is not acknowledged.
  pub refused-OnWire :
      (p n : ℕ) (r : Memory) (s : Port)
      → n < 256
      → n ≢ sa * 2
      → n ≢ sa * 2 + 1
      → OnWire s (slave addressing p r)
      → (t : Port) × (bb_i2c_cmd_write (answers sa c) unheld n s ≡ (rsp_nak, t))
        × OnWire t (slave unaddressed p r)
  refused-OnWire p n r s h other other' (b, sees, bytes) =
      let (t, run, s1) =
        cmd_write-Sees n (slave addressing p r) (chip away (slave unaddressed p r)) s true false h
          (rw (==-ne n (sa * 2) other, ==-ne n (sa * 2 + 1) other') refl) refl sees in
      (t, run, (true, s1, bytes))

  -- The byte that a read command brings is the slave's, which goes on to the next one behind an
  -- acknowledgement.
  pub fetches_ack-OnWire :
      (p : ℕ) (r : Memory) (s : Port)
      → OnWire s (slave reading p r)
      → (t : Port) × (bb_i2c_cmd_read_ack (answers sa c) unheld s ≡ (rsp_done, some (r p), t))
        × OnWire t (slave reading (suc p) r)
  unfolding bb_i2c_cmd_read_ack finalise_read_com
  fetches_ack-OnWire p r s (b, sees, bytes) =
      let v = slave reading (suc p) r in
      let (q, run, s1) = read_com-Sees sa c (r p) (slave reading p r) s (bytes p) sees in
      let s2 = sda_0-Sees sa c q (lines false true) (chip looking v) s1 in
      let s3 = scl_1-Sees sa c (sda_0 q) (lines true true) (chip looking v) s2 in
      let s4 = scl_0-Sees sa c (scl_1 (sda_0 q)) (lines true false) (chip more v) s3 in
      (
        sda_1 (scl_0 (scl_1 (sda_0 q))),
        ap (λ x. (rsp_done, some x.0, sda_1 (scl_0 (scl_1 (sda_0 x.1))))) run,
        (
          b,
          sda_1-Sees sa c (scl_0 (scl_1 (sda_0 q))) (lines true true)
              (chip (giving 7 (r (suc p))) v) s4,
          bytes,
        ),
      )

  pub fetches_nak-OnWire :
      (p : ℕ) (r : Memory) (s : Port)
      → OnWire s (slave reading p r)
      → (t : Port) × (bb_i2c_cmd_read_nak (answers sa c) unheld s ≡ (rsp_done, some (r p), t))
        × OnWire t (slave unaddressed (suc p) r)
  unfolding bb_i2c_cmd_read_nak finalise_read_com
  fetches_nak-OnWire p r s (b, sees, bytes) =
      let v = slave reading (suc p) r in
      let v' = slave unaddressed (suc p) r in
      let (q, run, s1) = read_com-Sees sa c (r p) (slave reading p r) s (bytes p) sees in
      let s2 = sda_1-Sees sa c q (lines false true) (chip looking v) s1 in
      let s3 = scl_1-Sees sa c (sda_1 q) (lines false true) (chip looking v) s2 in
      let s4 = scl_0-Sees sa c (scl_1 (sda_1 q)) (lines false false) (chip away v') s3 in
      (
        sda_1 (scl_0 (scl_1 (sda_1 q))),
        ap (λ x. (rsp_done, some x.0, sda_1 (scl_0 (scl_1 (sda_1 x.1))))) run,
        (
          true,
          sda_1-Sees sa c (scl_0 (scl_1 (sda_1 q))) (lines false true) (chip away v') s4,
          bytes,
        ),
      )
