-- ===== src/BbI2c/Reading.antt =====
-- The bytes that a slave gives to `bb_i2c_cmd_read_com` of application/libhw/bb_i2c.c.
use or1k_spartan6_platform_x.Base.{
  ℕ, zero, suc, ◌+◌, ◌*◌, ◌/◌, ◌%◌, ◌^◌, ◌<◌, ◌≡◌, Bool, true, false, not, refl, ap, ◌∙◌, u8, ◌==◌,
  if◌then◌else◌,
}
use or1k_spartan6_platform_x.I2c.Slave.{Slave}
use or1k_spartan6_platform_x.BbI2c.{Port, scl_0, scl_1, read_bits, bb_i2c_cmd_read_com}
use or1k_spartan6_platform_x.BbI2c.Chip.{giving, looking, Chip, answers, unheld}
use or1k_spartan6_platform_x.BbI2c.Wire.{
  lines, chip, given, given_byte, Sees, scl_0-Sees, scl_1-Sees, sda_status-Sees,
}

not-not : (b : Bool) → not (not b) ≡ b
not-not true = refl
not-not false = refl

module _ (sa : ℕ) (c : Chip) where
  -- A slave that gives a byte gives a bit at a clock pulse.
  give-Sees :
      (left w val : ℕ) (v : Slave) (p : Port)
      → Sees sa c (scl_0 p) (lines false true) (chip (giving left w) v)
      → (q : Port) × (z : ℕ) × (read_bits (answers sa c) unheld (suc left) val p
          ≡ (given (suc left) w val, q))
        × Sees sa c q (lines false false) (chip (giving zero z) v)
  unfolding read_bits given
  give-Sees zero w val v p s =
      let up = scl_1-Sees sa c (scl_0 p) (lines false true) (chip (giving zero w) v) s in
      let level =
        sda_status-Sees sa c (scl_1 (scl_0 p)) false false (chip (giving zero w) v) up
        ∙ not-not (w / 2 ^ 7 % 2 == 1) in
      let room = u8 (val * 2) in
      (scl_1 (scl_0 p), w, ap (λ b. (if b then room + 1 else room, scl_1 (scl_0 p))) level, up)
  give-Sees (suc left) w val v p s =
      let p1 = scl_1 (scl_0 p) in
      let up = scl_1-Sees sa c (scl_0 p) (lines false true) (chip (giving (suc left) w) v) s in
      let level =
        sda_status-Sees sa c p1 false false (chip (giving (suc left) w) v) up
        ∙ not-not (w / 2 ^ 7 % 2 == 1) in
      let room = u8 (val * 2) in
      let next = if w / 2 ^ 7 % 2 == 1 then room + 1 else room in
      let (q, z, run, end) =
        give-Sees left (u8 (w * 2)) next v p1
          (scl_0-Sees sa c p1 (lines false false) (chip (giving (suc left) w) v) up) in
      (
        q,
        z,
        ap (λ b. read_bits (answers sa c) unheld (suc left) (if b then room + 1 else room) p1) level
            ∙ run,
        end,
      )

  -- A byte that the slave gives is read, and the slave looks for the acknowledgement then.
  pub read_com-Sees :
      (w : ℕ) (v : Slave) (p : Port)
      → w < 256
      → Sees sa c p (lines false true) (chip (giving 7 w) v)
      → (q : Port) × (bb_i2c_cmd_read_com (answers sa c) unheld p ≡ (w, q))
        × Sees sa c q (lines false true) (chip looking (record v { pointer = suc v.pointer }))
  unfolding bb_i2c_cmd_read_com
  read_com-Sees w v p h s =
      let (q, z, run, end) =
        give-Sees 7 w 0 v p (scl_0-Sees sa c p (lines false true) (chip (giving 7 w) v) s) in
      (
        scl_0 q,
        ap (λ x. (x.0, scl_0 x.1)) (run ∙ ap (λ x. (x, q)) (given_byte w h)),
        scl_0-Sees sa c q (lines false false) (chip (giving zero z) v) end,
      )
