-- ===== src/BbI2c/Conditions.antt =====
-- The start and stop conditions of application/libhw/bb_i2c.c on the two lines, with a slave at the
-- other end.
use or1k_spartan6_platform_x.Base.{ℕ, ◌≡◌, true, false, ◌&&◌, not, refl, ap, ◌∙◌, if◌then◌else◌}
use or1k_spartan6_platform_x.Base.Memory.{Memory}
use or1k_spartan6_platform_x.I2c.{rsp_done, rsp_arb_lost}
use or1k_spartan6_platform_x.I2c.Slave.{
  Phase, unaddressed, addressing, selecting, writing, reading, slave, IsFree,
}
use or1k_spartan6_platform_x.BbI2c.{
  Drive, Port, sda_0, scl_1, scl_status, bb_i2c_cmd_start, bb_i2c_cmd_stop,
}
use or1k_spartan6_platform_x.BbI2c.Chip.{away, taking, Chip, fresh, pulls, answers, unheld}
use or1k_spartan6_platform_x.BbI2c.Wire.{
  lines, chip, Sees, sda_0-Sees, sda_1-Sees, scl_1-Sees, sda_status-Sees,
}
use or1k_spartan6_platform_x.BbI2c.OnWire.{OnWire}

module _ (sa : ℕ) (c : Chip) where
  start_run_low :
      (k : Chip) (p : Port)
      → pulls k.act ≡ false
      → Sees sa c p (lines false true) k
      → bb_i2c_cmd_start (answers sa c) unheld p ≡ (rsp_done, sda_0 (scl_1 p))
  unfolding bb_i2c_cmd_start scl_status
  start_run_low k p free s =
      let level = sda_status-Sees sa c p false true k s ∙ ap (λ l. not l) free in
      ap
        (λ l.
          if not l
          then (rsp_arb_lost, p)
          else (rsp_done, sda_0 (if not p.now.scl_low && true then p else scl_1 p)))
        level
      ∙ ap (λ (d : Drive). (rsp_done, sda_0 (if not d.scl_low && true then p else scl_1 p))) s.0

  start_run_high :
      (k : Chip) (p : Port)
      → pulls k.act ≡ false
      → Sees sa c p (lines false false) k
      → bb_i2c_cmd_start (answers sa c) unheld p ≡ (rsp_done, sda_0 p)
  unfolding bb_i2c_cmd_start scl_status
  start_run_high k p free s =
      let level = sda_status-Sees sa c p false false k s ∙ ap (λ l. not l) free in
      ap
        (λ l.
          if not l
          then (rsp_arb_lost, p)
          else (rsp_done, sda_0 (if not p.now.scl_low && true then p else scl_1 p)))
        level
      ∙ ap (λ (d : Drive). (rsp_done, sda_0 (if not d.scl_low && true then p else scl_1 p))) s.0

  -- A start, also a repeated one, is seen as such.
  pub starts-OnWire :
      (f : Phase) (p : ℕ) (r : Memory) (s : Port)
      → IsFree f
      → OnWire sa c s (slave f p r)
      → (t : Port) × (bb_i2c_cmd_start (answers sa c) unheld s ≡ (rsp_done, t))
        × OnWire sa c t (slave addressing p r)
  starts-OnWire unaddressed p r s free (true, sees, bytes) =
      let k = chip away (slave unaddressed p r) in
      let up = scl_1-Sees sa c s (lines false true) k sees in
      (
        sda_0 (scl_1 s),
        start_run_low k s refl sees,
        (false, sda_0-Sees sa c (scl_1 s) (lines false false) k up, bytes),
      )
  starts-OnWire unaddressed p r s free (false, sees, bytes) =
      let k = chip away (slave unaddressed p r) in
      (
        sda_0 s,
        start_run_high k s refl sees,
        (false, sda_0-Sees sa c s (lines false false) k sees, bytes),
      )
  starts-OnWire selecting p r s free (b, sees, bytes) =
      let v = slave selecting p r in
      let up = scl_1-Sees sa c s (lines false true) (chip fresh v) sees in
      (
        sda_0 (scl_1 s),
        start_run_low (chip fresh v) s refl sees,
        (false, sda_0-Sees sa c (scl_1 s) (lines false false) (chip (taking 7 1) v) up, bytes),
      )
  starts-OnWire writing p r s free (b, sees, bytes) =
      let v = slave writing p r in
      let up = scl_1-Sees sa c s (lines false true) (chip fresh v) sees in
      (
        sda_0 (scl_1 s),
        start_run_low (chip fresh v) s refl sees,
        (false, sda_0-Sees sa c (scl_1 s) (lines false false) (chip (taking 7 1) v) up, bytes),
      )
  starts-OnWire addressing p r s free at = absurd free
  starts-OnWire reading p r s free at = absurd free

  pub stops-OnWire :
      (f : Phase) (p : ℕ) (r : Memory) (s : Port)
      → IsFree f
      → OnWire sa c s (slave f p r)
      → OnWire sa c (bb_i2c_cmd_stop (answers sa c) unheld s).1 (slave unaddressed p r)
  unfolding bb_i2c_cmd_stop
  stops-OnWire unaddressed p r s free (true, sees, bytes) =
      let k = chip away (slave unaddressed p r) in
      let s1 = sda_0-Sees sa c s (lines false true) k sees in
      let s2 = scl_1-Sees sa c (sda_0 s) (lines true true) k s1 in
      (false, sda_1-Sees sa c (scl_1 (sda_0 s)) (lines true false) k s2, bytes)
  stops-OnWire unaddressed p r s free (false, sees, bytes) =
      let k = chip away (slave unaddressed p r) in
      let k' = chip fresh (slave addressing p r) in
      let s1 = sda_0-Sees sa c s (lines false false) k sees in
      let s2 = scl_1-Sees sa c (sda_0 s) (lines true false) k' s1 in
      (false, sda_1-Sees sa c (scl_1 (sda_0 s)) (lines true false) k' s2, bytes)
  stops-OnWire selecting p r s free (b, sees, bytes) =
      let v = slave selecting p r in
      let s1 = sda_0-Sees sa c s (lines false true) (chip fresh v) sees in
      let s2 = scl_1-Sees sa c (sda_0 s) (lines true true) (chip fresh v) s1 in
      (false, sda_1-Sees sa c (scl_1 (sda_0 s)) (lines true false) (chip (taking 7 0) v) s2, bytes)
  stops-OnWire writing p r s free (b, sees, bytes) =
      let v = slave writing p r in
      let s1 = sda_0-Sees sa c s (lines false true) (chip fresh v) sees in
      let s2 = scl_1-Sees sa c (sda_0 s) (lines true true) (chip fresh v) s1 in
      (false, sda_1-Sees sa c (scl_1 (sda_0 s)) (lines true false) (chip (taking 7 0) v) s2, bytes)
  stops-OnWire addressing p r s free at = absurd free
  stops-OnWire reading p r s free at = absurd free
