-- ===== src/Settings/Restart.antt =====
-- What the settings of application/libhw/settings.c are after a restart of the device.
use or1k_spartan6_platform_x.Base.{
  ℕ, ◌<◌, ◌≡◌, refl, inl, ap, sym, subst, ◌∙◌, arith, true, false, List, length,
}
use or1k_spartan6_platform_x.Base.Memory.{
  Memory, read_block, write_block, read_block-write_block, write_block_outside,
}
use or1k_spartan6_platform_x.I2c.{Commands}
use or1k_spartan6_platform_x.I2c.Slave.{Slave, HasSlave, Rests}
use or1k_spartan6_platform_x.Ds1338z.{ok, i2c_addr, read_nvram, write_nvram}
use or1k_spartan6_platform_x.Ds1338z.Bus.{registers, write_nvram-block, read_nvram-block, init-ok}
use or1k_spartan6_platform_x.Settings.{
  Settings, Config, settings_defaults, settings_validate, reference, in_subnet,
}
use or1k_spartan6_platform_x.Settings.Checks.{IsValid}
use or1k_spartan6_platform_x.Settings.Validity.{
  verify-settings_validate, settings_validate-IsValid, settings_validate-accepts,
}
use or1k_spartan6_platform_x.Settings.Nvram.{
  settings_bytes, settings_of_bytes, settings_of_bytes-settings_bytes, FitsFields, settings_read,
  settings_write, settings_init,
}

module _ {S : Type 0} (cmds : Commands S) (At : S → Slave → Type 0)
    (law : HasSlave cmds i2c_addr registers At) where
  settings_write-ok :
      (s : Settings) (dev t : S)
      → write_nvram cmds 8 (settings_bytes s) dev ≡ (ok, t)
      → settings_write cmds s dev ≡ t
  unfolding settings_write
  settings_write-ok s dev t run = ap (λ q. q.1) run

  settings_read-ok :
      (old : Settings) (b : List ℕ) (dev u : S)
      → read_nvram cmds (settings_bytes old) 8 28 dev ≡ (ok, b, u)
      → settings_read cmds old dev ≡ (settings_of_bytes b, u)
  unfolding settings_read
  settings_read-ok old b dev u run = ap (λ q. (settings_of_bytes q.1, q.2)) run

  length-settings_bytes : (s : Settings) → length (settings_bytes s) ≡ 28
  unfolding settings_bytes
  length-settings_bytes s = refl

  -- What is read are the settings that lie in the registers.
  settings_read-block :
      (old : Settings) (dev : S) (r : Memory)
      → Rests At dev r
      → (u : S) × (settings_read cmds old dev ≡ (settings_of_bytes (read_block r 16 28), u))
        × Rests At u r
  settings_read-block old dev r rests =
      let (u, read, kept) =
        read_nvram-block cmds At law 8 28 (settings_bytes old) dev r rests (omega arith)
          (omega arith) (length-settings_bytes old) in
      (u, settings_read-ok old (read_block r 16 28) dev u read, kept)

  settings_write-block :
      (s : Settings) (dev : S) (r : Memory)
      → Rests At dev r
      → FitsFields s
      → Rests At (settings_write cmds s dev) (write_block r 16 (settings_bytes s))
  settings_write-block s dev r rests fits =
      let n = length-settings_bytes s in
      let (t, wrote, stored) =
        write_nvram-block cmds At law 8 (settings_bytes s) dev r rests (omega (arith, n))
          (omega (arith, n)) fits.bytes_fit in
      subst (λ d. Rests At d (write_block r 16 (settings_bytes s)))
        (sym (settings_write-ok s dev t wrote)) stored

  -- Settings that were written lie in the registers.
  settings_of_block :
      (s : Settings) (r : Memory)
      → FitsFields s
      → settings_of_bytes (read_block (write_block r 16 (settings_bytes s)) 16 28) ≡ s
  settings_of_block s r fits =
      ap (λ k. settings_of_bytes (read_block (write_block r 16 (settings_bytes s)) 16 k))
        (sym (length-settings_bytes s))
      ∙ ap settings_of_bytes (read_block-write_block r 16 (settings_bytes s))
      ∙ settings_of_bytes-settings_bytes s fits

  -- Settings that are written are read back, whatever the variable held, and the clock's registers
  -- stay, if the fields of the settings hold what fits in them.
  pub settings_read-settings_write :
      (s old : Settings) (dev : S) (r : Memory)
      → Rests At dev r
      → FitsFields s
      → (u : S) × (k : Memory) × (settings_read cmds old (settings_write cmds s dev) ≡ (s, u))
        × Rests At u k
        × ((i : ℕ) → i < 8 → k i ≡ r i)
  settings_read-settings_write s old dev r rests fits =
      let k = write_block r 16 (settings_bytes s) in
      let (u, read, kept) =
        settings_read-block old (settings_write cmds s dev) k
          (settings_write-block s dev r rests fits) in
      (
        u,
        k,
        read ∙ ap (λ x. (x, u)) (settings_of_block s r fits),
        kept,
        λ i lt. write_block_outside r 16 (settings_bytes s) i (inl (omega arith)),
      )

  module _ (cfg : Config) (sum : Settings → ℕ) (i2c_init : S → S)
      (alone : (d : S) (r : Memory) → Rests At d r → Rests At (i2c_init d) r) where
    -- A start over registers gives what the validation leaves of the settings in them, and stores it.
    pub start_valid :
        (junk : Settings) (t : ℕ) (old : Settings) (dev : S) (r : Memory)
        → Rests At dev r
        → let loaded = settings_of_bytes (read_block r 16 28) in
          let s = (settings_validate cfg sum (settings_defaults cfg sum junk) loaded).0 in
          (d : S) × Rests At d r
          × (settings_init cmds cfg sum false i2c_init junk t old dev
              ≡ (s, settings_write cmds s d))
    unfolding settings_init
    start_valid junk t old dev r rests =
        let (d1, probe, rests1) = init-ok cmds At law i2c_init t dev r (alone dev r rests) in
        let (d2, read, rests2) = settings_read-block old d1 r rests1 in
        (d2, rests2, rw (probe, read) refl)

    -- A restart of a device whose chip has kept its registers gives the settings of the last start,
    -- whatever the variables hold: the chip rested before both, the fields of those settings hold what
    -- fits in them, the gateway lies in the subnet, the defaults are acceptable, no hardware address is
    -- forced, and starting the bus leaves the chip alone.
    pub settings_init-again :
        (junk junk' s old : Settings) (t t' : ℕ) (dev dev' : S) (r : Memory)
        → Rests At dev r
        → IsValid cfg (reference cfg sum (settings_defaults cfg sum junk))
        → FitsFields (settings_init cmds cfg sum false i2c_init junk t s dev).0
        → in_subnet (settings_init cmds cfg sum false i2c_init junk t s dev).0 ≡ true
        → ((k : Memory)
            → Rests At (settings_init cmds cfg sum false i2c_init junk t s dev).1 k
            → Rests At dev' k)
        → (settings_init cmds cfg sum false i2c_init junk' t' old dev').0
          ≡ (settings_init cmds cfg sum false i2c_init junk t s dev).0
    settings_init-again junk junk' s old t t' dev dev' r rests good fits near kept =
        let loaded = settings_of_bytes (read_block r 16 28) in
        let out = (settings_validate cfg sum (settings_defaults cfg sum junk) loaded).0 in
        let (d, rests1, first) = start_valid junk t s dev r rests in
        let is_out = ap (λ q. q.0) first in
        let fits' : FitsFields out = subst (λ x. FitsFields x) is_out fits in
        let k = write_block r 16 (settings_bytes out) in
        let rests2 : Rests At dev' k = kept k (
          subst (λ q. Rests At q k) (sym (ap (λ q. q.1) first))
            (settings_write-block out d r rests1 fits')) in
        let (d', _, again) = start_valid junk' t' old dev' k rests2 in
        ap (λ q. q.0) again
        ∙ ap (λ x. (settings_validate cfg sum (settings_defaults cfg sum junk') x).0)
            (settings_of_block out r fits')
        ∙ ap (λ q. q.0)
            (settings_validate-accepts cfg sum (settings_defaults cfg sum junk') out
              (verify-settings_validate cfg sum (settings_defaults cfg sum junk) loaded)
              (settings_validate-IsValid cfg sum (settings_defaults cfg sum junk) loaded good).0
              (subst (λ x. in_subnet x ≡ true) is_out near))
        ∙ sym is_out
