-- ===== src/Tests/Restart.antt =====
-- The stored settings in a clock chip on the two lines of the bit-banged bus, over a restart.
use or1k_spartan6_platform_x.Base.{◌≡◌, [], refl, ap, sym, subst, arith, true, false}
use or1k_spartan6_platform_x.Base.Memory.{Memory, read_block}
use or1k_spartan6_platform_x.I2c.{Commands}
use or1k_spartan6_platform_x.I2c.Slave.{HasSlave, unaddressed, slave, Rests}
use or1k_spartan6_platform_x.BbI2c.{Port, bb_commands, bb_i2c_init}
use or1k_spartan6_platform_x.BbI2c.Chip.{Chip, away, released, chip_of, answers, unheld}
use or1k_spartan6_platform_x.BbI2c.OnWire.{OnWire, bb_i2c_init-OnWire}
use or1k_spartan6_platform_x.BbI2c.Law.{bb_commands-HasSlave}
use or1k_spartan6_platform_x.Ds1338z.{i2c_addr}
use or1k_spartan6_platform_x.Ds1338z.Bus.{registers}
use or1k_spartan6_platform_x.Crc32.{crc32, crc_loop, crc_nibble}
use or1k_spartan6_platform_x.Settings.{
  Settings, settings_defaults, settings_validate, reference, verify_settings_crc32,
  settings_update_crc32, default_mac_settings, default_ip_settings, default_freqmeter_settings,
  in_subnet,
}
use or1k_spartan6_platform_x.Settings.Nvram.{
  settings_bytes, settings_of_bytes, FitsFields, settings_init,
}
use or1k_spartan6_platform_x.Settings.Restart.{start_valid, settings_init-again}
use or1k_spartan6_platform_x.Tests.Chip.{board, sum_of, blank, defaults-IsValid}

abbrev zeros : Memory
zeros a = 0

abbrev empty : Chip
empty = record { act = away; view = slave unaddressed 0 zeros }

abbrev quiet : Port
quiet = record { now = released; trace = [] }

abbrev wire : Commands Port
wire = bb_commands (answers 104 empty) unheld

quiet-Rests : Rests (OnWire 104 empty) quiet zeros
unfolding chip_of
quiet-Rests = (0, (false, (refl, refl, refl), λ q. omega arith))

law : HasSlave wire i2c_addr registers (OnWire 104 empty)
law = bb_commands-HasSlave 104 empty (omega arith) 64 (omega arith)

alone :
    (d : Port) (r : Memory)
    → Rests (OnWire 104 empty) d r
    → Rests (OnWire 104 empty) (bb_i2c_init d) r
alone d r (p, at) = (p, bb_i2c_init-OnWire 104 empty p r d at)

-- The first start stores the defaults, since the registers hold no settings.
abbrev defaults : Settings
defaults =
    (settings_validate board sum_of (settings_defaults board sum_of blank)
      (settings_of_bytes (read_block zeros 16 28))).0

abbrev started : Settings × Port
started = settings_init wire board sum_of false bb_i2c_init blank 7 blank quiet

started-defaults : defaults ≡ started.0
started-defaults =
    let (d, rests, run) =
      start_valid wire (OnWire 104 empty) law board sum_of bb_i2c_init alone blank 7 blank quiet
        zeros quiet-Rests in
    sym (ap (λ q. q.0) run)

defaults-FitsFields : FitsFields defaults
unfolding settings_validate settings_defaults reference verify_settings_crc32 settings_update_crc32
    default_mac_settings default_ip_settings default_freqmeter_settings crc32 crc_loop crc_nibble
    settings_bytes settings_of_bytes read_block
defaults-FitsFields = record {
  mac_size = refl;
  frequency_fits = omega arith;
  crc_fits = omega arith;
  bytes_fit = omega arith;
}

in_subnet-defaults : in_subnet defaults ≡ true
unfolding settings_validate settings_defaults reference verify_settings_crc32 settings_update_crc32
    default_mac_settings default_ip_settings default_freqmeter_settings crc32 crc_loop crc_nibble
    settings_bytes settings_of_bytes read_block in_subnet
in_subnet-defaults = refl

settings_init-again_example :
    (settings_init wire board sum_of false bb_i2c_init blank 9 blank started.1).0 ≡ started.0
settings_init-again_example =
    settings_init-again wire (OnWire 104 empty) law board sum_of bb_i2c_init alone blank blank blank
      blank 7 9 quiet started.1 zeros quiet-Rests defaults-IsValid
      (subst FitsFields started-defaults defaults-FitsFields)
      (subst (λ s. in_subnet s ≡ true) started-defaults in_subnet-defaults) (λ k rests. rests)
