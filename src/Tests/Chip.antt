-- ===== src/Tests/Chip.antt =====
-- A clock chip on the bus, the time and the memory in it, and stored settings over a restart.
use or1k_spartan6_platform_x.Base.{
  ℕ, suc, ◌≡◌, refl, ap, arith, true, false, some, [], ◌∷◌, ◌==◌, if◌then◌else◌,
}
use or1k_spartan6_platform_x.Base.Memory.{update}
use or1k_spartan6_platform_x.I2c.{Commands, rsp_done, i2c_read_bus_mul, read_loop, select, finish}
use or1k_spartan6_platform_x.I2c.Slave.{
  Slave, Phase, unaddressed, addressing, selecting, writing, reading, slave, HasSlave,
}
use or1k_spartan6_platform_x.Ds1338z.{i2c_addr, init, read_nvram}
use or1k_spartan6_platform_x.Ds1338z.Bus.{registers}
use or1k_spartan6_platform_x.Crc32.{crc32, crc_loop, crc_nibble}
use or1k_spartan6_platform_x.Settings.{
  IpAddr, Settings, Config, settings_defaults, settings_validate, reference, verify_settings_crc32,
  settings_update_crc32, default_mac_settings, default_ip_settings, default_freqmeter_settings,
  is_ip_invalid, is_mask_valid, mask_loop, is_mac_invalid, in_subnet,
}
use or1k_spartan6_platform_x.Settings.Checks.{IsValid}
use or1k_spartan6_platform_x.Settings.Nvram.{
  settings_bytes, settings_of_bytes, settings_read, FitsFields, settings_init,
}
use or1k_spartan6_platform_x.Settings.Restart.{settings_init-again}

abbrev chip_step : Phase → ℕ → Slave → Slave
chip_step addressing b v =
    if b == 208 then record v { phase = selecting } else record v { phase = reading }
chip_step selecting b v = record v { phase = writing; pointer = b }
chip_step writing b v = record v { regs = update v.regs v.pointer b; pointer = suc v.pointer }
chip_step reading b v = v
chip_step unaddressed b v = v

-- A chip whose state is that of the slave.
abbrev chip : Commands Slave
chip = record {
  start = λ v. (rsp_done, record v { phase = addressing });
  stop = λ v. (rsp_done, record v { phase = unaddressed });
  write = λ b v. (rsp_done, chip_step v.phase b v);
  read_ack = λ v. (rsp_done, some (v.regs v.pointer), record v { pointer = suc v.pointer });
  read_nak = λ v. (
    rsp_done,
    some (v.regs v.pointer),
    record v { phase = unaddressed; pointer = suc v.pointer },
  );
}

abbrev Is : Slave → Slave → Type 0
Is s v = s ≡ v

chip-HasSlave : HasSlave chip i2c_addr registers Is
chip-HasSlave = record {
  starts = λ f p r s free at. (slave addressing p r, ap chip.start at, refl);
  stops = λ f p r s free at. ap (λ v. (chip.stop v).1) at;
  addresses_write = λ p r s at. (slave selecting p r, ap (λ v. chip.write 208 v) at, refl);
  addresses_read = λ p r s at. (slave reading p r, ap (λ v. chip.write 209 v) at, refl);
  selects = λ p b r s at lt. (slave writing b r, ap (λ v. chip.write b v) at, refl);
  stores = λ p b r s at lt byte.
      (slave writing (suc p) (update r p b), ap (λ v. chip.write b v) at, refl);
  fetches_ack = λ p r s at lt. (slave reading (suc p) r, ap chip.read_ack at, refl);
  fetches_nak = λ p r s at lt. (slave unaddressed (suc p) r, ap chip.read_nak at, refl);
}

abbrev fresh : Slave
fresh = record { phase = unaddressed; pointer = 0; regs = λ a. 0 }

abbrev ip_of : ℕ → ℕ → ℕ → ℕ → IpAddr
ip_of a b c d = record { b0 = a; b1 = b; b2 = c; b3 = d }

abbrev pub board : Config
board = record {
  dhcp_on_startup = false;
  eth_ip = ip_of 192 168 0 10;
  eth_netmask = ip_of 255 255 255 0;
  eth_gw = ip_of 192 168 0 1;
  eth_mac = 0 ∷ 24 ∷ 62 ∷ 1 ∷ 2 ∷ 3 ∷ [];
  ref_clock_hz = 50000000;
}

-- The checksum over the bytes of the settings.
abbrev pub sum_of : Settings → ℕ
sum_of s = crc32 (settings_bytes s)

abbrev pub blank : Settings
blank = record {
  ip_addr = ip_of 0 0 0 0;
  ip_mask = ip_of 0 0 0 0;
  ip_gateway = ip_of 0 0 0 0;
  mac_addr = 0 ∷ 0 ∷ 0 ∷ 0 ∷ 0 ∷ 0 ∷ [];
  dhcp = 0;
  padding = 0;
  reference_frequency = 0;
  crc32 = 1;
}

abbrev first_start : Settings × Slave
first_start = settings_init chip board sum_of false (λ v. v) blank 0 blank fresh

first_start-FitsFields : FitsFields first_start.0
unfolding settings_init settings_read settings_validate settings_defaults reference
    verify_settings_crc32 settings_update_crc32 default_mac_settings default_ip_settings
    default_freqmeter_settings crc32 crc_loop crc_nibble settings_bytes settings_of_bytes init
    read_nvram i2c_read_bus_mul read_loop select finish
first_start-FitsFields = record {
  mac_size = refl;
  frequency_fits = omega arith;
  crc_fits = omega arith;
  bytes_fit = omega arith;
}

first_start-near : in_subnet first_start.0 ≡ true
unfolding settings_init settings_read settings_validate settings_defaults reference
    verify_settings_crc32 settings_update_crc32 default_mac_settings default_ip_settings
    default_freqmeter_settings crc32 crc_loop crc_nibble settings_bytes settings_of_bytes init
    read_nvram i2c_read_bus_mul read_loop select finish in_subnet
first_start-near = refl

pub defaults-IsValid : IsValid board (reference board sum_of (settings_defaults board sum_of blank))
unfolding settings_defaults reference verify_settings_crc32 settings_update_crc32
    default_mac_settings default_ip_settings default_freqmeter_settings crc32 crc_loop crc_nibble
    settings_bytes is_ip_invalid is_mask_valid mask_loop is_mac_invalid
defaults-IsValid = record {
  ip_ok = refl;
  mask_ok = refl;
  gateway_ok = refl;
  mac_ok = refl;
  frequency_ok = refl;
  dhcp_ok = omega arith;
}

settings_init-again_on_chip :
    (settings_init chip board sum_of false
      (λ v. v)
      blank
      7
      blank
      (record first_start.1 { pointer = 3 })).0
    ≡ first_start.0
settings_init-again_on_chip =
    settings_init-again chip Is chip-HasSlave board sum_of (λ v. v) (λ d r rests. rests) blank blank
      blank blank 0 7 fresh (record first_start.1 { pointer = 3 }) (λ a. 0) (0, refl)
      defaults-IsValid first_start-FitsFields first_start-near
      (λ k rests. (3, ap (λ (v : Slave). record v { pointer = 3 }) rests.1))
