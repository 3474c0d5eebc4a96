-- ===== src/Settings/Nvram.antt =====
-- `Settings_read`, `Settings_write` and `Settings_init` of application/libhw/settings.c: the settings in
-- the battery-backed memory of the clock chip.
use or1k_spartan6_platform_x.Base.{
  ℕ, ◌+◌, ◌*◌, ◌/◌, ◌<◌, ◌≡◌, refl, arith, Bool, List, [], ◌∷◌, ◌++◌, length, get_or, u8, AllBytes,
  if◌then◌else◌,
}
use or1k_spartan6_platform_x.I2c.{Commands}
use or1k_spartan6_platform_x.Ds1338z.{Err, ok, error, init, read_nvram, write_nvram}
use or1k_spartan6_platform_x.Settings.{
  Settings, IpAddr, Config, settings_defaults, settings_validate, settings_update_crc32,
  default_mac_settings,
}

-- `DS_1338Z_NVRAM_BASE`, the size of the clock's registers and the control register.
abbrev pub nvram_base : ℕ
nvram_base = 8

abbrev pub settings_size : ℕ
settings_size = 28

abbrev pub word_bytes : ℕ → List ℕ
word_bytes w = u8 (w / 16777216) ∷ u8 (w / 65536) ∷ u8 (w / 256) ∷ u8 w ∷ []

abbrev pub ip_bytes : IpAddr → List ℕ
ip_bytes ip = ip.b0 ∷ ip.b1 ∷ ip.b2 ∷ ip.b3 ∷ []

abbrev pub mac_field : List ℕ → List ℕ
mac_field v =
    get_or v 0 0 ∷ get_or v 1 0 ∷ get_or v 2 0 ∷ get_or v 3 0 ∷ get_or v 4 0 ∷ get_or v 5 0 ∷ []

-- `struct sSettings` as it lies in memory, on the big-endian processor.
unfoldable pub settings_bytes : Settings → List ℕ
settings_bytes s =
    ip_bytes s.ip_addr
    ++ ip_bytes s.ip_mask
    ++ ip_bytes s.ip_gateway
    ++ mac_field s.mac_addr
    ++ (s.dhcp ∷ s.padding ∷ [])
    ++ word_bytes s.reference_frequency
    ++ word_bytes s.crc32

abbrev pub ip_at : List ℕ → ℕ → IpAddr
ip_at b i = record {
  b0 = get_or b i 0;
  b1 = get_or b (i + 1) 0;
  b2 = get_or b (i + 2) 0;
  b3 = get_or b (i + 3) 0;
}

abbrev pub word_at : List ℕ → ℕ → ℕ
word_at b i =
    get_or b i 0 * 16777216
    + get_or b (i + 1) 0 * 65536
    + get_or b (i + 2) 0 * 256
    + get_or b (i + 3) 0

unfoldable pub settings_of_bytes : List ℕ → Settings
settings_of_bytes b = record {
  ip_addr = ip_at b 0;
  ip_mask = ip_at b 4;
  ip_gateway = ip_at b 8;
  mac_addr =
      get_or b 12 0
      ∷ get_or b 13 0
      ∷ get_or b 14 0
      ∷ get_or b 15 0
      ∷ get_or b 16 0
      ∷ get_or b 17 0
      ∷ [];
  dhcp = get_or b 18 0;
  padding = get_or b 19 0;
  reference_frequency = word_at b 20;
  crc32 = word_at b 24;
}

module _ {S : Type 0} (cmds : Commands S) where
  -- The result of the bus is not looked at.
  unfoldable pub settings_read : Settings → S → Settings × S
  settings_read s dev =
      let (e, b, after) = read_nvram cmds (settings_bytes s) nvram_base settings_size dev in
      (settings_of_bytes b, after)

  unfoldable pub settings_write : Settings → S → S
  settings_write s dev = (write_nvram cmds nvram_base (settings_bytes s) dev).1

  abbrev pub read_if : Err → Settings → S → Settings × S
  read_if ok s dev = settings_read s dev
  read_if error s dev = (s, dev)

  -- `junk` is what the stack holds where `Settings_validate` and `ds1338z_init` keep their variables.
  unfoldable pub settings_init :
      Config → (Settings → ℕ) → Bool → (S → S) → Settings → ℕ → Settings → S → Settings × S
  settings_init cfg sum mac_addr_force i2c_init junk t s dev =
      let (e, started) = init cmds i2c_init t dev in
      let (loaded, dev') = read_if e s started in
      let valid = (settings_validate cfg sum (settings_defaults cfg sum junk) loaded).0 in
      let forced = settings_update_crc32 cfg sum (default_mac_settings cfg sum valid) in
      let kept = if mac_addr_force then forced else valid in (kept, settings_write kept dev')

-- The fields hold what fits in them.
pub record FitsFields (s : Settings) : Type 0 where
  pub mac_size : length s.mac_addr ≡ 6
  pub frequency_fits : s.reference_frequency < 4294967296
  pub crc_fits : s.crc32 < 4294967296
  pub bytes_fit : AllBytes (settings_bytes s)

word_at-word_bytes :
    (w : ℕ)
    → w < 4294967296
    → u8 (w / 16777216) * 16777216 + u8 (w / 65536) * 65536 + u8 (w / 256) * 256 + u8 w ≡ w
word_at-word_bytes w h = omega arith

mac_field_self : (v : List ℕ) → length v ≡ 6 → mac_field v ≡ v
mac_field_self (a ∷ b ∷ c ∷ d ∷ e ∷ f ∷ []) h = refl
mac_field_self [] h = absurd (omega arith)
mac_field_self (a ∷ []) h = absurd (omega arith)
mac_field_self (a ∷ b ∷ []) h = absurd (omega arith)
mac_field_self (a ∷ b ∷ c ∷ []) h = absurd (omega arith)
mac_field_self (a ∷ b ∷ c ∷ d ∷ []) h = absurd (omega arith)
mac_field_self (a ∷ b ∷ c ∷ d ∷ e ∷ []) h = absurd (omega arith)
mac_field_self (a ∷ b ∷ c ∷ d ∷ e ∷ f ∷ g ∷ rest) h = absurd (omega arith)

-- The bytes of settings are the settings again.
pub settings_of_bytes-settings_bytes :
    (s : Settings) → FitsFields s → settings_of_bytes (settings_bytes s) ≡ s
unfolding settings_of_bytes settings_bytes
settings_of_bytes-settings_bytes s fits =
    rw
      (
        word_at-word_bytes s.reference_frequency fits.frequency_fits,
        word_at-word_bytes s.crc32 fits.crc_fits,
        mac_field_self s.mac_addr fits.mac_size,
      )
      refl
