-- ===== src/Settings.antt =====
-- application/libhw/settings.c and application/include/settings.h: the stored settings, their
-- checksum and their validation. The addresses of the build configuration, the nominal clock and
-- the restoring callback are arguments.
pub mod Checks
pub mod Validity
pub mod Nvram
pub mod Restart
use or1k_spartan6_platform_x.Base.{
  ℕ, zero, suc, ◌+◌, ◌-◌, ◌*◌, ◌/◌, ◌%◌, ◌^◌, Bool, true, false, ◌&&◌, ◌||◌, not, List, [], ◌∷◌,
  ltb, leb, ◌==◌, if◌then◌else◌, bit_and, get_or,
}

-- `union IP_ADDR`, by its bytes. `u32` reads them on the big-endian processor.
pub record IpAddr : Type 0 where
  pub b0 : ℕ
  pub b1 : ℕ
  pub b2 : ℕ
  pub b3 : ℕ

abbrev pub u32_of : IpAddr → ℕ
u32_of ip = ip.b0 * 2 ^ 24 + ip.b1 * 2 ^ 16 + ip.b2 * 2 ^ 8 + ip.b3

-- `struct sSettings`, with the byte that aligns the frequency.
pub record Settings : Type 0 where
  pub ip_addr : IpAddr
  pub ip_mask : IpAddr
  pub ip_gateway : IpAddr
  pub mac_addr : List ℕ
  pub dhcp : ℕ
  pub padding : ℕ
  pub reference_frequency : ℕ
  pub crc32 : ℕ

-- `enum enSettingsValidatorError`, by its bits.
pub record Errors : Type 0 where
  pub ip : Bool
  pub netmask : Bool
  pub gateway : Bool
  pub mac : Bool
  pub f_ref : Bool
  pub crc : Bool

abbrev pub no_errors : Errors
no_errors = record {
  ip = false;
  netmask = false;
  gateway = false;
  mac = false;
  f_ref = false;
  crc = false;
}

-- What the build configuration (ETH_config.h, the compiler's command line) defines.
pub record Config : Type 0 where
  pub dhcp_on_startup : Bool
  pub eth_ip : IpAddr
  pub eth_netmask : IpAddr
  pub eth_gw : IpAddr
  pub eth_mac : List ℕ
  pub ref_clock_hz : ℕ

-- `REFERENCE_FREQ_OFFSET_MAX`, a whole number of hertz.
abbrev pub offset_max : ℕ
offset_max = 50000

unfoldable pub is_ip_invalid : IpAddr → Bool
is_ip_invalid ip = (ip.b0 == 0) || (ip.b3 == 0) || (ip.b0 == 255) || (ip.b3 == 255)

-- The loop over the bits of the netmask from bit `i`, with `left` rounds to go: whether it ends
-- without finding a zero above a one.
unfoldable pub mask_loop : ℕ → ℕ → Bool → ℕ → Bool
mask_loop zero i zeros mask = true
mask_loop (suc left) i zeros mask =
    let one = mask_loop left (i + 1) false mask in
    let null = mask_loop left (i + 1) zeros mask in
    if (mask / 2 ^ i) % 2 == 1 then one else (if zeros then null else false)

unfoldable pub is_mask_valid : IpAddr → Bool
is_mask_valid ip = mask_loop 32 0 true (u32_of ip)

-- The test of the gateway against the subnet of the address.
unfoldable pub in_subnet : Settings → Bool
in_subnet s =
    bit_and (u32_of s.ip_addr) (u32_of s.ip_mask)
    == bit_and (u32_of s.ip_gateway) (u32_of s.ip_mask)

-- `MAC_ADDR[0] & 0b11`.
unfoldable pub is_mac_invalid : List ℕ → Bool
is_mac_invalid mac = not (get_or mac 0 0 % 4 == 0)

abbrev pub is_frequency_invalid : Config → ℕ → Bool
is_frequency_invalid cfg f =
    ltb (f + offset_max) cfg.ref_clock_hz || ltb (cfg.ref_clock_hz + offset_max) f

abbrev pub Checked : Type 0
Checked = Settings × Errors

unfoldable pub check_ip : Settings → Checked → Checked
check_ip r (s, e) =
    if is_ip_invalid s.ip_addr
    then (record s { ip_addr = r.ip_addr }, record e { ip = true })
    else (s, e)

unfoldable pub check_netmask : Settings → Checked → Checked
check_netmask r (s, e) =
    if is_mask_valid s.ip_mask
    then (s, e)
    else (record s { ip_mask = r.ip_mask }, record e { netmask = true })

unfoldable pub check_gateway : Settings → Checked → Checked
check_gateway r (s, e) =
    if is_ip_invalid s.ip_gateway || not (in_subnet s)
    then (record s { ip_gateway = r.ip_gateway }, record e { gateway = true })
    else (s, e)

unfoldable pub check_mac : Settings → Checked → Checked
check_mac r (s, e) =
    if is_mac_invalid s.mac_addr
    then (record s { mac_addr = r.mac_addr }, record e { mac = true })
    else (s, e)

unfoldable pub check_frequency : Config → Settings → Checked → Checked
check_frequency cfg r (s, e) =
    if is_frequency_invalid cfg s.reference_frequency
    then (record s { reference_frequency = r.reference_frequency }, record e { f_ref = true })
    else (s, e)

unfoldable pub check_dhcp : Settings → Checked → Checked
check_dhcp r (s, e) =
    if ltb 1 s.dhcp then (record s { dhcp = r.dhcp }, record e { f_ref = true }) else (s, e)

unfoldable pub check_fields : Config → Settings → Settings → Checked
check_fields cfg r s = check_dhcp r (
    check_frequency cfg r
      (check_mac r (check_gateway r (check_netmask r (check_ip r (s, no_errors))))))

-- `sum` is the checksum `crc32` over the bytes of the settings.
module _ (cfg : Config) (sum : Settings → ℕ) where
  unfoldable pub settings_update_crc32 : Settings → Settings
  settings_update_crc32 s = record s { crc32 = sum (record s { crc32 = 0 }) }

  -- The verdict, and the settings with the checksum that the check leaves in them.
  unfoldable pub verify_settings_crc32 : Settings → Bool × Settings
  verify_settings_crc32 s = let s' = settings_update_crc32 s in (s.crc32 == s'.crc32, s')

  unfoldable pub default_ip_settings : Settings → Settings
  default_ip_settings s = record s {
    dhcp = (if cfg.dhcp_on_startup then 1 else 0);
    ip_addr = cfg.eth_ip;
    ip_mask = cfg.eth_netmask;
    ip_gateway = cfg.eth_gw;
  }

  unfoldable pub default_mac_settings : Settings → Settings
  default_mac_settings s = record s { mac_addr = cfg.eth_mac }

  unfoldable pub default_freqmeter_settings : Settings → Settings
  default_freqmeter_settings s = record s { reference_frequency = cfg.ref_clock_hz }

  unfoldable pub settings_defaults : Settings → Settings
  settings_defaults s =
      settings_update_crc32
        (default_freqmeter_settings (default_mac_settings (default_ip_settings s)))

  -- What fields are restored from: what the callback left, or the defaults if that fails its check.
  unfoldable pub reference : Settings → Settings
  reference restored =
      let (good, r) = verify_settings_crc32 restored in if good then r else settings_defaults r

  -- `Settings_validate`, with what the callback restored.
  unfoldable pub settings_validate : Settings → Settings → Checked
  settings_validate restored s =
      let r = reference restored in
      let (good, s') = verify_settings_crc32 s in
      let (s'', e) = if good then check_fields cfg r s' else (r, record no_errors { crc = true }) in
      (settings_update_crc32 s'', e)
