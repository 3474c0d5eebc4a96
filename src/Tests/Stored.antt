-- ===== src/Tests/Stored.antt =====
-- Validation of stored settings on concrete ones.
use or1k_spartan6_platform_x.Base.{ℕ, ◌+◌, ◌≡◌, ◌⊎◌, refl, arith, true, false, [], ◌∷◌}
use or1k_spartan6_platform_x.Settings.{
  IpAddr, Settings, Config, no_errors, settings_validate, verify_settings_crc32, reference,
  in_subnet, is_ip_invalid, is_mask_valid, mask_loop, is_mac_invalid, settings_update_crc32,
}
use or1k_spartan6_platform_x.Settings.Checks.{IsValid}
use or1k_spartan6_platform_x.Settings.Validity.{
  settings_validate-IsValid, settings_validate-accepts,
}

abbrev ip_of : ℕ → ℕ → ℕ → ℕ → IpAddr
ip_of a b c d = record { b0 = a; b1 = b; b2 = c; b3 = d }

abbrev board : Config
board = record {
  dhcp_on_startup = false;
  eth_ip = ip_of 192 168 0 10;
  eth_netmask = ip_of 255 255 255 0;
  eth_gw = ip_of 192 168 0 1;
  eth_mac = 0 ∷ 24 ∷ 62 ∷ 1 ∷ 2 ∷ 3 ∷ [];
  ref_clock_hz = 50000000;
}

-- A checksum for the runs.
abbrev sum_of : Settings → ℕ
sum_of s = s.ip_addr.b3 + s.ip_gateway.b3 + s.dhcp

abbrev with_gateway : IpAddr → ℕ → Settings
with_gateway gw sum = record {
  ip_addr = ip_of 192 168 0 10;
  ip_mask = ip_of 255 255 255 0;
  ip_gateway = gw;
  mac_addr = 0 ∷ 24 ∷ 62 ∷ 1 ∷ 2 ∷ 3 ∷ [];
  dhcp = 0;
  padding = 0;
  reference_frequency = 50000000;
  crc32 = sum;
}

abbrev good : Settings
good = with_gateway (ip_of 192 168 0 1) 11

good-IsValid : IsValid board good
unfolding is_ip_invalid is_mask_valid mask_loop is_mac_invalid
good-IsValid = record {
  ip_ok = refl;
  mask_ok = refl;
  gateway_ok = refl;
  mac_ok = refl;
  frequency_ok = refl;
  dhcp_ok = omega arith;
}

reference-good : IsValid board (reference board sum_of good)
unfolding reference verify_settings_crc32 settings_update_crc32
reference-good = good-IsValid

verify-good : (verify_settings_crc32 board sum_of good).0 ≡ true
unfolding verify_settings_crc32 settings_update_crc32
verify-good = refl

in_subnet-good : in_subnet good ≡ true
unfolding in_subnet
in_subnet-good = refl

-- Stored settings whose gateway is in another network.
abbrev stray : Settings
stray = with_gateway (ip_of 10 0 0 1) 11

settings_validate-IsValid_example :
    let out = (settings_validate board sum_of good stray).0 in
    let r = reference board sum_of good in
    IsValid board out × ((in_subnet out ≡ true) ⊎ (out.ip_gateway ≡ r.ip_gateway))
settings_validate-IsValid_example = settings_validate-IsValid board sum_of good stray reference-good

settings_validate-accepts_example : settings_validate board sum_of stray good ≡ (good, no_errors)
settings_validate-accepts_example =
    settings_validate-accepts board sum_of stray good verify-good good-IsValid in_subnet-good
