-- ===== src/Settings/Checks.antt =====
-- The checks of the fields in `Settings_validate` (application/libhw/settings.c).
use or1k_spartan6_platform_x.Base.{
  ℕ, ◌≤◌, ◌≡◌, ◌⊎◌, inl, inr, Bool, true, false, ◌||◌, not, arith, ◌∙◌, ap, if◌then◌else◌, ltb,
  Bool-cases,
}
use or1k_spartan6_platform_x.Settings.{
  Settings, Errors, Config, no_errors, is_ip_invalid, is_mask_valid, in_subnet, is_mac_invalid,
  Checked, check_ip, check_netmask, check_gateway, check_mac, check_frequency, check_dhcp,
  check_fields, is_frequency_invalid,
}

-- What each check leaves of the settings.
fst-check_ip :
    (r : Settings) (c : Checked)
    → (check_ip r c).0
      ≡ record (c.0) { ip_addr = if is_ip_invalid c.0.ip_addr then r.ip_addr else c.0.ip_addr }
unfolding check_ip
fst-check_ip r c = ground arith

fst-check_netmask :
    (r : Settings) (c : Checked)
    → (check_netmask r c).0
      ≡ record (c.0) { ip_mask = if is_mask_valid c.0.ip_mask then c.0.ip_mask else r.ip_mask }
unfolding check_netmask
fst-check_netmask r c = ground arith

fst-check_gateway :
    (r : Settings) (c : Checked)
    → (check_gateway r c).0 ≡ record (c.0) {
      ip_gateway =
          if is_ip_invalid c.0.ip_gateway || not (in_subnet c.0)
          then r.ip_gateway
          else c.0.ip_gateway;
    }
unfolding check_gateway
fst-check_gateway r c = ground arith

fst-check_mac :
    (r : Settings) (c : Checked)
    → (check_mac r c).0
      ≡ record (c.0) { mac_addr = if is_mac_invalid c.0.mac_addr then r.mac_addr else c.0.mac_addr }
unfolding check_mac
fst-check_mac r c = ground arith

fst-check_frequency :
    (cfg : Config) (r : Settings) (c : Checked)
    → (check_frequency cfg r c).0 ≡ record (c.0) {
      reference_frequency =
          if is_frequency_invalid cfg c.0.reference_frequency
          then r.reference_frequency
          else c.0.reference_frequency;
    }
unfolding check_frequency
fst-check_frequency cfg r c = ground arith

fst-check_dhcp :
    (r : Settings) (c : Checked)
    → (check_dhcp r c).0 ≡ record (c.0) { dhcp = if ltb 1 c.0.dhcp then r.dhcp else c.0.dhcp }
unfolding check_dhcp
fst-check_dhcp r c = ground arith

ruleset checks = (
  fst-check_ip, fst-check_netmask, fst-check_gateway, fst-check_mac, fst-check_frequency,
  fst-check_dhcp,
)

-- The settings behind the address and netmask checks, which the gateway is tested against.
abbrev pub addressed : Settings → Settings → Settings
addressed r s = record s {
  ip_addr = (if is_ip_invalid s.ip_addr then r.ip_addr else s.ip_addr);
  ip_mask = (if is_mask_valid s.ip_mask then s.ip_mask else r.ip_mask);
}

abbrev pub checked : Config → Settings → Settings → Settings
checked cfg r s = record (addressed r s) {
  ip_gateway =
      (if is_ip_invalid s.ip_gateway || not (in_subnet (addressed r s))
        then r.ip_gateway
        else s.ip_gateway);
  mac_addr = (if is_mac_invalid s.mac_addr then r.mac_addr else s.mac_addr);
  reference_frequency =
      (if is_frequency_invalid cfg s.reference_frequency
        then r.reference_frequency
        else s.reference_frequency);
  dhcp = (if ltb 1 s.dhcp then r.dhcp else s.dhcp);
}

pub fst-check_fields : (cfg : Config) (r s : Settings) → (check_fields cfg r s).0 ≡ checked cfg r s
unfolding check_fields
fst-check_fields cfg r s = simp checks

-- Every field is acceptable, the gateway's subnet aside.
pub record IsValid (cfg : Config) (s : Settings) : Type 0 where
  pub ip_ok : is_ip_invalid s.ip_addr ≡ false
  pub mask_ok : is_mask_valid s.ip_mask ≡ true
  pub gateway_ok : is_ip_invalid s.ip_gateway ≡ false
  pub mac_ok : is_mac_invalid s.mac_addr ≡ false
  pub frequency_ok : is_frequency_invalid cfg s.reference_frequency ≡ false
  pub dhcp_ok : s.dhcp ≤ 1

-- A value that is replaced where a test fails passes the test, if the replacement does.
kept :
    {A : Type 0} (bad : A → Bool) (x y : A) → bad y ≡ false → bad (if bad x then y else x) ≡ false
kept bad x y h = elim (Bool-cases (bad x)) [ inl b ↦ rw b h | inr g ↦ rw g g ]

pub check_fields-IsValid :
    (cfg : Config) (r s : Settings) → IsValid cfg r → IsValid cfg (check_fields cfg r s).0
check_fields-IsValid cfg r s v = rw (fst-check_fields cfg r s) (record {
  ip_ok = ground (arith, v.ip_ok);
  mask_ok = ground (arith, v.mask_ok);
  gateway_ok = ground (arith, v.gateway_ok);
  mac_ok = ground (arith, v.mac_ok);
  frequency_ok =
      kept (is_frequency_invalid cfg) s.reference_frequency r.reference_frequency v.frequency_ok;
  dhcp_ok = ground (arith, v.dhcp_ok);
})

pub in_subnet-same :
    (a b : Settings)
    → a.ip_addr ≡ b.ip_addr
    → a.ip_mask ≡ b.ip_mask
    → a.ip_gateway ≡ b.ip_gateway
    → in_subnet a ≡ in_subnet b
unfolding in_subnet
in_subnet-same a b p q h = rw (p, q, h)

-- A gateway behind the checks lies in the subnet, or is the restored one.
abbrev pub GatewayFrom : Settings → Settings → Type 0
GatewayFrom r s = (in_subnet s ≡ true) ⊎ (s.ip_gateway ≡ r.ip_gateway)

pub gateway-check_fields : (cfg : Config) (r s : Settings) → GatewayFrom r (check_fields cfg r s).0
gateway-check_fields cfg r s =
    elim (Bool-cases (is_ip_invalid s.ip_gateway || not (in_subnet (addressed r s)))) [
      | inl b ↦ inr (ap (λ (x : Settings). x.ip_gateway) e ∙ rw b)
      | inr g ↦ inl (
          in_subnet-same _ (addressed r s) (ap (λ (x : Settings). x.ip_addr) e)
            (ap (λ (x : Settings). x.ip_mask) e) (ap (λ (x : Settings). x.ip_gateway) e ∙ rw g)
          ∙ ground arith)
    ]
  where
    e : (check_fields cfg r s).0 ≡ checked cfg r s
    e = fst-check_fields cfg r s

leb→ltb : (n : ℕ) → n ≤ 1 → ltb 1 n ≡ false
leb→ltb n h = ground arith

-- A check that its field passes.
module _ (r s : Settings) (e : Errors) where
  check_ip-pass : is_ip_invalid s.ip_addr ≡ false → check_ip r (s, e) ≡ (s, e)
  unfolding check_ip
  check_ip-pass h = rw h

  check_netmask-pass : is_mask_valid s.ip_mask ≡ true → check_netmask r (s, e) ≡ (s, e)
  unfolding check_netmask
  check_netmask-pass h = rw h

  check_gateway-pass :
      is_ip_invalid s.ip_gateway ≡ false → in_subnet s ≡ true → check_gateway r (s, e) ≡ (s, e)
  unfolding check_gateway
  check_gateway-pass h n = rw (h, n)

  check_mac-pass : is_mac_invalid s.mac_addr ≡ false → check_mac r (s, e) ≡ (s, e)
  unfolding check_mac
  check_mac-pass h = rw h

  check_frequency-pass :
      (cfg : Config)
      → is_frequency_invalid cfg s.reference_frequency ≡ false
      → check_frequency cfg r (s, e) ≡ (s, e)
  unfolding check_frequency
  check_frequency-pass cfg h = rw h

  check_dhcp-pass : s.dhcp ≤ 1 → check_dhcp r (s, e) ≡ (s, e)
  unfolding check_dhcp
  check_dhcp-pass h = rw (leb→ltb s.dhcp h)

pub check_fields-accepts :
    (cfg : Config) (r s : Settings)
    → IsValid cfg s
    → in_subnet s ≡ true
    → check_fields cfg r s ≡ (s, no_errors)
unfolding check_fields
check_fields-accepts cfg r s v n = rw (
  check_ip-pass r s no_errors v.ip_ok,
  check_netmask-pass r s no_errors v.mask_ok,
  check_gateway-pass r s no_errors v.gateway_ok n,
  check_mac-pass r s no_errors v.mac_ok,
  check_frequency-pass r s no_errors cfg v.frequency_ok,
  check_dhcp-pass r s no_errors v.dhcp_ok,
)

pub gateway_replaced :
    (r s : Settings)
    → is_ip_invalid s.ip_addr ≡ false
    → is_mask_valid s.ip_mask ≡ true
    → in_subnet s ≡ false
    → (if is_ip_invalid s.ip_gateway || not (in_subnet (addressed r s))
        then r.ip_gateway
        else s.ip_gateway)
      ≡ r.ip_gateway
gateway_replaced r s hi hm out = elim (Bool-cases (is_ip_invalid s.ip_gateway)) [
  | inl b ↦ rw b
  | inr g ↦ rw (hi, hm, g, out)
]
