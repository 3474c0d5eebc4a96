-- ===== src/Settings/Validity.antt =====
-- What `Settings_validate` (application/libhw/settings.c) guarantees.
use or1k_spartan6_platform_x.Base.{
  ℕ, ◌≡◌, ◌⊎◌, inl, inr, true, false, refl, arith, ◌∙◌, ap, sym, ◌==◌, if◌then◌else◌, ==-refl,
  Bool-cases,
}
use or1k_spartan6_platform_x.Settings.{
  Settings, Config, no_errors, is_ip_invalid, is_mask_valid, in_subnet, settings_update_crc32,
  verify_settings_crc32, reference, check_fields, settings_validate,
}
use or1k_spartan6_platform_x.Settings.Checks.{
  fst-check_fields, check_fields-IsValid, in_subnet-same, gateway-check_fields,
  check_fields-accepts, gateway_replaced, GatewayFrom, IsValid,
}

module _ (cfg : Config) (sum : Settings → ℕ) where
  -- The checksum of the result is right, whatever the settings and the callback are.
  pub verify-settings_validate :
      (restored s : Settings)
      → (verify_settings_crc32 cfg sum (settings_validate cfg sum restored s).0).0 ≡ true
  unfolding settings_validate verify_settings_crc32 settings_update_crc32
  verify-settings_validate restored s = ==-refl _

  -- The settings before the checksum is renewed.
  abbrev chosen : Settings → Settings → Settings
  chosen restored s =
      if s.crc32 == (settings_update_crc32 cfg sum s).crc32
      then (check_fields cfg (reference cfg sum restored) (settings_update_crc32 cfg sum s)).0
      else reference cfg sum restored

  fst-settings_validate :
      (restored s : Settings)
      → (settings_validate cfg sum restored s).0 ≡ settings_update_crc32 cfg sum (chosen restored s)
  unfolding settings_validate verify_settings_crc32
  fst-settings_validate restored s = ground arith

  -- What the validity and the subnet test see of settings: all but the checksum.
  renewed : (s : Settings) → IsValid cfg s → IsValid cfg (settings_update_crc32 cfg sum s)
  unfolding settings_update_crc32
  renewed s v = record {
    ip_ok = v.ip_ok;
    mask_ok = v.mask_ok;
    gateway_ok = v.gateway_ok;
    mac_ok = v.mac_ok;
    frequency_ok = v.frequency_ok;
    dhcp_ok = v.dhcp_ok;
  }

  in_subnet-update : (s : Settings) → in_subnet (settings_update_crc32 cfg sum s) ≡ in_subnet s
  unfolding settings_update_crc32 in_subnet
  in_subnet-update s = refl

  gateway-update : (s : Settings) → (settings_update_crc32 cfg sum s).ip_gateway ≡ s.ip_gateway
  unfolding settings_update_crc32
  gateway-update s = refl

  -- If what fields are restored from is valid, every result is, corrupted settings included, and
  -- its gateway lies in its subnet or is the restored one.
  pub settings_validate-IsValid :
      (restored s : Settings)
      → IsValid cfg (reference cfg sum restored)
      → let out = (settings_validate cfg sum restored s).0 in
        let r = reference cfg sum restored in
        IsValid cfg out × ((in_subnet out ≡ true) ⊎ (out.ip_gateway ≡ r.ip_gateway))
  unfolding settings_update_crc32
  settings_validate-IsValid restored s v =
      rw (fst-settings_validate restored s, in_subnet-update, gateway-update)
        (renewed (chosen restored s) ok, from)
    where
      ok : IsValid cfg (chosen restored s)
      ok = elim (Bool-cases (s.crc32 == (settings_update_crc32 cfg sum s).crc32)) [
        | inl g ↦ rw g (
            check_fields-IsValid cfg (reference cfg sum restored) (settings_update_crc32 cfg sum s)
              v)
        | inr b ↦ rw b v
      ]

      from : GatewayFrom (reference cfg sum restored) (chosen restored s)
      from = elim (Bool-cases (s.crc32 == (settings_update_crc32 cfg sum s).crc32)) [
        | inl g ↦ rw g (
            gateway-check_fields cfg (reference cfg sum restored) (settings_update_crc32 cfg sum s))
        | inr b ↦ rw b (inr refl)
      ]

  snd-verify :
      (s : Settings) → (verify_settings_crc32 cfg sum s).1 ≡ settings_update_crc32 cfg sum s
  unfolding verify_settings_crc32
  snd-verify s = refl

  -- Settings whose checksum is right are left alone by its renewal.
  update_self :
      (s : Settings)
      → (verify_settings_crc32 cfg sum s).0 ≡ true
      → settings_update_crc32 cfg sum s ≡ s
  unfolding verify_settings_crc32 settings_update_crc32
  update_self s h = ap (λ (n : ℕ). record s { crc32 = n }) (sym (ground arith))

  -- Settings whose checksum is right, whose fields are acceptable and whose gateway lies in the
  -- subnet are returned unchanged and without an error.
  pub settings_validate-accepts :
      (restored s : Settings)
      → (verify_settings_crc32 cfg sum s).0 ≡ true
      → IsValid cfg s
      → in_subnet s ≡ true
      → settings_validate cfg sum restored s ≡ (s, no_errors)
  unfolding settings_validate
  settings_validate-accepts restored s h v n = rw (
    h,
    snd-verify s,
    update_self s h,
    check_fields-accepts cfg (reference cfg sum restored) s v n,
    update_self s h,
  )

  -- For settings whose checksum is right, with an acceptable address and netmask and a gateway
  -- outside the subnet, the result's gateway lies outside the subnet too whenever the restored
  -- gateway does not fit the stored address.
  pub settings_validate-outside :
      (restored s : Settings)
      → (verify_settings_crc32 cfg sum s).0 ≡ true
      → is_ip_invalid s.ip_addr ≡ false
      → is_mask_valid s.ip_mask ≡ true
      → in_subnet s ≡ false
      → in_subnet (record s { ip_gateway = (reference cfg sum restored).ip_gateway }) ≡ false
      → in_subnet (settings_validate cfg sum restored s).0 ≡ false
  unfolding settings_validate
  settings_validate-outside restored s h hi hm out stays =
      let r = reference cfg sum restored in
      rw (h, snd-verify s, update_self s h, in_subnet-update)
        (in_subnet-same _ (record s { ip_gateway = r.ip_gateway })
            (ap (λ (x : Settings). x.ip_addr) (fst-check_fields cfg r s) ∙ rw hi)
            (ap (λ (x : Settings). x.ip_mask) (fst-check_fields cfg r s) ∙ rw hm)
            (ap (λ (x : Settings). x.ip_gateway) (fst-check_fields cfg r s)
              ∙ gateway_replaced r s hi hm out)
          ∙ stays)
