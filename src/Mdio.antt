-- ===== src/Mdio.antt =====
-- application/libhw/mdio.c: registers of the Ethernet PHYs through the MDIO controller, whose own two
-- registers are an argument. `none` for a PHY is a negative address, and a run that is `none` has used
-- up its fuel in the wait for the controller.
pub mod Detect
use or1k_spartan6_platform_x.Base.{
  ℕ, zero, suc, ◌+◌, ◌-◌, ◌*◌, ◌/◌, ◌%◌, Bool, true, false, not, Option, none, some, ◌==◌, u16,
  if◌then◌else◌,
}
use or1k_spartan6_platform_x.Base.Partial.{◌>>=◌}

-- `MDIO_REG_CTL` and `MDIO_REG_DATA`. A look at the control register takes time.
pub record Controller (S : Type 0) : Type 0 where
  pub ctl : S → ℕ × S
  pub set_ctl : ℕ → S → S
  pub reg_data : S → ℕ
  pub set_reg_data : ℕ → S → S

-- The controller, and `last_detected_phy_addr`.
pub record Mdio (S : Type 0) : Type 0 where
  pub controller : S
  pub last_detected : Option ℕ

abbrev pub phy_bmcr : ℕ
phy_bmcr = 0

abbrev pub phy_bmsr : ℕ
phy_bmsr = 1

-- `MDIO_REG_CTL_IF`.
abbrev pub is_ready : ℕ → Bool
is_ready w = w / 268435456 % 2 == 1

-- The fields of both addresses.
unfoldable pub address_fields : ℕ → ℕ → ℕ
address_fields phy reg = phy % 32 * 32 + reg % 32

unfoldable pub read_command : ℕ → ℕ → ℕ
read_command phy reg = 2147483648 + address_fields phy reg

unfoldable pub write_command : ℕ → ℕ → ℕ
write_command phy reg = 2147483648 + 1073741824 + address_fields phy reg

module _ {S : Type 0} (c : Controller S) (fuel : ℕ) where
  -- `while(!(MDIO_REG_CTL & MDIO_REG_CTL_IF));`, by the looks that it may take.
  unfoldable pub wait_loop : ℕ → S → Option S
  wait_loop zero s = none
  wait_loop (suc n) s =
      let (w, after) = c.ctl s in
      let rest = wait_loop n after in if is_ready w then some after else rest

  unfoldable pub wait_ready : S → Option S
  wait_ready s = wait_loop fuel s

  -- `MDIO_ReadREG_sync` behind the choice of the address.
  unfoldable pub read_at : ℕ → ℕ → Mdio S → Option (ℕ × Mdio S)
  read_at phy reg m = do
    idle ← wait_ready m.controller
    ended ← wait_ready (c.set_ctl (read_command phy reg) idle)
    some (u16 (c.reg_data ended), record m { controller = ended })

  -- The loop of `MDIO_DetectPHY`, with the addresses that are left.
  unfoldable pub detect_loop : ℕ → ℕ → Mdio S → Option (Option ℕ × Mdio S)
  detect_loop zero i m = some (none, m)
  detect_loop (suc left) i m = do
    r ← read_at i phy_bmcr m
    let found = some (some i, record r.1 { last_detected = some i })
    let rest = detect_loop left (i + 1) r.1
    if r.0 == 0xffff then rest else found

  unfoldable pub mdio_detect_phy : ℕ → Mdio S → Option (Option ℕ × Mdio S)
  mdio_detect_phy start m = detect_loop (64 - start) start m

  -- The PHY that was found before, or is looked for now.
  unfoldable pub choose_found : Option ℕ → Mdio S → Option (Option ℕ × Mdio S)
  choose_found (some phy) m = some (some phy, m)
  choose_found none m = mdio_detect_phy 0 m

  -- The PHY that was named.
  unfoldable pub choose : Option ℕ → Mdio S → Option (Option ℕ × Mdio S)
  choose (some phy) m = some (some phy, m)
  choose none m = choose_found m.last_detected m

  unfoldable pub read_chosen : ℕ → Option ℕ × Mdio S → Option (ℕ × Mdio S)
  read_chosen reg (none, m) = some (0, m)
  read_chosen reg (some phy, m) = read_at phy reg m

  unfoldable pub mdio_read_reg_sync : Option ℕ → ℕ → Mdio S → Option (ℕ × Mdio S)
  mdio_read_reg_sync phy reg m = do chosen ← choose phy m; read_chosen reg chosen

  unfoldable pub write_chosen : ℕ → ℕ → Option ℕ × Mdio S → Option (Mdio S)
  write_chosen reg val (none, m) = some m
  write_chosen reg val (some phy, m) = do
    idle ← wait_ready m.controller
    let sent = c.set_ctl (write_command phy reg) (c.set_reg_data val idle)
    some (record m { controller = sent })

  unfoldable pub mdio_write_reg : Option ℕ → ℕ → ℕ → Mdio S → Option (Mdio S)
  mdio_write_reg phy reg val m = do chosen ← choose phy m; write_chosen reg val chosen

  unfoldable pub mdio_get_connection_status : Option ℕ → Mdio S → Option (ℕ × Mdio S)
  mdio_get_connection_status phy m = do
    r ← mdio_read_reg_sync phy phy_bmsr m
    some (if r.0 / 4 % 2 == 1 then 1 else 0, r.1)
