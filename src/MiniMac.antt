-- ===== src/MiniMac.antt =====
-- application/libhw/minimac2.c and application/include/minimac2.h: the driver of the Ethernet MAC
-- with four receive slots. A failing `assert_slot` is `none`.
pub mod Counters
pub mod Search
pub mod Slots
use or1k_spartan6_platform_x.Base.{
  ℕ, zero, suc, ◌+◌, ◌-◌, ◌*◌, ◌%◌, Bool, true, false, ◌&&◌, not, Option, none, some, ◌==◌, ltb,
  leb, u16, u32, if◌then◌else◌,
}
use or1k_spartan6_platform_x.Base.Memory.{Memory, update}
use or1k_spartan6_platform_x.Base.Partial.{◌>>=◌}

-- `enum enMiniMACSlotStates`.
pub data SlotState : Type 0 where
  slot_state_disabled : SlotState
  slot_state_ready : SlotState
  slot_state_data_ressived : SlotState
  slot_state_invalid : SlotState

abbrev pub is_ready : SlotState → Bool
is_ready slot_state_ready = true
is_ready _ = false

abbrev pub is_ressived : SlotState → Bool
is_ressived slot_state_data_ressived = true
is_ressived _ = false

abbrev pub rx_slot_count : ℕ
rx_slot_count = 4

abbrev pub rx_slot_invalid : ℕ
rx_slot_invalid = 0xff

abbrev pub ethernet_frame_size_min : ℕ
ethernet_frame_size_min = 64

-- What the build sets: `MTU`, `MAC_RX_MEM_BASE` and `MAC_TX_MEM_BASE`.
pub record Config : Type 0 where
  pub mtu : ℕ
  pub rx_mem_base : ℕ
  pub tx_mem_base : ℕ

-- The bits of `MINIMAC_RST_CTL`, the slot registers, `MINIMAC_TX_REMAINING`, the driver's
-- `Rx_slots`, and the memory with the frames.
pub record Mac : Type 0 where
  pub rst_rx : Bool
  pub rst_tx : Bool
  pub slot_state : ℕ → SlotState
  pub slot_count : ℕ → ℕ
  pub tx_remaining : ℕ
  pub rx_slots : ℕ → ℕ
  pub memory : Memory

unfoldable pub enable_rx : Bool → Mac → Mac
enable_rx enable m = record m { rst_rx = not enable }

unfoldable pub enable_tx : Bool → Mac → Mac
enable_tx enable m = record m { rst_tx = not enable }

unfoldable pub align32 : ℕ → ℕ
align32 v = if v % 4 == 0 then v else u32 (v - v % 4 + 4)

unfoldable pub set_slot_state : ℕ → SlotState → Mac → Mac
set_slot_state slot s m = record m { slot_state = update m.slot_state slot s }

-- The loop of `miniMAC_init`, with the slots that are left.
unfoldable pub init_slots : Config → ℕ → ℕ → Mac → Mac
init_slots cfg zero slot m = m
init_slots cfg (suc left) slot m =
    let at_base = record m {
      rx_slots = update m.rx_slots slot (u32 (cfg.rx_mem_base + align32 (u32 (cfg.mtu * slot))));
    } in
    init_slots cfg left (slot + 1) (set_slot_state slot slot_state_ready at_base)

unfoldable pub mini_mac_init : Config → Mac → Mac
mini_mac_init cfg m = init_slots cfg rx_slot_count 0 (enable_tx true (enable_rx true m))

unfoldable pub find_ready_slot_loop : ℕ → ℕ → Mac → ℕ
find_ready_slot_loop zero slot m = rx_slot_invalid
find_ready_slot_loop (suc left) slot m =
    let rest = find_ready_slot_loop left (slot + 1) m in
    if is_ressived (m.slot_state slot) then slot else rest

unfoldable pub find_ready_slot : Mac → ℕ
find_ready_slot m = find_ready_slot_loop rx_slot_count 0 m

unfoldable pub assert_slot {ℓ} : {A : Type ℓ} → ℕ → A → Option A
assert_slot slot a = if ltb slot rx_slot_count then some a else none

unfoldable pub accept_slot : ℕ → Mac → Option Mac
accept_slot slot m = assert_slot slot (set_slot_state slot slot_state_disabled m)

unfoldable pub reset_rx_slot : ℕ → Mac → Option Mac
reset_rx_slot slot m = assert_slot slot (set_slot_state slot slot_state_ready m)

-- The loop of `miniMAC_resetIfError`: a slot with a part of a frame is made ready again.
unfoldable pub reset_slots : ℕ → ℕ → Mac → Option Mac
reset_slots zero slot m = some m
reset_slots (suc left) slot m = do
  let stuck = not (m.slot_count slot == 0) && is_ready (m.slot_state slot)
  after ← if stuck then reset_rx_slot slot m else some m
  reset_slots left (slot + 1) after

unfoldable pub reset_if_error : Mac → Option Mac
reset_if_error m =
    let restart = (do after ← reset_slots rx_slot_count 0 m; some (enable_rx true after)) in
    if m.rst_rx then restart else some m

unfoldable pub is_ready_to_tx : Mac → Bool
is_ready_to_tx m = m.tx_remaining == 0

unfoldable pub rx_count : ℕ → Mac → Option ℕ
rx_count slot m = assert_slot slot (u16 (m.slot_count slot))

unfoldable pub rx_slot_data : ℕ → Mac → Option ℕ
rx_slot_data slot m = assert_slot slot (m.rx_slots slot)

unfoldable pub tx_slot_data : Config → ℕ
tx_slot_data cfg = cfg.tx_mem_base

-- The least power of two from `w` on that is at least `n`, with as many doublings as the fuel.
unfoldable pub power_from : ℕ → ℕ → ℕ → ℕ
power_from zero w n = w
power_from (suc fuel) w n = elim (leb n w) [ true ↦ w | false ↦ power_from fuel (w * 2) n ]

-- The counters of the MAC have `TRANSFER_COUNTER_LEN = $clog2(MTU)` bits, and so many values.
unfoldable pub counter_range : Config → ℕ
counter_range cfg = power_from cfg.mtu 1 cfg.mtu

-- The register keeps the low bits of what is written.
unfoldable pub start_transmission : Config → ℕ → Mac → Mac
start_transmission cfg size m = record m { tx_remaining = u16 size % counter_range cfg }
