-- ===== src/Nic/Reach.antt =====
-- The stack and the MAC at work on the receive slots, in any order: no slot is lost. The stack
-- looks for a frame only when it holds none.
use or1k_spartan6_platform_x.Base.{ℕ, ◌<◌, ◌≡◌, ◌⊎◌, ◌↔◌, refl, arith, some, List, ==-ne}
use or1k_spartan6_platform_x.MiniMac.{
  Config, Mac, slot_state_ready, slot_state_disabled, set_slot_state, rx_slot_invalid,
}
use or1k_spartan6_platform_x.MiniMac.Search.{reset_rx_slot-lt}
use or1k_spartan6_platform_x.Nic.{
  Nic, nic_initialise, nic_check_for_rx, nic_read_array, nic_rx_dump_packet, nic_write_array,
  nic_tx_packet, nic_read_next_byte, nic_move_pointer, nic_setup_tx, write_eth_header_to_nic,
  nic_write_next_byte, nic_write_tx_word_at_location, nic_tx_writen_directly,
}
use or1k_spartan6_platform_x.Nic.Ownership.{HwStep}
use or1k_spartan6_platform_x.Nic.Owns.{Owns}

pub data NicStep (cfg : Config) : Nic → Nic → Type 0 where
  mac_works :
      (s : Nic) (n : ℕ) (m : Mac) → HwStep cfg n s.mac m → NicStep cfg s (record s { mac = m })
  checks :
      (s t : Nic) (n : ℕ)
      → s.rx_working_slot ≡ rx_slot_invalid
      → nic_check_for_rx s ≡ some (n, t)
      → NicStep cfg s t
  dumps : (s t : Nic) → nic_rx_dump_packet s ≡ some t → NicStep cfg s t
  reads : (s : Nic) (n : ℕ) → NicStep cfg s (nic_read_array n s).1
  reads_byte : (s : Nic) → NicStep cfg s (nic_read_next_byte s).1
  moves : (s t : Nic) (offset : ℕ) → nic_move_pointer offset s ≡ some t → NicStep cfg s t
  sets_up : (s : Nic) → NicStep cfg s (nic_setup_tx cfg s)
  writes_header :
      (s : Nic) (ours remote : List ℕ) (kind : ℕ)
      → NicStep cfg s (write_eth_header_to_nic ours remote kind s)
  writes : (s : Nic) (bytes : List ℕ) → NicStep cfg s (nic_write_array bytes s)
  writes_byte : (s : Nic) (b : ℕ) → NicStep cfg s (nic_write_next_byte b s)
  writes_word : (s : Nic) (a w : ℕ) → NicStep cfg s (nic_write_tx_word_at_location cfg a w s)
  writen_directly : (s : Nic) (n : ℕ) → NicStep cfg s (nic_tx_writen_directly n s)
  sends : (s : Nic) → NicStep cfg s (nic_tx_packet cfg s)

-- The states behind the initialisation, which starts the stack's timers by `init_eth_timers`.
pub data Reach (cfg : Config) (init_eth_timers : Nic → Nic) : Nic → Type 0 where
  starts : (s : Nic) → Reach cfg init_eth_timers (nic_initialise init_eth_timers cfg s)
  goes : (s t : Nic) → Reach cfg init_eth_timers s → NicStep cfg s t → Reach cfg init_eth_timers t

-- The slot that the driver works on is the only one out of use.
abbrev pub IsOwned : Nic → Type 0
IsOwned s =
    ((s.rx_working_slot ≡ rx_slot_invalid) ⊎ (s.rx_working_slot < 4))
    × ((i : ℕ) → i < 4 → (s.mac.slot_state i ≡ slot_state_disabled) ↔ (s.rx_working_slot ≡ i))

abbrev pub released : Nic → Nic
released s = record s {
  mac = set_slot_state s.rx_working_slot slot_state_ready s.mac;
  rx_working_slot = rx_slot_invalid;
}

pub nic_rx_dump_packet-free :
    (s : Nic) → s.rx_working_slot ≡ rx_slot_invalid → nic_rx_dump_packet s ≡ some s
unfolding nic_rx_dump_packet
nic_rx_dump_packet-free s h = rw h refl

pub nic_rx_dump_packet-held :
    (s : Nic) → s.rx_working_slot < 4 → nic_rx_dump_packet s ≡ some (released s)
unfolding nic_rx_dump_packet
nic_rx_dump_packet-held s h =
    rw
      (
        ==-ne s.rx_working_slot 255 (λ e. absurd (omega arith)),
        reset_rx_slot-lt s.rx_working_slot s.mac h,
      )
      refl
