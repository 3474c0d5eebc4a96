-- ===== src/Tests/Ethernet.antt =====
-- Frames through two interfaces on concrete memories.
use or1k_spartan6_platform_x.Base.{
  ℕ, ◌*◌, ◌%◌, ◌<◌, ◌≡◌, ◌⊎◌, ◌↔◌, refl, arith, true, false, some, List, [], ◌∷◌, ◌++◌, replicate,
  length, ◌+◌, get_or, if◌then◌else◌, ◌==◌,
}
use or1k_spartan6_platform_x.Base.Memory.{read_block, update}
use or1k_spartan6_platform_x.Crc32.{crc32, crc_loop, crc_nibble}
use or1k_spartan6_platform_x.MiniMac.{
  Config, slot_state_ready, slot_state_disabled, slot_state_data_ressived, rx_slot_invalid,
  set_slot_state, find_ready_slot, find_ready_slot_loop, reset_if_error, mini_mac_init, init_slots,
  enable_rx, enable_tx, align32, accept_slot, assert_slot, rx_slot_data, rx_count,
}
use or1k_spartan6_platform_x.MiniMac.Slots.{hw_slot_address, mini_mac_init-hw_slot_address}
use or1k_spartan6_platform_x.Nic.{
  Nic, nic_initialise, nic_check_for_rx, take_slot, frame_accepted, ressived_crc, nic_read_array,
  nic_setup_tx, nic_write_array, write_eth_header_to_nic, nic_tx_packet, ethernet_header,
}
use or1k_spartan6_platform_x.Nic.Transmit.{transmitted, sealed, padded, sent_packet-transmitted}
use or1k_spartan6_platform_x.Nic.Receive.{taken, IsChecked, nic_check_for_rx-IsChecked}
use or1k_spartan6_platform_x.Nic.Ownership.{HwSteps, idle, next, frame_ends}
use or1k_spartan6_platform_x.Nic.Exchange.{arrived, sent_packet-received, nic_read_array-HwSteps}
use or1k_spartan6_platform_x.Nic.Drain.{polls, polls-drained}

abbrev board : Config
board = record { mtu = 1530; rx_mem_base = 0; tx_mem_base = 32768 }

abbrev dark : Nic
dark = record {
  mac = record {
    rst_rx = true;
    rst_tx = true;
    slot_state = λ i. slot_state_disabled;
    slot_count = λ i. 0;
    tx_remaining = 0;
    rx_slots = λ i. 0;
    memory = λ a. 0;
  };
  rx_working_slot = 0;
  rx_pointer = 0;
  tx_pointer = 0;
  tx_len = 0;
}

abbrev waiting : Nic
waiting = nic_initialise (λ s. s) board dark

abbrev ours : List ℕ
ours = 0 ∷ 24 ∷ 62 ∷ 1 ∷ 2 ∷ 3 ∷ []

abbrev everyone : List ℕ
everyone = 255 ∷ 255 ∷ 255 ∷ 255 ∷ 255 ∷ 255 ∷ []

abbrev sender : Nic
sender = nic_tx_packet board (
    nic_write_array (1 ∷ 2 ∷ [])
      (write_eth_header_to_nic ours everyone 2054 (nic_setup_tx board dark)))

small_packet : length (padded (ethernet_header everyone ours 2054 ++ (1 ∷ 2 ∷ []))) + 4 < 1530
unfolding ethernet_header
small_packet = omega arith

sent_packet-transmitted_example :
    transmitted board sender.mac
    ≡ sealed (padded (ethernet_header everyone ours 2054 ++ (1 ∷ 2 ∷ [])))
sent_packet-transmitted_example =
    sent_packet-transmitted board dark ours everyone 2054 (1 ∷ 2 ∷ []) (omega arith) small_packet

nothing_waits : find_ready_slot waiting.mac ≡ rx_slot_invalid
unfolding nic_initialise mini_mac_init init_slots set_slot_state find_ready_slot
    find_ready_slot_loop enable_rx enable_tx update
nothing_waits = refl

address-waiting : waiting.mac.rx_slots 1 ≡ hw_slot_address board 1
unfolding nic_initialise mini_mac_init init_slots set_slot_state enable_rx enable_tx update
    hw_slot_address align32
address-waiting = refl

sent_packet-received_example :
    let after = record waiting {
      mac = arrived board 1 (transmitted board sender.mac) waiting.mac;
    } in
    nic_check_for_rx after ≡ some (64, taken 1 after)
unfolding ethernet_header
sent_packet-received_example =
    sent_packet-received board dark waiting ours everyone 2054 (1 ∷ 2 ∷ []) 1 (omega arith)
      small_packet (omega arith) nothing_waits address-waiting

-- A frame of zeros with its checksum in slot 0.
abbrev frame : List ℕ
frame = replicate 60 0 ++ (8 ∷ 137 ∷ 18 ∷ 4 ∷ [])

abbrev loaded : Nic
loaded = record dark {
  mac = record dark.mac {
    rst_rx = false;
    slot_state = λ i. if i == 0 then slot_state_data_ressived else slot_state_ready;
    slot_count = λ i. if i == 0 then 64 else 0;
    rx_slots = λ i. 1532 * i;
    memory = λ a. get_or frame a 0 % 256;
  };
}

nic_check_for_rx-IsChecked_example :
    (n : ℕ) × (t : Nic) × (nic_check_for_rx loaded ≡ some (n, t)) × IsChecked n t
nic_check_for_rx-IsChecked_example = nic_check_for_rx-IsChecked loaded (λ q. omega arith)

address-loaded : (taken 0 loaded).mac.rx_slots 0 ≡ hw_slot_address board 0
unfolding set_slot_state hw_slot_address align32
address-loaded = refl

ready-taken : (taken 0 loaded).mac.slot_state 1 ≡ slot_state_ready
unfolding set_slot_state update
ready-taken = refl

loaded-taken : nic_check_for_rx loaded ≡ some (64, taken 0 loaded)
unfolding nic_check_for_rx reset_if_error find_ready_slot find_ready_slot_loop take_slot accept_slot
    assert_slot rx_slot_data rx_count set_slot_state frame_accepted ressived_crc read_block crc32
    crc_loop crc_nibble
loaded-taken = refl

abbrev board_works :
    HwSteps board (2 ∷ []) (taken 0 loaded).mac (arrived board 1 (1 ∷ 2 ∷ []) (taken 0 loaded).mac)
board_works =
    next [] 2 (taken 0 loaded).mac (taken 0 loaded).mac
      (arrived board 1 (1 ∷ 2 ∷ []) (taken 0 loaded).mac) (idle (taken 0 loaded).mac)
      (frame_ends (taken 0 loaded).mac 1 (1 ∷ 2 ∷ []) (omega arith) ready-taken (omega arith))

nic_read_array-HwSteps_example :
    let later = record (taken 0 loaded) {
      mac = arrived board 1 (1 ∷ 2 ∷ []) (taken 0 loaded).mac;
    } in
    (nic_read_array 64 later).0 ≡ sealed (nic_read_array 60 later).0
nic_read_array-HwSteps_example =
    nic_read_array-HwSteps board loaded (taken 0 loaded)
      (arrived board 1 (1 ∷ 2 ∷ []) (taken 0 loaded).mac) 64 (2 ∷ []) (λ q. omega arith)
      loaded-taken (omega arith) address-loaded (omega arith) (omega arith) (omega arith)
      board_works

-- A packet goes out while a frame waits in slot 1.
abbrev received : Nic
received = record waiting { mac = arrived board 1 (1 ∷ 2 ∷ []) waiting.mac }

abbrev filled : Nic
filled = write_eth_header_to_nic ours everyone 2054 (nic_setup_tx board received)

polls-drained_example :
    (t : Nic) × (polls 4 loaded ≡ some t) × (find_ready_slot t.mac ≡ rx_slot_invalid)
polls-drained_example = polls-drained loaded

mini_mac_init-hw_slot_address_example :
    ((mini_mac_init board dark.mac).rx_slots 3 ≡ hw_slot_address board 3)
    ↔ ((3 < 2) ⊎ (1530 % 4 ≡ 0) ⊎ (1530 % 4 ≡ 3))
mini_mac_init-hw_slot_address_example =
    mini_mac_init-hw_slot_address board dark.mac 3 (omega arith) (omega arith)
