-- ===== src/Nic.antt =====
-- application/ibexukIP/eth-nic.c: the network stack's access to frames, over the MAC driver.
-- A pointer is an address, the processor stores words with the high byte first, and a `memcpy` takes
-- the list of the bytes it copies.
pub mod Transmit
pub mod Frame
pub mod Receive
pub mod Ownership
pub mod Exchange
pub mod Owns
pub mod Reach
pub mod Drain
use or1k_spartan6_platform_x.Base.{
  ℕ, zero, suc, ◌+◌, ◌-◌, ◌*◌, ◌/◌, ◌%◌, Bool, true, false, Option, none, some, List, [], ◌∷◌, ◌++◌,
  length, replicate, get_or, ◌==◌, ltb, u8, u16, u32, u32, if◌then◌else◌,
}
use or1k_spartan6_platform_x.Base.Memory.{Memory, read_block, write_block}
use or1k_spartan6_platform_x.Base.Partial.{◌>>=◌}
use or1k_spartan6_platform_x.Crc32.{crc32}
use or1k_spartan6_platform_x.MiniMac.{
  Config, Mac, mini_mac_init, reset_if_error, find_ready_slot, rx_slot_invalid, accept_slot,
  rx_slot_data, rx_count, reset_rx_slot, is_ready_to_tx, tx_slot_data, start_transmission,
  ethernet_frame_size_min,
}

-- The variables of the file, over the MAC.
pub record Nic : Type 0 where
  pub mac : Mac
  pub rx_working_slot : ℕ
  pub rx_pointer : ℕ
  pub tx_pointer : ℕ
  pub tx_len : ℕ

abbrev pub with_memory : Memory → Nic → Nic
with_memory k s = record s { mac = record s.mac { memory = k } }

-- `init_eth_timers` starts the timers of the stack.
unfoldable pub nic_initialise : (Nic → Nic) → Config → Nic → Nic
nic_initialise init_eth_timers cfg s =
    init_eth_timers (record s {
      mac = mini_mac_init cfg s.mac;
      rx_working_slot = rx_slot_invalid;
      rx_pointer = 0;
    })

-- The checksum behind the `n` bytes at `p`, low byte first.
unfoldable pub ressived_crc : Memory → ℕ → ℕ → ℕ
ressived_crc k p n =
    k (p + (n - 1)) * 16777216 + k (p + (n - 2)) * 65536 + k (p + (n - 3)) * 256 + k (p + (n - 4))

unfoldable pub frame_accepted : Memory → ℕ → ℕ → Bool
frame_accepted k p n =
    if ltb n ethernet_frame_size_min
    then false
    else ressived_crc k p n == crc32 (read_block k p (n - 4))

-- Behind `__ressive_error`.
unfoldable pub ressive_error : Nic → Option (ℕ × Nic)
ressive_error s = do
  released ← reset_rx_slot s.rx_working_slot s.mac
  some (0, record s { mac = released; rx_working_slot = rx_slot_invalid })

-- What follows the search for a slot.
unfoldable pub take_slot : ℕ → Nic → Option (ℕ × Nic)
take_slot slot s = do
  accepted ← accept_slot slot s.mac
  p ← rx_slot_data slot accepted
  rxlen ← rx_count slot accepted
  let taken = record s { mac = accepted; rx_working_slot = slot; rx_pointer = p }
  if frame_accepted accepted.memory p rxlen then some (rxlen, taken) else ressive_error taken

unfoldable pub nic_check_for_rx : Nic → Option (ℕ × Nic)
nic_check_for_rx s = do
  restarted ← reset_if_error s.mac
  let slot = find_ready_slot restarted
  let searched = record s { mac = restarted; rx_working_slot = slot }
  if slot == rx_slot_invalid then some (0, searched) else take_slot slot searched

unfoldable pub nic_ok_to_do_tx : Nic → Bool
nic_ok_to_do_tx s = is_ready_to_tx s.mac

unfoldable pub nic_read_next_byte : Nic → ℕ × Nic
nic_read_next_byte s = (s.mac.memory s.rx_pointer, record s { rx_pointer = s.rx_pointer + 1 })

unfoldable pub nic_read_array : ℕ → Nic → List ℕ × Nic
nic_read_array n s =
    (read_block s.mac.memory s.rx_pointer n, record s { rx_pointer = s.rx_pointer + n })

-- The 32 bits of a `SIGNED_WORD` that is given by its 16 bits.
abbrev pub sign_extended : ℕ → ℕ
sign_extended w = if ltb w 32768 then w else w + (4294967296 - 65536)

unfoldable pub nic_move_pointer : ℕ → Nic → Option Nic
nic_move_pointer offset s = do
  p ← rx_slot_data s.rx_working_slot s.mac
  some (record s { rx_pointer = u32 (p + sign_extended offset) })

unfoldable pub nic_rx_dump_packet : Nic → Option Nic
nic_rx_dump_packet s =
    let dump = (do
      released ← reset_rx_slot s.rx_working_slot s.mac
      some (record s { mac = released; rx_working_slot = rx_slot_invalid })) in
    if s.rx_working_slot == rx_slot_invalid then some s else dump

unfoldable pub nic_setup_tx : Config → Nic → Nic
nic_setup_tx cfg s = record s { tx_pointer = tx_slot_data cfg; tx_len = 0 }

unfoldable pub nic_tx_writen_directly : ℕ → Nic → Nic
nic_tx_writen_directly n s = record s { tx_pointer = s.tx_pointer + n; tx_len = u16 (s.tx_len + n) }

unfoldable pub nic_write_next_byte : ℕ → Nic → Nic
nic_write_next_byte b s = record (with_memory (write_block s.mac.memory s.tx_pointer (b ∷ [])) s) {
  tx_pointer = s.tx_pointer + 1;
  tx_len = u16 (s.tx_len + 1);
}

unfoldable pub nic_write_array : List ℕ → Nic → Nic
nic_write_array bytes s = record (with_memory (write_block s.mac.memory s.tx_pointer bytes) s) {
  tx_pointer = s.tx_pointer + length bytes;
  tx_len = u16 (s.tx_len + length bytes);
}

unfoldable pub nic_get_wrpointer : Nic → ℕ
nic_get_wrpointer s = s.tx_pointer

unfoldable pub nic_write_tx_word_at_location : Config → ℕ → ℕ → Nic → Nic
nic_write_tx_word_at_location cfg a w s =
    with_memory (write_block s.mac.memory (tx_slot_data cfg + a) (w / 256 ∷ w % 256 ∷ [])) s

abbrev mac_bytes : List ℕ → List ℕ
mac_bytes v =
    get_or v 0 0 ∷ get_or v 1 0 ∷ get_or v 2 0 ∷ get_or v 3 0 ∷ get_or v 4 0 ∷ get_or v 5 0 ∷ []

-- `struct ethernet_header`: the two addresses and the type.
unfoldable pub ethernet_header : List ℕ → List ℕ → ℕ → List ℕ
ethernet_header remote ours kind =
    mac_bytes remote ++ mac_bytes ours ++ (kind / 256 ∷ kind % 256 ∷ [])

unfoldable pub write_eth_header_to_nic : List ℕ → List ℕ → ℕ → Nic → Nic
write_eth_header_to_nic ours remote kind s =
    record (with_memory (write_block s.mac.memory s.tx_pointer (ethernet_header remote ours kind))
      s) { tx_pointer = s.tx_pointer + 14; tx_len = 14 }

unfoldable pub pad_frame : Config → Nic → Nic
pad_frame cfg s =
    if ltb s.tx_len 60
    then record (with_memory (write_block s.mac.memory s.tx_pointer (replicate (60 - s.tx_len) 0))
        s) { tx_pointer = tx_slot_data cfg + 60; tx_len = 60 }
    else s

unfoldable pub crc_bytes : ℕ → List ℕ
crc_bytes crc = u8 crc ∷ u8 (crc / 256) ∷ u8 (crc / 65536) ∷ u8 (crc / 16777216) ∷ []

unfoldable pub nic_tx_packet : Config → Nic → Nic
nic_tx_packet cfg s =
    let padded = pad_frame cfg s in
    let crc = crc32 (read_block padded.mac.memory (tx_slot_data cfg) padded.tx_len) in
    let k = write_block padded.mac.memory padded.tx_pointer (crc_bytes crc) in
    let n = u16 (padded.tx_len + 4) in
    record padded {
      mac = start_transmission cfg n (record padded.mac { memory = k });
      tx_pointer = padded.tx_pointer + 3;
      tx_len = n;
    }
