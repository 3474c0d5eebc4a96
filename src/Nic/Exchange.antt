-- ===== src/Nic/Exchange.antt =====
-- A frame on its way from one stack of application/ibexukIP, through the MAC, to another.
use or1k_spartan6_platform_x.Base.{
  ℕ, ◌+◌, ◌-◌, ◌%◌, ◌<◌, ◌≤◌, ◌≡◌, inl, inr, ap, sym, subst, ◌∙◌, arith, true, false, some, List,
  ◌++◌, length,
}
use mathlib.Core.Option.{some-injective}
use native.Mathlib.Decide.{ℕ_discrete}
use or1k_spartan6_platform_x.Base.Memory.{
  AllByteCells, read_block, read_block-write_block, update, update_same, update_other,
}
use or1k_spartan6_platform_x.MiniMac.{
  Config, Mac, slot_state_data_ressived, is_ressived, set_slot_state, find_ready_slot,
  rx_slot_invalid, counter_range,
}
use or1k_spartan6_platform_x.MiniMac.Counters.{counter_range-lt}
use or1k_spartan6_platform_x.MiniMac.Search.{find_ready_slot-IsSearch}
use or1k_spartan6_platform_x.MiniMac.Slots.{hw_slot_address}
use or1k_spartan6_platform_x.Nic.{
  Nic, nic_check_for_rx, nic_read_array, nic_setup_tx, nic_write_array, write_eth_header_to_nic,
  nic_tx_packet, ethernet_header,
}
use or1k_spartan6_platform_x.Nic.Transmit.{
  transmitted, sealed, padded, length-padded, sent_packet-transmitted,
}
use or1k_spartan6_platform_x.Nic.Receive.{
  taken, length-sealed, Holds, IsChecked, nic_check_for_rx-sealed, nic_check_for_rx-IsChecked,
}
use or1k_spartan6_platform_x.Nic.Ownership.{hw_write, AllFit, HwSteps, HwSteps-Untouched}

-- The MAC has received a frame into a slot.
abbrev pub arrived : Config → ℕ → List ℕ → Mac → Mac
arrived cfg slot bytes m = set_slot_state slot slot_state_data_ressived (hw_write cfg slot bytes m)

arrived-found :
    (cfg : Config) (slot : ℕ) (bytes : List ℕ) (m : Mac)
    → slot < 4
    → find_ready_slot m ≡ rx_slot_invalid
    → find_ready_slot (arrived cfg slot bytes m) ≡ slot
unfolding set_slot_state hw_write
arrived-found cfg slot bytes m lt nothing =
    elim (find_ready_slot-IsSearch (arrived cfg slot bytes m)) [
      | inl h ↦ absurd (
          distinct (
            sym (ap is_ressived (update_same m.slot_state slot slot_state_data_ressived))
            ∙ h.1 slot (omega arith) (omega arith)))
      | inr h ↦ only (find_ready_slot (arrived cfg slot bytes m)) h.1 h.2
    ]
  where
    distinct : true ≡ false → ⊥
    distinct e = cc

    quiet : (i : ℕ) → i < 4 → is_ressived (m.slot_state i) ≡ false
    quiet i l = elim (find_ready_slot-IsSearch m) [
      | inl h ↦ h.1 i (omega arith) l
      | inr h ↦ absurd (omega (arith, h.1, nothing))
    ]

    only :
        (found : ℕ)
        → found < 4
        → is_ressived (update m.slot_state slot slot_state_data_ressived found) ≡ true
        → found ≡ slot
    only found l e = elim (ℕ_discrete slot found) [
      | yes q ↦ sym q
      | no q ↦ absurd (
          distinct (
            sym e
            ∙ ap is_ressived (update_other m.slot_state slot found slot_state_data_ressived q)
            ∙ quiet found l))
    ]

arrived-Holds :
    (cfg : Config) (slot : ℕ) (bytes : List ℕ) (m : Mac)
    → m.rx_slots slot ≡ hw_slot_address cfg slot
    → length bytes < cfg.mtu
    → Holds (arrived cfg slot bytes m) slot bytes
unfolding set_slot_state hw_write
arrived-Holds cfg slot bytes m e fits = (
  update_same m.slot_count slot (length bytes % counter_range cfg)
      ∙ counter_range-lt cfg (length bytes) fits,
  rw e (read_block-write_block m.memory (hw_slot_address cfg slot) bytes),
)

-- A packet that one stack sends and the MAC of another one of the same build receives, where no frame
-- waits and the driver has the MAC's address of the slot, is handed to the other stack with the length
-- of the padded frame and its checksum, if that length is below `MTU`, which is at most 2 ^ 16.
pub sent_packet-received :
    (cfg : Config) (s r : Nic) (ours remote : List ℕ) (kind : ℕ) (payload : List ℕ) (slot : ℕ)
    → cfg.mtu ≤ 65536
    → length (padded (ethernet_header remote ours kind ++ payload)) + 4 < cfg.mtu
    → slot < 4
    → find_ready_slot r.mac ≡ rx_slot_invalid
    → r.mac.rx_slots slot ≡ hw_slot_address cfg slot
    → let sent =
        transmitted cfg
          (nic_tx_packet cfg (
            nic_write_array payload
              (write_eth_header_to_nic ours remote kind (nic_setup_tx cfg s)))).mac in
      let after = record r { mac = arrived cfg slot sent r.mac } in
      nic_check_for_rx after
      ≡ some (length (padded (ethernet_header remote ours kind ++ payload)) + 4, taken slot after)
sent_packet-received cfg s r ours remote kind payload slot most size lt nothing address =
    let frame = padded (ethernet_header remote ours kind ++ payload) in
    subst
      (λ sent.
        nic_check_for_rx (record r { mac = arrived cfg slot sent r.mac })
        ≡ some (length frame + 4, taken slot (record r { mac = arrived cfg slot sent r.mac })))
      (sym (sent_packet-transmitted cfg s ours remote kind payload most size))
      (nic_check_for_rx-sealed (record r { mac = arrived cfg slot (sealed frame) r.mac }) slot frame
        (arrived-found cfg slot (sealed frame) r.mac lt nothing) lt
        (arrived-Holds cfg slot (sealed frame) r.mac address
          (omega (arith, size, length-sealed frame)))
        (length-padded (ethernet_header remote ours kind ++ payload)).0 (omega (arith, most, size)))

returned-IsChecked :
    (s t : Nic) (n : ℕ)
    → AllByteCells s.mac.memory
    → nic_check_for_rx s ≡ some (n, t)
    → IsChecked n t
returned-IsChecked s t n cells e =
    let r = nic_check_for_rx-IsChecked s cells in
    subst (λ o. IsChecked o.0 o.1) (some-injective (r.0, r.1) (n, t) (sym r.2 ∙ e)) r.3

-- A frame that was handed to the stack is read whole and ends with its checksum, however many frames
-- of up to `MTU` the MAC receives or breaks off in the meantime: the memory holds bytes, the driver has
-- the MAC's address of the slot, and the frame is not longer than `MTU`, which is below 2 ^ 32 - 4.
pub nic_read_array-HwSteps :
    (cfg : Config) (s t : Nic) (m : Mac) (n : ℕ) (sizes : List ℕ)
    → AllByteCells s.mac.memory
    → nic_check_for_rx s ≡ some (n, t)
    → 0 < n
    → t.mac.rx_slots t.rx_working_slot ≡ hw_slot_address cfg t.rx_working_slot
    → n ≤ cfg.mtu
    → cfg.mtu + 4 < 4294967296
    → AllFit cfg sizes
    → HwSteps cfg sizes t.mac m
    → (nic_read_array n (record t { mac = m })).0
      ≡ sealed (nic_read_array (n - 4) (record t { mac = m })).0
unfolding nic_read_array
nic_read_array-HwSteps cfg s t m n sizes cells checked pos address le w fit steps =
    elim (returned-IsChecked s t n cells checked) [
      | inl h ↦ absurd (omega (arith, h.0, pos))
      | inr h ↦
          let kept = HwSteps-Untouched cfg sizes t.mac m t.rx_working_slot steps fit h.2 w in
          let at_slot = h.3 ∙ address in
          let same : (k : ℕ)
              → k ≤ cfg.mtu
              → read_block m.memory t.rx_pointer k ≡ read_block t.mac.memory t.rx_pointer k =
            λ k l.
              subst (λ p. read_block m.memory p k ≡ read_block t.mac.memory p k) (sym at_slot)
                (kept.3 k l) in
          same n le ∙ h.4 ∙ ap sealed (sym (same (n - 4) (omega arith)))
    ]
