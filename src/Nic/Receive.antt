-- ===== src/Nic/Receive.antt =====
-- Frames on their way in through application/ibexukIP/eth-nic.c.
use or1k_spartan6_platform_x.Base.{
  ℕ, zero, suc, ◌+◌, ◌-◌, ◌<◌, ◌≤◌, ◌≡◌, ◌⊎◌, inl, inr, refl, ap, sym, ◌∙◌, arith, true, false,
  some, List, ◌++◌, length, length-append, ==-ne, u16, if◌then◌else◌, Bool-cases,
}
use or1k_spartan6_platform_x.Base.Memory.{AllByteCells, read_block, read_block_prefix, update_same}
use or1k_spartan6_platform_x.Crc32.{crc32}
use or1k_spartan6_platform_x.MiniMac.{
  Mac, slot_state_ready, slot_state_disabled, set_slot_state, find_ready_slot, find_ready_slot_loop,
  rx_slot_invalid, assert_slot, accept_slot, reset_rx_slot, rx_slot_data, rx_count,
}
use or1k_spartan6_platform_x.MiniMac.Search.{find_ready_slot-IsSearch, reset_if_error-eq}
use or1k_spartan6_platform_x.Nic.{
  Nic, frame_accepted, ressive_error, take_slot, nic_check_for_rx, crc_bytes,
}
use or1k_spartan6_platform_x.Nic.Transmit.{sealed}
use or1k_spartan6_platform_x.Nic.Frame.{
  sealed-frame_accepted, frame_accepted-le, frame_accepted-sealed,
}

-- The state with the first waiting frame taken, and the one with it dropped.
abbrev pub taken : ℕ → Nic → Nic
taken slot s = record s {
  mac = set_slot_state slot slot_state_disabled (record s.mac { rst_rx = false });
  rx_working_slot = slot;
  rx_pointer = s.mac.rx_slots slot;
}

abbrev pub dropped : ℕ → Nic → Nic
dropped slot s = record (taken slot s) {
  mac = set_slot_state slot slot_state_ready (taken slot s).mac;
  rx_working_slot = rx_slot_invalid;
}

take_slot-eq :
    (slot : ℕ) (s : Nic)
    → slot < 4
    → take_slot slot (record s { mac = record s.mac { rst_rx = false }; rx_working_slot = slot })
      ≡ (if frame_accepted s.mac.memory (s.mac.rx_slots slot) (u16 (s.mac.slot_count slot))
          then some (u16 (s.mac.slot_count slot), taken slot s)
          else some (0, dropped slot s))
unfolding take_slot ressive_error accept_slot rx_slot_data rx_count reset_rx_slot set_slot_state
    assert_slot
take_slot-eq zero s h = refl
take_slot-eq (suc zero) s h = refl
take_slot-eq (suc (suc zero)) s h = refl
take_slot-eq (suc (suc (suc zero))) s h = refl
take_slot-eq (suc (suc (suc (suc slot)))) s h = absurd (omega arith)

find-restarted : (m : Mac) → find_ready_slot (record m { rst_rx = false }) ≡ find_ready_slot m
unfolding find_ready_slot find_ready_slot_loop
find-restarted m = refl

pub nic_check_for_rx-eq :
    (s : Nic) (slot : ℕ)
    → find_ready_slot s.mac ≡ slot
    → slot < 4
    → nic_check_for_rx s ≡ (
        if frame_accepted s.mac.memory (s.mac.rx_slots slot) (u16 (s.mac.slot_count slot))
        then some (u16 (s.mac.slot_count slot), taken slot s)
        else some (0, dropped slot s))
unfolding nic_check_for_rx
nic_check_for_rx-eq s slot found h =
    rw
      (
        reset_if_error-eq s.mac,
        find-restarted s.mac,
        found,
        ==-ne slot 255 (λ e. absurd (omega arith)),
      )
      (take_slot-eq slot s h)

pub nic_check_for_rx-idle :
    (s : Nic)
    → find_ready_slot s.mac ≡ rx_slot_invalid
    → nic_check_for_rx s
      ≡ some
          (0, record s { mac = record s.mac { rst_rx = false }; rx_working_slot = rx_slot_invalid })
unfolding nic_check_for_rx
nic_check_for_rx-idle s none_found =
    rw (reset_if_error-eq s.mac, find-restarted s.mac, none_found) refl

-- A slot holds a frame: the MAC has counted its bytes and they lie at the driver's address.
abbrev pub Holds : Mac → ℕ → List ℕ → Type 0
Holds m slot frame =
    (m.slot_count slot ≡ length frame)
    × (read_block m.memory (m.rx_slots slot) (length frame) ≡ frame)

pub length-sealed : (body : List ℕ) → length (sealed body) ≡ length body + 4
unfolding sealed crc_bytes
length-sealed body = length-append body (crc_bytes (crc32 body))

-- The first waiting frame is handed to the stack with its length, and its slot is taken out of use,
-- if it is at least 60 bytes and their checksum and its length fits in 16 bits.
pub nic_check_for_rx-sealed :
    (s : Nic) (slot : ℕ) (body : List ℕ)
    → find_ready_slot s.mac ≡ slot
    → slot < 4
    → Holds s.mac slot (sealed body)
    → 60 ≤ length body
    → length body + 4 < 65536
    → nic_check_for_rx s ≡ some (length body + 4, taken slot s)
unfolding sealed
nic_check_for_rx-sealed s slot body found lt held short long =
    nic_check_for_rx-eq s slot found lt ∙ rw (count, accepted) refl
  where
    count : u16 (s.mac.slot_count slot) ≡ length body + 4
    count = omega (arith, held.0, length-sealed body)

    whole : read_block s.mac.memory (s.mac.rx_slots slot) (length body + 4) ≡ sealed body
    whole =
        ap (λ n. read_block s.mac.memory (s.mac.rx_slots slot) n) (sym (length-sealed body))
        ∙ held.1

    front : read_block s.mac.memory (s.mac.rx_slots slot) (length body) ≡ body
    front =
        read_block_prefix s.mac.memory (s.mac.rx_slots slot) body (crc_bytes (crc32 body)) 4 whole

    accepted : frame_accepted s.mac.memory (s.mac.rx_slots slot) (length body + 4) ≡ true
    accepted =
        sealed-frame_accepted s.mac.memory (s.mac.rx_slots slot) (length body) short
          (whole ∙ ap (λ b. b ++ crc_bytes (crc32 b)) (sym front))

-- Either no frame, or one with its checksum behind it, in a slot that is out of use.
abbrev pub IsChecked : ℕ → Nic → Type 0
IsChecked n t =
    ((n ≡ 0) × (t.rx_working_slot ≡ rx_slot_invalid))
    ⊎ ((64 ≤ n)
        × (t.rx_working_slot < 4)
        × (t.mac.slot_state t.rx_working_slot ≡ slot_state_disabled)
        × (t.rx_pointer ≡ t.mac.rx_slots t.rx_working_slot)
        × (read_block t.mac.memory t.rx_pointer n
            ≡ sealed (read_block t.mac.memory t.rx_pointer (n - 4))))

taken-disabled : (slot : ℕ) (s : Nic) → (taken slot s).mac.slot_state slot ≡ slot_state_disabled
unfolding set_slot_state
taken-disabled slot s = update_same s.mac.slot_state slot slot_state_disabled

-- Every check for a frame ends, and it hands nothing to the stack but a frame that ends with the
-- checksum of what is before, in a slot that is out of use: any other is dropped. The memory holds
-- bytes.
pub nic_check_for_rx-IsChecked :
    (s : Nic)
    → AllByteCells s.mac.memory
    → (n : ℕ) × (t : Nic) × (nic_check_for_rx s ≡ some (n, t)) × IsChecked n t
unfolding set_slot_state
nic_check_for_rx-IsChecked s cells = elim (find_ready_slot-IsSearch s.mac) [
  | inl h ↦ (
    0,
    record s { mac = record s.mac { rst_rx = false }; rx_working_slot = rx_slot_invalid },
    nic_check_for_rx-idle s h.0,
    inl (refl, refl),
  )
  | inr h ↦ decided (find_ready_slot s.mac) refl h.1
]
  where
    decided :
        (slot : ℕ)
        → find_ready_slot s.mac ≡ slot
        → slot < 4
        → (n : ℕ) × (t : Nic) × (nic_check_for_rx s ≡ some (n, t)) × IsChecked n t
    decided slot found lt =
        let p = s.mac.rx_slots slot in
        let n = u16 (s.mac.slot_count slot) in
        elim (Bool-cases (frame_accepted s.mac.memory p n)) [
          | inl e ↦ (
            n,
            taken slot s,
            nic_check_for_rx-eq s slot found lt ∙ rw e refl,
            inr (
              frame_accepted-le s.mac.memory p n e,
              lt,
              taken-disabled slot s,
              refl,
              frame_accepted-sealed s.mac.memory p n cells e,
            ),
          )
          | inr e ↦
              (0, dropped slot s, nic_check_for_rx-eq s slot found lt ∙ rw e refl, inl (refl, refl))
        ]
