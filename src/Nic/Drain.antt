-- ===== src/Nic/Drain.antt =====
-- The receive loop of the stack of application/ibexukIP/eth-main.c: it looks for a frame and dumps it
-- when it is done with it.
use or1k_spartan6_platform_x.Base.{
  ℕ, zero, suc, ◌+◌, ◌<◌, ◌≤◌, ◌≡◌, ◌≢◌, inl, inr, refl, ap, sym, subst, ◌∙◌, arith, true, false,
  Option, some, u16, Bool-cases,
}
use native.Mathlib.Decide.{dec_lt, ℕ_discrete}
use or1k_spartan6_platform_x.Base.Memory.{update, update_same, update_other}
use or1k_spartan6_platform_x.Base.Partial.{◌>>=◌}
use or1k_spartan6_platform_x.MiniMac.{
  SlotState, slot_state_ready, slot_state_disabled, is_ressived, set_slot_state, find_ready_slot,
  rx_slot_invalid,
}
use or1k_spartan6_platform_x.MiniMac.Search.{find_ready_slot-IsSearch}
use or1k_spartan6_platform_x.Nic.{Nic, nic_check_for_rx, nic_rx_dump_packet, frame_accepted}
use or1k_spartan6_platform_x.Nic.Receive.{
  taken, dropped, nic_check_for_rx-eq, nic_check_for_rx-idle,
}
use or1k_spartan6_platform_x.Nic.Reach.{released, nic_rx_dump_packet-free, nic_rx_dump_packet-held}

-- One frame is looked for and dumped.
unfoldable pub poll : Nic → Option Nic
poll s = do r ← nic_check_for_rx s; nic_rx_dump_packet r.1

unfoldable pub polls : ℕ → Nic → Option Nic
polls zero s = some s
polls (suc n) s = do t ← poll s; polls n t

-- No slot below `k` waits with a frame.
abbrev Quiet : ℕ → Nic → Type 0
Quiet k s = (i : ℕ) → i < k → i < 4 → is_ressived (s.mac.slot_state i) ≡ false

quiet_update :
    (states : ℕ → SlotState) (slot i : ℕ) (new : SlotState)
    → is_ressived new ≡ false
    → (slot ≢ i → is_ressived (states i) ≡ false)
    → is_ressived (update states slot new i) ≡ false
quiet_update states slot i new fresh old = elim (ℕ_discrete slot i) [
  | yes q ↦
      subst (λ j. is_ressived (update states slot new j) ≡ false) q
        (ap is_ressived (update_same states slot new) ∙ fresh)
  | no q ↦ ap is_ressived (update_other states slot i new q) ∙ old q
]

poll-Quiet : (k : ℕ) (s : Nic) → Quiet k s → (t : Nic) × (poll s ≡ some t) × Quiet (suc k) t
unfolding poll set_slot_state
poll-Quiet k s h = elim (find_ready_slot-IsSearch s.mac) [
  | inl g ↦
      let nothing = record s {
        mac = record s.mac { rst_rx = false };
        rx_working_slot = rx_slot_invalid;
      } in
      (
        nothing,
        rw (nic_check_for_rx-idle s g.0) (nic_rx_dump_packet-free nothing refl),
        λ i lt l. g.1 i (omega arith) l,
      )
  | inr g ↦
      elim (Bool-cases
        (frame_accepted s.mac.memory (s.mac.rx_slots slot) (u16 (s.mac.slot_count slot)))) [
          | inl ok ↦ (
            released (taken slot s),
            rw (nic_check_for_rx-eq s slot refl g.1, ok)
                (nic_rx_dump_packet-held (taken slot s) g.1),
            after g.1 g.2 g.3,
          )
          | inr bad ↦ (
            dropped slot s,
            rw (nic_check_for_rx-eq s slot refl g.1, bad)
                (nic_rx_dump_packet-free (dropped slot s) refl),
            after g.1 g.2 g.3,
          )
        ]
]
  where
    slot : ℕ
    slot = find_ready_slot s.mac

    distinct : true ≡ false → ⊥
    distinct e = cc

    old :
        slot < 4
        → is_ressived (s.mac.slot_state slot) ≡ true
        → ((i : ℕ) → 0 ≤ i → i < slot → is_ressived (s.mac.slot_state i) ≡ false)
        → (i : ℕ) → i < suc k
        → i < 4
        → slot ≢ i
        → is_ressived (s.mac.slot_state i) ≡ false
    old lt full before i near l ne = elim (dec_lt i k) [
      | yes q ↦ h i q l
      | no q ↦ elim (dec_lt i slot) [
        | yes r ↦ before i (omega arith) r
        | no r ↦ absurd (distinct (sym full ∙ h slot (omega arith) lt))
      ]
    ]

    after :
        slot < 4
        → is_ressived (s.mac.slot_state slot) ≡ true
        → ((i : ℕ) → 0 ≤ i → i < slot → is_ressived (s.mac.slot_state i) ≡ false)
        → (i : ℕ) → i < suc k
        → i < 4
        → is_ressived
            (update (update s.mac.slot_state slot slot_state_disabled) slot slot_state_ready i)
          ≡ false
    after lt full before i near l =
        quiet_update (update s.mac.slot_state slot slot_state_disabled) slot i slot_state_ready refl
          (λ other.
            quiet_update s.mac.slot_state slot i slot_state_disabled refl
              (λ ne. old lt full before i near l ne))

polls-Quiet : (n k : ℕ) (s : Nic) → Quiet k s → (t : Nic) × (polls n s ≡ some t) × Quiet (k + n) t
unfolding polls
polls-Quiet zero k s h = (s, refl, λ i lt l. h i (omega arith) l)
polls-Quiet (suc n) k s h =
    let one = poll-Quiet k s h in
    let rest = polls-Quiet n (suc k) one.0 one.2 in
    (rest.0, rw (one.1) rest.1, λ i lt l. rest.2 i (omega arith) l)

-- From any state, four rounds in which a frame is looked for and dumped empty the receive slots:
-- none of them waits with a frame then, if the MAC receives nothing in between.
pub polls-drained :
    (s : Nic) → (t : Nic) × (polls 4 s ≡ some t) × (find_ready_slot t.mac ≡ rx_slot_invalid)
polls-drained s =
    let r = polls-Quiet 4 0 s (λ i lt l. absurd (omega arith)) in
    (
      r.0,
      r.1,
      elim (find_ready_slot-IsSearch r.0.mac) [
        | inl g ↦ g.0
        | inr g ↦
            absurd (distinct (sym g.2 ∙ r.2 (find_ready_slot r.0.mac) (omega (arith, g.1)) g.1))
      ],
    )
  where
    distinct : true ≡ false → ⊥
    distinct e = cc
