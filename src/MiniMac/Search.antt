-- ===== src/MiniMac/Search.antt =====
-- The receive slots of application/libhw/minimac2.c: the search and the restart behind an error.
use or1k_spartan6_platform_x.Base.{
  ℕ, zero, suc, ◌+◌, ◌<◌, ◌≤◌, ◌≡◌, ◌⊎◌, inl, inr, refl, ap, sym, ◌∙◌, fun_ext, subst, arith, Bool,
  true, false, some, ◌==◌, ltb, if◌then◌else◌, Bool-cases,
}
use native.Mathlib.Decide.{ℕ_discrete}
use or1k_spartan6_platform_x.Base.Memory.{update, update_same, update_other}
use or1k_spartan6_platform_x.MiniMac.{
  Mac, SlotState, slot_state_ready, slot_state_disabled, slot_state_data_ressived,
  slot_state_invalid, is_ready, is_ressived, rx_slot_invalid, find_ready_slot_loop, find_ready_slot,
  set_slot_state, assert_slot, reset_rx_slot, reset_slots, reset_if_error, enable_rx,
}

-- The first of the slots from `slot` to before `last` with a frame, or none of them has one.
abbrev pub IsSearch : Mac → ℕ → ℕ → ℕ → Type 0
IsSearch m slot last found =
    ((found ≡ rx_slot_invalid)
      × ((i : ℕ) → slot ≤ i → i < last → is_ressived (m.slot_state i) ≡ false))
    ⊎ ((slot ≤ found)
        × (found < last)
        × (is_ressived (m.slot_state found) ≡ true)
        × ((i : ℕ) → slot ≤ i → i < found → is_ressived (m.slot_state i) ≡ false))

find_ready_slot_loop-IsSearch :
    (left slot : ℕ) (m : Mac) → IsSearch m slot (slot + left) (find_ready_slot_loop left slot m)
unfolding find_ready_slot_loop
find_ready_slot_loop-IsSearch zero slot m = inl (refl, λ i l g. absurd (omega arith))
find_ready_slot_loop-IsSearch (suc left) slot m =
    elim (Bool-cases (is_ressived (m.slot_state slot))) [
      | inl e ↦ rw e (inr (omega arith, omega arith, e, λ i l g. absurd (omega arith)))
      | inr e ↦ rw e (next e (find_ready_slot_loop-IsSearch left (slot + 1) m))
    ]
  where
    here :
        is_ressived (m.slot_state slot) ≡ false
        → (i : ℕ) → slot ≤ i
        → (slot + 1 ≤ i → is_ressived (m.slot_state i) ≡ false)
        → is_ressived (m.slot_state i) ≡ false
    here e i l rest = elim (ℕ_discrete slot i) [
      | yes q ↦ subst (λ j. is_ressived (m.slot_state j) ≡ false) q e
      | no q ↦ rest (omega arith)
    ]

    next :
        is_ressived (m.slot_state slot) ≡ false
        → IsSearch m (slot + 1) (slot + 1 + left) (find_ready_slot_loop left (slot + 1) m)
        → IsSearch m slot (slot + suc left) (find_ready_slot_loop left (slot + 1) m)
    next e (inl h) = inl (h.0, λ i l g. here e i l (λ k. h.1 i k (omega arith)))
    next e (inr h) = inr (omega arith, omega arith, h.2, λ i l g. here e i l (λ k. h.3 i k g))

-- The search finds the first slot that holds a frame, and it reports no slot exactly when none of
-- the four holds one.
pub find_ready_slot-IsSearch : (m : Mac) → IsSearch m 0 4 (find_ready_slot m)
unfolding find_ready_slot
find_ready_slot-IsSearch m = find_ready_slot_loop-IsSearch 4 0 m

pub reset_rx_slot-lt :
    (slot : ℕ) (m : Mac)
    → slot < 4
    → reset_rx_slot slot m ≡ some (set_slot_state slot slot_state_ready m)
unfolding reset_rx_slot assert_slot
reset_rx_slot-lt slot m h = ground arith

is_ready-eq : (s : SlotState) → is_ready s ≡ true → s ≡ slot_state_ready
is_ready-eq slot_state_ready h = refl
is_ready-eq slot_state_disabled h = absurd (cc)
is_ready-eq slot_state_data_ressived h = absurd (cc)
is_ready-eq slot_state_invalid h = absurd (cc)

reset_rx_slot-ready :
    (slot : ℕ) (m : Mac)
    → slot < 4
    → is_ready (m.slot_state slot) ≡ true
    → reset_rx_slot slot m ≡ some m
unfolding reset_rx_slot set_slot_state assert_slot
reset_rx_slot-ready slot m lt h =
    rw
      (
        ==_ltb slot lt,
        fun_ext {f = update m.slot_state slot slot_state_ready} {g = m.slot_state} same,
      )
      refl
  where
    ==_ltb : (n : ℕ) → n < 4 → ltb n 4 ≡ true
    ==_ltb n l = ground arith

    same : (i : ℕ) → update m.slot_state slot slot_state_ready i ≡ m.slot_state i
    same i = elim (ℕ_discrete slot i) [
      | yes q ↦
          subst (λ j. update m.slot_state slot slot_state_ready j ≡ m.slot_state j) q
            (update_same m.slot_state slot slot_state_ready
              ∙ sym (is_ready-eq (m.slot_state slot) h))
      | no q ↦ update_other m.slot_state slot i slot_state_ready q
    ]

reset_slots-unchanged :
    (left slot : ℕ) (m : Mac) → slot + left ≤ 4 → reset_slots left slot m ≡ some m
unfolding reset_slots
reset_slots-unchanged zero slot m h = refl
reset_slots-unchanged (suc left) slot m h =
    let rest = reset_slots-unchanged left (slot + 1) m (omega arith) in
    elim (Bool-cases (is_ready (m.slot_state slot))) [
      | inl e ↦ elim (Bool-cases (m.slot_count slot == 0)) [
        | inl z ↦ rw z rest
        | inr z ↦ rw (z, e, reset_rx_slot-ready slot m (omega arith) e) rest
      ]
      | inr e ↦ elim (Bool-cases (m.slot_count slot == 0)) [
        | inl z ↦ rw z rest
        | inr z ↦ rw (z, e) rest
      ]
    ]

-- The restart behind a receive error leaves every slot register as it was and takes the receiver
-- out of reset: the registers that the loop writes hold the written state already.
pub reset_if_error-eq : (m : Mac) → reset_if_error m ≡ some (record m { rst_rx = false })
unfolding reset_if_error enable_rx
reset_if_error-eq m = rw (reset_slots-unchanged 4 0 m (omega arith)) (by_reset m.rst_rx refl)
  where
    by_reset :
        (b : Bool)
        → m.rst_rx ≡ b
        → (if b then some (record m { rst_rx = false }) else some m)
          ≡ some (record m { rst_rx = false })
    by_reset true e = refl
    by_reset false e = ap (λ b. some (record m { rst_rx = b })) e
