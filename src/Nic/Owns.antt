-- ===== src/Nic/Owns.antt =====
-- The receive slots of application/libhw/minimac2.c that are out of use.
use or1k_spartan6_platform_x.Base.{ℕ, ◌<◌, ◌≡◌, ◌≢◌, ◌↔◌, refl, sym, subst, ◌∙◌, arith}
use native.Mathlib.Decide.{ℕ_discrete}
use or1k_spartan6_platform_x.Base.Memory.{update, update_same, update_other}
use or1k_spartan6_platform_x.MiniMac.{
  Config, Mac, SlotState, slot_state_ready, slot_state_disabled, slot_state_data_ressived,
  set_slot_state, rx_slot_invalid,
}
use or1k_spartan6_platform_x.Nic.Ownership.{
  HwStep, frame_ends, frame_breaks, overrun_ends, overrun_breaks, hw_write, hw_overrun,
}

pub ready-ne : slot_state_ready ≡ slot_state_disabled → ⊥
ready-ne p = cc

ressived-ne : slot_state_data_ressived ≡ slot_state_disabled → ⊥
ressived-ne p = cc

abbrev pub Owns : (ℕ → SlotState) → ℕ → Type 0
Owns states own = (i : ℕ) → i < 4 → (states i ≡ slot_state_disabled) ↔ (own ≡ i)

-- One slot gets a new state, and the working slot changes with it.
Owns-update :
    (states : ℕ → SlotState) (own own' slot : ℕ) (new : SlotState)
    → Owns states own
    → ((i : ℕ) → i < 4 → slot ≢ i → (own ≡ i) ↔ (own' ≡ i))
    → (new ≡ slot_state_disabled) ↔ (own' ≡ slot)
    → Owns (update states slot new) own'
Owns-update states own own' slot new h others this i lt = elim (ℕ_discrete slot i) [
  | yes q ↦
      subst (λ j. (update states slot new j ≡ slot_state_disabled) ↔ (own' ≡ j)) q
        (subst (λ st. (st ≡ slot_state_disabled) ↔ (own' ≡ slot))
          (sym (update_same states slot new)) this)
  | no q ↦
      subst (λ st. (st ≡ slot_state_disabled) ↔ (own' ≡ i)) (sym (update_other states slot i new q))
        (λ e. (others i lt q).0 ((h i lt).0 e), λ e. (h i lt).1 ((others i lt q).1 e))
]

-- A slot is taken out of use, where none was.
pub Owns-taken :
    (states : ℕ → SlotState) (slot : ℕ)
    → Owns states rx_slot_invalid
    → Owns (update states slot slot_state_disabled) slot
Owns-taken states slot h =
    Owns-update states rx_slot_invalid slot slot slot_state_disabled h
      (λ i lt ne. (λ e. absurd (omega arith), λ e. absurd (ne e))) (λ e. refl, λ e. refl)

pub Owns-released :
    (states : ℕ → SlotState) (slot : ℕ)
    → slot < 4
    → Owns states slot
    → Owns (update states slot slot_state_ready) rx_slot_invalid
Owns-released states slot below h =
    Owns-update states slot rx_slot_invalid slot slot_state_ready h
      (λ i lt ne. (λ e. absurd (ne e), λ e. absurd (omega arith)))
      (λ e. absurd (ready-ne e), λ e. absurd (omega arith))

-- A slot that was ready has received a frame.
Owns-ends :
    (states : ℕ → SlotState) (own slot : ℕ)
    → slot < 4
    → states slot ≡ slot_state_ready
    → Owns states own
    → Owns (update states slot slot_state_data_ressived) own
Owns-ends states own slot lt r h =
    Owns-update states own own slot slot_state_data_ressived h (λ i l ne. (λ e. e, λ e. e))
      (λ e. absurd (ressived-ne e), λ e. absurd (ready-ne (sym r ∙ (h slot lt).1 e)))

pub HwStep-Owns :
    (cfg : Config) (size : ℕ) (a b : Mac) (own : ℕ)
    → HwStep cfg size a b
    → Owns a.slot_state own
    → Owns b.slot_state own
unfolding set_slot_state hw_write hw_overrun
HwStep-Owns cfg size a b own (frame_ends m slot bytes lt r le) h =
    Owns-ends a.slot_state own slot lt r h
HwStep-Owns cfg size a b own (frame_breaks m slot bytes lt r le) h = h
HwStep-Owns cfg size a b own (overrun_ends m slot n k lt r g) h =
    Owns-ends a.slot_state own slot lt r h
HwStep-Owns cfg size a b own (overrun_breaks m slot n k lt r g) h = h
