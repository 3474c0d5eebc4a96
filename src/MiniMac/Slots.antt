-- ===== src/MiniMac/Slots.antt =====
-- The addresses of the receive slots of application/libhw/minimac2.c, and those that
-- hdl/myminimac/myminimac_ctlif_cd2.v computes on its own.
use or1k_spartan6_platform_x.Base.{
  ℕ, zero, suc, ◌+◌, ◌*◌, ◌%◌, ◌<◌, ◌≤◌, ◌≡◌, ◌⊎◌, ◌↔◌, refl, sym, ◌∙◌, subst, arith, true, false,
  u32,
}
use native.Mathlib.Decide.{ℕ_discrete}
use or1k_spartan6_platform_x.Base.Memory.{update, update_same, update_other}
use or1k_spartan6_platform_x.MiniMac.{
  Config, Mac, slot_state_ready, set_slot_state, enable_rx, enable_tx, align32, init_slots,
  mini_mac_init,
}

-- Where the MAC puts the frames of a slot: `RX_SLOT0_ADDR` to `RX_SLOT3_ADDR`.
unfoldable pub hw_slot_address : Config → ℕ → ℕ
hw_slot_address cfg slot = cfg.rx_mem_base + align32 cfg.mtu * slot

-- One pass of the loop of `miniMAC_init`.
abbrev init_slot : Config → ℕ → Mac → Mac
init_slot cfg slot m = set_slot_state slot slot_state_ready (record m {
  rx_slots = update m.rx_slots slot (u32 (cfg.rx_mem_base + align32 (u32 (cfg.mtu * slot))));
})

init_slots-rst_rx :
    (cfg : Config) (left slot : ℕ) (m : Mac) → (init_slots cfg left slot m).rst_rx ≡ m.rst_rx
unfolding init_slots set_slot_state
init_slots-rst_rx cfg zero slot m = refl
init_slots-rst_rx cfg (suc left) slot m =
    init_slots-rst_rx cfg left (slot + 1) (init_slot cfg slot m)

init_slots_frame :
    (cfg : Config) (left slot : ℕ) (m : Mac) (i : ℕ)
    → i < slot
    → ((init_slots cfg left slot m).slot_state i ≡ m.slot_state i)
      × ((init_slots cfg left slot m).rx_slots i ≡ m.rx_slots i)
unfolding init_slots set_slot_state
init_slots_frame cfg zero slot m i h = (refl, refl)
init_slots_frame cfg (suc left) slot m i h =
    let rest = init_slots_frame cfg left (slot + 1) (init_slot cfg slot m) i (omega arith) in
    (
      rest.0 ∙ update_other m.slot_state slot i slot_state_ready (λ e. absurd (omega arith)),
      rest.1
          ∙ update_other m.rx_slots slot i (u32 (cfg.rx_mem_base + align32 (u32 (cfg.mtu * slot))))
              (λ e. absurd (omega arith)),
    )

init_slots-set :
    (cfg : Config) (left slot : ℕ) (m : Mac) (i : ℕ)
    → slot ≤ i
    → i < slot + left
    → ((init_slots cfg left slot m).slot_state i ≡ slot_state_ready)
      × ((init_slots cfg left slot m).rx_slots i
          ≡ u32 (cfg.rx_mem_base + align32 (u32 (cfg.mtu * i))))
unfolding init_slots set_slot_state
init_slots-set cfg zero slot m i l g = absurd (omega arith)
init_slots-set cfg (suc left) slot m i l g = elim (ℕ_discrete i slot) [
  | yes e ↦
      subst
        (λ j.
          ((init_slots cfg left (slot + 1) (init_slot cfg slot m)).slot_state j ≡ slot_state_ready)
          × ((init_slots cfg left (slot + 1) (init_slot cfg slot m)).rx_slots j
              ≡ u32 (cfg.rx_mem_base + align32 (u32 (cfg.mtu * j)))))
        (sym e) here
  | no e ↦ init_slots-set cfg left (slot + 1) (init_slot cfg slot m) i (omega arith) (omega arith)
]
  where
    here :
        ((init_slots cfg left (slot + 1) (init_slot cfg slot m)).slot_state slot ≡ slot_state_ready)
        × ((init_slots cfg left (slot + 1) (init_slot cfg slot m)).rx_slots slot
            ≡ u32 (cfg.rx_mem_base + align32 (u32 (cfg.mtu * slot))))
    here =
        let kept = init_slots_frame cfg left (slot + 1) (init_slot cfg slot m) slot (omega arith) in
        (
          kept.0 ∙ update_same m.slot_state slot slot_state_ready,
          kept.1
              ∙ update_same m.rx_slots slot
                  (u32 (cfg.rx_mem_base + align32 (u32 (cfg.mtu * slot)))),
        )

-- After the initialisation the receiver and the transmitter are out of reset and every slot is
-- ready to receive, behind the base of the receive memory by the next multiple of 4 from `MTU` times
-- its number, in 32-bit arithmetic.
pub mini_mac_init-ready :
    (cfg : Config) (m : Mac) (i : ℕ)
    → i < 4
    → ((mini_mac_init cfg m).rst_rx ≡ false)
      × ((mini_mac_init cfg m).slot_state i ≡ slot_state_ready)
      × ((mini_mac_init cfg m).rx_slots i ≡ u32 (cfg.rx_mem_base + align32 (u32 (cfg.mtu * i))))
unfolding mini_mac_init enable_rx enable_tx
mini_mac_init-ready cfg m i h =
    let started = enable_tx true (enable_rx true m) in
    let slots = init_slots-set cfg 4 0 started i (omega arith) (omega arith) in
    (init_slots-rst_rx cfg 4 0 started, slots.0, slots.1)

-- The driver's address of a slot is the MAC's exactly for the slots 0 and 1, and for all four if
-- `MTU` leaves the remainder 0 or 3 by 4, where the addresses are below 2 ^ 32.
pub mini_mac_init-hw_slot_address :
    (cfg : Config) (m : Mac) (i : ℕ)
    → i < 4
    → cfg.rx_mem_base + cfg.mtu * 3 + 12 < 4294967296
    → ((mini_mac_init cfg m).rx_slots i ≡ hw_slot_address cfg i)
      ↔ ((i < 2) ⊎ (cfg.mtu % 4 ≡ 0) ⊎ (cfg.mtu % 4 ≡ 3))
unfolding hw_slot_address align32
mini_mac_init-hw_slot_address cfg m i h w =
    rw ((mini_mac_init-ready cfg m i h).2) (ads cfg.mtu i h w)
  where
    ads :
        (n i : ℕ)
        → i < 4
        → cfg.rx_mem_base + n * 3 + 12 < 4294967296
        → (u32 (cfg.rx_mem_base + align32 (u32 (n * i))) ≡ cfg.rx_mem_base + align32 n * i)
          ↔ ((i < 2) ⊎ (n % 4 ≡ 0) ⊎ (n % 4 ≡ 3))
    ads n zero lt b = ground arith
    ads n (suc zero) lt b = ground arith
    ads n (suc (suc zero)) lt b = ground arith
    ads n (suc (suc (suc zero))) lt b = ground arith
    ads n (suc (suc (suc (suc i)))) lt b = absurd (omega arith)
