-- ===== src/Nic/Ownership.antt =====
-- Who writes a receive slot: the stack of application/ibexukIP and the MAC, in any order. The MAC's
-- steps follow hdl/myminimac/myminimac_ctlif_cd2.v.
use or1k_spartan6_platform_x.Base.{
  ℕ, ◌+◌, ◌*◌, ◌<◌, ◌≤◌, ◌≡◌, ◌≢◌, ◌⊎◌, inl, inr, refl, ap, sym, subst, ◌∙◌, arith, true, List, [],
  ◌∷◌, ◌%◌, length,
}
use native.Mathlib.Nat.{mul-suc, mul-le-mul_left}
use native.Mathlib.Decide.{dec_lt}
use or1k_spartan6_platform_x.Base.Memory.{
  Memory, read_block, write_block, read_block-write_block_apart, update, update_other,
}
use or1k_spartan6_platform_x.MiniMac.{
  Config, Mac, slot_state_ready, slot_state_disabled, slot_state_data_ressived, align32,
  set_slot_state, counter_range,
}
use or1k_spartan6_platform_x.MiniMac.Slots.{hw_slot_address}

-- The MAC writes the bytes of a frame to a slot that is ready, and counts them.
unfoldable pub hw_write : Config → ℕ → List ℕ → Mac → Mac
hw_write cfg slot bytes m = record m {
  memory = write_block m.memory (hw_slot_address cfg slot) bytes;
  slot_count = update m.slot_count slot (length bytes % counter_range cfg);
}

-- The MAC does not look at the length of a frame. One that is longer than `MTU` runs over the end of
-- its slot, and the memory is any memory behind it.
unfoldable pub hw_overrun : Config → ℕ → ℕ → Memory → Mac → Mac
hw_overrun cfg slot n k m = record m {
  memory = k;
  slot_count = update m.slot_count slot (n % counter_range cfg);
}

abbrev pub ends : ℕ → Mac → Mac
ends slot m = set_slot_state slot slot_state_data_ressived m

abbrev pub breaks : Mac → Mac
breaks m = record m { rst_rx = true }

-- What the MAC does: it receives a frame of so many bytes, or breaks one off behind them and puts the
-- receiver into reset.
pub data HwStep (cfg : Config) : ℕ → Mac → Mac → Type 0 where
  frame_ends :
      (m : Mac) (slot : ℕ) (bytes : List ℕ)
      → slot < 4
      → m.slot_state slot ≡ slot_state_ready
      → length bytes ≤ cfg.mtu
      → HwStep cfg (length bytes) m (ends slot (hw_write cfg slot bytes m))
  frame_breaks :
      (m : Mac) (slot : ℕ) (bytes : List ℕ)
      → slot < 4
      → m.slot_state slot ≡ slot_state_ready
      → length bytes ≤ cfg.mtu
      → HwStep cfg (length bytes) m (breaks (hw_write cfg slot bytes m))
  overrun_ends :
      (m : Mac) (slot n : ℕ) (k : Memory)
      → slot < 4
      → m.slot_state slot ≡ slot_state_ready
      → cfg.mtu < n
      → HwStep cfg n m (ends slot (hw_overrun cfg slot n k m))
  overrun_breaks :
      (m : Mac) (slot n : ℕ) (k : Memory)
      → slot < 4
      → m.slot_state slot ≡ slot_state_ready
      → cfg.mtu < n
      → HwStep cfg n m (breaks (hw_overrun cfg slot n k m))

-- Steps with the lengths of their frames, the last one first.
pub data HwSteps (cfg : Config) : List ℕ → Mac → Mac → Type 0 where
  idle : (m : Mac) → HwSteps cfg [] m m
  next :
      (sizes : List ℕ) (n : ℕ) (a b c : Mac)
      → HwSteps cfg sizes a b
      → HwStep cfg n b c
      → HwSteps cfg (n ∷ sizes) a c

abbrev pub AllFit : Config → List ℕ → Type 0
AllFit cfg [] = Unit {0}
AllFit cfg (n ∷ sizes) = (n ≤ cfg.mtu) × AllFit cfg sizes

align32-le : (n : ℕ) → n + 4 < 4294967296 → n ≤ align32 n
unfolding align32
align32-le n h = ground arith

slots_apart : (a : ℕ) (i j : ℕ) → i < j → a * i + a ≤ a * j
slots_apart a i j h = subst (λ n. n ≤ a * j) (mul-suc a i) (mul-le-mul_left a h)

blocks_apart :
    (cfg : Config) (i j n k : ℕ)
    → i ≢ j
    → n ≤ cfg.mtu
    → k ≤ cfg.mtu
    → cfg.mtu + 4 < 4294967296
    → (hw_slot_address cfg i + n ≤ hw_slot_address cfg j)
      ⊎ (hw_slot_address cfg j + k ≤ hw_slot_address cfg i)
unfolding hw_slot_address
blocks_apart cfg i j n k ne hn hk w =
    let fits = align32-le cfg.mtu w in
    elim (dec_lt i j) [
      | yes lt ↦ let far = slots_apart (align32 cfg.mtu) i j lt in inl (omega arith)
      | no ge ↦ let far = slots_apart (align32 cfg.mtu) j i (omega arith) in inr (omega arith)
    ]

-- A slot that the MAC does not own: its register, its address, and the bytes in it.
abbrev pub Untouched : Config → ℕ → Mac → Mac → Type 0
Untouched cfg slot a b =
    (b.slot_state slot ≡ slot_state_disabled)
    × (b.slot_count slot ≡ a.slot_count slot)
    × (b.rx_slots slot ≡ a.rx_slots slot)
    × ((n : ℕ)
        → n ≤ cfg.mtu
        → read_block b.memory (hw_slot_address cfg slot) n
          ≡ read_block a.memory (hw_slot_address cfg slot) n)

not_own :
    (m : Mac) (slot own : ℕ)
    → m.slot_state slot ≡ slot_state_ready
    → m.slot_state own ≡ slot_state_disabled
    → slot ≢ own
not_own m slot own r d e = distinct (sym r ∙ ap m.slot_state e ∙ d)
  where
    distinct : slot_state_ready ≡ slot_state_disabled → ⊥
    distinct p = cc

hw_write-Untouched :
    (cfg : Config) (m : Mac) (slot own : ℕ) (bytes : List ℕ)
    → slot ≢ own
    → m.slot_state own ≡ slot_state_disabled
    → length bytes ≤ cfg.mtu
    → cfg.mtu + 4 < 4294967296
    → Untouched cfg own m (hw_write cfg slot bytes m)
unfolding hw_write
hw_write-Untouched cfg m slot own bytes ne d h w = (
  d,
  update_other m.slot_count slot own (length bytes % counter_range cfg) ne,
  refl,
  λ n le.
      read_block-write_block_apart m.memory (hw_slot_address cfg own) n (hw_slot_address cfg slot)
        bytes (blocks_apart cfg own slot n (length bytes) (λ e. ne (sym e)) le h w),
)

HwStep-Untouched :
    (cfg : Config) (size : ℕ) (a b : Mac) (own : ℕ)
    → HwStep cfg size a b
    → size ≤ cfg.mtu
    → a.slot_state own ≡ slot_state_disabled
    → cfg.mtu + 4 < 4294967296
    → Untouched cfg own a b
unfolding set_slot_state
HwStep-Untouched cfg size a b own (frame_ends m slot bytes lt r h) fits d w =
    let ne = not_own a slot own r d in
    let kept = hw_write-Untouched cfg a slot own bytes ne d h w in
    (
      update_other (hw_write cfg slot bytes a).slot_state slot own slot_state_data_ressived ne
          ∙ kept.0,
      kept.1,
      kept.2,
      kept.3,
    )
HwStep-Untouched cfg size a b own (frame_breaks m slot bytes lt r h) fits d w =
    hw_write-Untouched cfg a slot own bytes (not_own a slot own r d) d h w
HwStep-Untouched cfg size a b own (overrun_ends m slot n k lt r h) fits d w = absurd (omega arith)
HwStep-Untouched cfg size a b own (overrun_breaks m slot n k lt r h) fits d w = absurd (omega arith)

-- While the MAC receives frames of up to `MTU`, a slot that the driver has taken out of use keeps its
-- register, its count, its address and the bytes of up to `MTU` at the MAC's address of it, if `MTU`
-- is below 2 ^ 32 - 4.
pub HwSteps-Untouched :
    (cfg : Config) (sizes : List ℕ) (a b : Mac) (own : ℕ)
    → HwSteps cfg sizes a b
    → AllFit cfg sizes
    → a.slot_state own ≡ slot_state_disabled
    → cfg.mtu + 4 < 4294967296
    → Untouched cfg own a b
HwSteps-Untouched cfg sizes a b own (idle m) fit d w = (d, refl, refl, λ n le. refl)
HwSteps-Untouched cfg sizes a b own (next before_sizes size x y z before step) fit d w =
    let first = HwSteps-Untouched cfg before_sizes a y own before fit.1 d w in
    let last = HwStep-Untouched cfg size y b own step fit.0 first.0 w in
    (last.0, last.1 ∙ first.1, last.2 ∙ first.2, λ n le. last.3 n le ∙ first.3 n le)
