-- ===== src/GdbHw/Queue.antt =====
-- The ring of received characters of application/gdb_stub/gdb_hw.c as a queue of at most 127.
use or1k_spartan6_platform_x.Base.{
  ℕ, zero, suc, ◌+◌, ◌%◌, ◌<◌, ◌≡◌, refl, ap, sym, subst, ◌∙◌, arith, none, some, List, [], ◌∷◌,
  ◌++◌, length, length-append, get_or, ==-ne, ==_iff,
}
use native.Mathlib.Decide.{ℕ_discrete}
use or1k_spartan6_platform_x.Base.Memory.{update, update_same, update_other}
use or1k_spartan6_platform_x.GdbHw.{Ring, advance, store, take_char}

-- The characters of the ring, the next one first.
abbrev pub IsQueue : Ring → List ℕ → Type 0
IsQueue r q =
    (r.rx_head < 128)
    × (length q < 128)
    × (r.rx_tail ≡ (r.rx_head + length q) % 128)
    × ((i : ℕ) → i < length q → r.rx_buf ((r.rx_head + i) % 128) ≡ get_or q i 0)

advance-eq : (p : ℕ) → p < 128 → advance p ≡ (p + 1) % 128
unfolding advance
advance-eq p h = ground arith

get_or-append_before :
    (q : List ℕ) (c i : ℕ) → i < length q → get_or (q ++ (c ∷ [])) i 0 ≡ get_or q i 0
get_or-append_before [] c i h = absurd (omega arith)
get_or-append_before (x ∷ q) c zero h = refl
get_or-append_before (x ∷ q) c (suc i) h = get_or-append_before q c i (omega arith)

get_or-append_last : (q : List ℕ) (c : ℕ) → get_or (q ++ (c ∷ [])) (length q) 0 ≡ c
get_or-append_last [] c = refl
get_or-append_last (x ∷ q) c = get_or-append_last q c

-- A character that comes in while there is room goes to the end of the queue.
pub store-IsQueue :
    (r : Ring) (q : List ℕ) (c : ℕ)
    → IsQueue r q
    → length q < 127
    → IsQueue (store r c) (q ++ (c ∷ []))
unfolding store
store-IsQueue r q c h room = (h.0, omega (arith, longer, room), tail, at_index)
  where
    longer : length (q ++ (c ∷ [])) ≡ length q + 1
    longer = length-append q (c ∷ [])

    tail : advance r.rx_tail ≡ (r.rx_head + length (q ++ (c ∷ []))) % 128
    tail = advance-eq r.rx_tail (omega (arith, h.2)) ∙ omega (arith, h.2, longer)

    at_index :
        (i : ℕ)
        → i < length (q ++ (c ∷ []))
        → update r.rx_buf r.rx_tail c ((r.rx_head + i) % 128) ≡ get_or (q ++ (c ∷ [])) i 0
    at_index i lt = elim (ℕ_discrete i (length q)) [
      | yes e ↦
          subst
            (λ j. update r.rx_buf r.rx_tail c ((r.rx_head + j) % 128) ≡ get_or (q ++ (c ∷ [])) j 0)
            (sym e)
            (subst (λ t. update r.rx_buf r.rx_tail c t ≡ get_or (q ++ (c ∷ [])) (length q) 0) (h.2)
              (update_same r.rx_buf r.rx_tail c ∙ sym (get_or-append_last q c)))
      | no e ↦
          let before : i < length q = omega (arith, longer) in
          update_other r.rx_buf r.rx_tail ((r.rx_head + i) % 128) c
            (λ t. absurd (omega (arith, h.0, h.1, h.2)))
          ∙ h.3 i before
          ∙ sym (get_or-append_before q c i before)
    ]

-- The first character of the queue is taken.
pub take_char-cons :
    (r : Ring) (c : ℕ) (q : List ℕ)
    → IsQueue r (c ∷ q)
    → (t : Ring) × (take_char r ≡ some (c, t)) × IsQueue t q
unfolding take_char
take_char-cons r c q h = (
  record r { rx_head = advance r.rx_head },
  rw (==-ne r.rx_head r.rx_tail (λ e. absurd (omega (arith, h.0, h.1, h.2))), first) refl,
  (
    omega (arith, moved),
    omega (arith, h.1),
    omega (arith, h.2, moved),
    λ i lt. ap r.rx_buf (shifted i) ∙ h.3 (suc i) (omega arith),
  ),
)
  where
    moved : advance r.rx_head ≡ (r.rx_head + 1) % 128
    moved = advance-eq r.rx_head h.0

    shifted : (i : ℕ) → (advance r.rx_head + i) % 128 ≡ (r.rx_head + suc i) % 128
    shifted i = omega (arith, moved)

    first : r.rx_buf r.rx_head ≡ c
    first = ap r.rx_buf same ∙ h.3 0 (omega arith)
      where
        same : r.rx_head ≡ (r.rx_head + 0) % 128
        same = omega (arith, h.0)

-- Nothing is taken from the empty queue.
pub take_char-nil : (r : Ring) → IsQueue r [] → take_char r ≡ none
unfolding take_char
take_char-nil r h = rw ((==_iff r.rx_head r.rx_tail).1 (omega (arith, h.0, h.2))) refl

-- A character that comes in when 127 wait empties the queue: all 128 are lost.
pub store-overflow :
    (r : Ring) (q : List ℕ) (c : ℕ) → IsQueue r q → length q ≡ 127 → IsQueue (store r c) []
unfolding store
store-overflow r q c h full = (
  h.0,
  omega arith,
  advance-eq r.rx_tail (omega (arith, h.2)) ∙ omega (arith, h.0, h.2, full),
  λ i lt. absurd (omega arith),
)
