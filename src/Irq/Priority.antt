-- ===== src/Irq/Priority.antt =====
-- `setInterruptPriority` of application/libhw/irq.c.
use mathlib.Core.Option
use or1k_spartan6_platform_x.Base.{
  ℕ, zero, suc, ◌+◌, ◌-◌, ◌<◌, ◌≤◌, ◌≡◌, ◌≢◌, arith, none, some, List, [], ◌∷◌, ◌++◌, get_or, set,
  length, inl, inr, Option-cases, ◌⊎◌, take, drop, subst,
}
use or1k_spartan6_platform_x.Irq.{
  Machine, SrcHandler, slot, find_last, memmove, shift_fragment, set_interrupt_priority, is_count,
  enter_critical, exit_critical,
}

-- A request for a priority out of range or for a source without an entry changes nothing.
pub set_interrupt_priority-rejected :
    {W : Type 0} (src prio : ℕ) (m : Machine W)
    → (is_count ≤ prio) ⊎ (find_last src m.table ≡ none)
    → set_interrupt_priority src prio m ≡ some m
unfolding set_interrupt_priority
set_interrupt_priority-rejected src prio m h = ground arith

-- No entry for the source `s`.
abbrev pub Without : ℕ → List SrcHandler → Type 0
Without s [] = Unit {0}
Without s (d ∷ ds) = (d.src ≢ s) × Without s ds

Without-append :
    (s : ℕ) (xs ys : List SrcHandler) → Without s xs → Without s ys → Without s (xs ++ ys)
Without-append s [] ys a b = b
Without-append s (x ∷ xs) ys a b = (a.0, Without-append s xs ys a.1 b)

Without-take : (s n : ℕ) (xs : List SrcHandler) → Without s xs → Without s (take n xs)
Without-take s zero xs a = tt
Without-take s (suc n) [] a = tt
Without-take s (suc n) (x ∷ xs) a = (a.0, Without-take s n xs a.1)

Without-drop : (s n : ℕ) (xs : List SrcHandler) → Without s xs → Without s (drop n xs)
Without-drop s zero xs a = a
Without-drop s (suc n) [] a = tt
Without-drop s (suc n) (x ∷ xs) a = Without-drop s n xs a.1

Without-drop_le :
    (s a b : ℕ) (xs : List SrcHandler) → a ≤ b → Without s (drop a xs) → Without s (drop b xs)
Without-drop_le s zero b xs h w = Without-drop s b xs w
Without-drop_le s (suc a) zero xs h w = absurd (omega arith)
Without-drop_le s (suc a) (suc b) [] h w = tt
Without-drop_le s (suc a) (suc b) (x ∷ xs) h w = Without-drop_le s a b xs (omega arith) w

-- A list whose one entry for `s` stands at `prio` loses it when `prio` is overwritten, though the
-- part behind `cur` is replaced by other entries.
Without-overwritten :
    (s prio cur : ℕ) (xs ys : List SrcHandler) (moved : SrcHandler)
    → prio < cur
    → cur ≤ length xs
    → Without s (take prio xs)
    → Without s (drop (suc prio) xs)
    → Without s ys
    → moved.src ≢ s
    → Without s (set (take cur xs ++ ys) prio moved)
Without-overwritten s prio zero xs ys moved h l a b c d = absurd (omega arith)
Without-overwritten s prio (suc cur) [] ys moved h l a b c d = absurd (omega arith)
Without-overwritten s zero (suc cur) (x ∷ xs) ys moved h l a b c d =
    (d, Without-append s (take cur xs) ys (Without-take s cur xs b) c)
Without-overwritten s (suc prio) (suc cur) (x ∷ xs) ys moved h l a b c d =
    (a.0, Without-overwritten s prio cur xs ys moved (omega arith) (omega arith) a.1 b c d)

module _ {W : Type 0} (src cur prio s : ℕ) (m : Machine W) (count : length m.table ≡ is_count)
    (found : find_last src m.table ≡ some cur) (up : prio < cur)
    (fits : cur + 1 + (cur - prio) ≤ is_count) where
  -- The table behind a move to a higher priority.
  abbrev moved : SrcHandler
  moved = record { src = src; isr = (get_or m.table cur (slot 0)).isr }

  abbrev tail : List SrcHandler
  tail = take (cur - prio) (drop (cur + 1) m.table) ++ drop (cur + (cur - prio)) m.table

  table-set_interrupt_priority :
      Option.map (λ (m' : Machine W). m'.table) (set_interrupt_priority src prio m)
      ≡ some (set (take cur m.table ++ tail) prio moved)
  unfolding set_interrupt_priority shift_fragment memmove enter_critical exit_critical
  table-set_interrupt_priority = ground arith

  -- A move of a source to a higher priority, whose copying stays inside the table, drops the one
  -- entry that the source of that priority had: behind the call the table holds none for it.
  pub set_interrupt_priority-loses :
      Without s (take prio m.table)
      → Without s (drop (suc prio) m.table)
      → src ≢ s
      → (m' : Machine W) × (set_interrupt_priority src prio m ≡ some m') × Without s m'.table
  set_interrupt_priority-loses a b ne = elim (Option-cases (set_interrupt_priority src prio m)) [
    | inl q ↦ absurd (ground (arith, table-set_interrupt_priority))
    | inr (m', q) ↦ (m', q, subst (Without s) (kept m' q) lost)
  ]
    where
      kept :
          (m' : Machine W)
          → set_interrupt_priority src prio m ≡ some m'
          → set (take cur m.table ++ tail) prio moved ≡ m'.table
      kept m' q = ground (arith, table-set_interrupt_priority)

      lost : Without s (set (take cur m.table ++ tail) prio moved)
      lost =
          Without-overwritten s prio cur m.table tail moved up (omega arith) a b
            (Without-append s (take (cur - prio) (drop (cur + 1) m.table))
              (drop (cur + (cur - prio)) m.table)
              (Without-take s (cur - prio) (drop (cur + 1) m.table)
                (Without-drop_le s (suc prio) (cur + 1) m.table (omega arith) b))
              (Without-drop_le s (suc prio) (cur + (cur - prio)) m.table (omega arith) b))
            ne
