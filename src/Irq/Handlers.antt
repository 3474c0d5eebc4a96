-- ===== src/Irq/Handlers.antt =====
-- `set_irq_handler` of application/libhw/irq.c.
use mathlib.Core.Option
use or1k_spartan6_platform_x.Base.{
  if◌then◌else◌, ==-ne, ==-refl, ℕ, ◌+◌, ◌<◌, ◌^◌, ◌≡◌, ◌≢◌, refl, arith, suc, zero, Option, some,
  List, [], ◌∷◌, get_or, set, length, ap, subst, sym, ◌∙◌, ◌==◌, Bool-cases, inl, inr, Option-cases,
  get_or-set_self, get_or-set_ne,
}
use native.Mathlib.Decide.{ℕ_discrete}
use or1k_spartan6_platform_x.Irq.{
  Machine, SrcHandler, slot, enter_critical, exit_critical, find_first, set_irq_handler,
}
use or1k_spartan6_platform_x.Irq.Critical.{IsNested}

-- The handler that the table holds for a source, if it knows the source.
abbrev pub handler_of : ℕ → List SrcHandler → Option (Option ℕ)
handler_of src xs = Option.map (λ i. (get_or xs i (slot 0)).isr) (find_first src xs)

abbrev pub put : List SrcHandler → ℕ → Option ℕ → List SrcHandler
put xs i h = set xs i (record (get_or xs i (slot 0)) { isr = h })

find_first-put :
    (xs : List SrcHandler) (i s : ℕ) (h : Option ℕ) → find_first s (put xs i h) ≡ find_first s xs
unfolding find_first
find_first-put [] i s h = refl
find_first-put (x ∷ xs) zero s h = refl
find_first-put (x ∷ xs) (suc i) s h =
    ap (λ o. if x.src == s then some 0 else Option.map suc o) (find_first-put xs i s h)

-- What the search finds is an entry for the source.
record IsEntry (xs : List SrcHandler) (s i : ℕ) : Type 0 where
  inside : i < length xs
  of_src : (get_or xs i (slot 0)).src ≡ s

find_first-IsEntry : (xs : List SrcHandler) (s i : ℕ) → find_first s xs ≡ some i → IsEntry xs s i
unfolding find_first
find_first-IsEntry [] s i e = cc
find_first-IsEntry (x ∷ xs) s zero e = elim (Bool-cases (x.src == s)) [
  | inl hit ↦ ground arith
  | inr miss ↦ elim (Option-cases (find_first s xs)) [
    | inl q ↦ absurd (ground arith)
    | inr q ↦ absurd (ground arith)
  ]
]
find_first-IsEntry (x ∷ xs) s (suc i) e = elim (Bool-cases (x.src == s)) [
  | inl hit ↦ absurd (ground arith)
  | inr miss ↦ ground (arith, find_first-IsEntry xs s i)
]

-- It is the first one.
find_first-none_before :
    (xs : List SrcHandler) (s i j : ℕ)
    → find_first s xs ≡ some i
    → j < i
    → (get_or xs j (slot 0)).src ≢ s
unfolding find_first
find_first-none_before [] s i j e lt = cc
find_first-none_before (x ∷ xs) s zero j e lt = absurd (omega arith)
find_first-none_before (x ∷ xs) s (suc i) zero e lt = ground arith
find_first-none_before (x ∷ xs) s (suc i) (suc j) e lt = elim (Bool-cases (x.src == s)) [
  | inl hit ↦ absurd (ground arith)
  | inr miss ↦ find_first-none_before xs s i j (ground arith) (omega arith)
]

handler_of-put_self :
    (xs : List SrcHandler) (s i : ℕ) (h : Option ℕ)
    → find_first s xs ≡ some i
    → handler_of s (put xs i h) ≡ some h
handler_of-put_self xs s i h q = rw (
  find_first-put xs i s h,
  q,
  get_or-set_self xs i _ (slot 0) (find_first-IsEntry xs s i q).inside,
)

handler_of-put_ne :
    (xs : List SrcHandler) (s s' i : ℕ) (h : Option ℕ)
    → find_first s xs ≡ some i
    → s' ≢ s
    → handler_of s' (put xs i h) ≡ handler_of s' xs
handler_of-put_ne xs s s' i h q ne = elim (Option-cases (find_first s' xs)) [
  | inl e ↦ rw (find_first-put xs i s' h, e)
  | inr (j, e) ↦ rw (find_first-put xs i s' h, e, get_or-set_ne xs i j _ (slot 0) (apart j e))
]
  where
    apart : (j : ℕ) → find_first s' xs ≡ some j → i ≢ j
    apart j e same = ne (
        ground (arith, (find_first-IsEntry xs s i q).of_src, (find_first-IsEntry xs s' j e).of_src))

module _ {W : Type 0} (src : ℕ) (h : Option ℕ) (m : Machine W) where
  swapped :
      (i : ℕ)
      → find_first src m.table ≡ some i
      → (s : ℕ)
      → handler_of s (put m.table i h) ≡ (if s == src then some h else handler_of s m.table)
  swapped i q s = elim (ℕ_discrete s src) [
    | yes e ↦ rw (e, ==-refl src) (handler_of-put_self m.table src i h q)
    | no ne ↦ rw (==-ne s src ne) (handler_of-put_ne m.table src s i h q ne)
  ]

  -- `out` returns `old`, and its state is that of `m` but for the handler in the first entry for the
  -- source, which was `old` and is `h`: `handler_of` has `h` for the source and no other change.
  abbrev pub IsSwap : Option ℕ → Option ℕ × Machine W → Type 0
  IsSwap old out =
      (i : ℕ) × (i < length m.table)
      × (get_or m.table i (slot 0) ≡ record { src = src; isr = old })
      × ((j : ℕ) → j < i → (get_or m.table j (slot 0)).src ≢ src)
      × (out ≡ (old, record m { table = set m.table i (record { src = src; isr = h }) }))
      × ((s : ℕ) → handler_of s out.1.table ≡ (if s == src then some h else handler_of s m.table))

  set_irq_handler-put :
      (i : ℕ)
      → find_first src m.table ≡ some i
      → IsNested m
      → m.irq_disable_counter + 1 < 2 ^ 32
      → set_irq_handler src h m
        ≡ ((get_or m.table i (slot 0)).isr, record m { table = put m.table i h })
  unfolding set_irq_handler enter_critical exit_critical
  set_irq_handler-put i e n b = ground arith

  -- For a source that the table knows, in a state whose interrupt enable bit agrees with its
  -- nesting counter and whose counter does not overflow, the call returns the handler in the first
  -- entry for the source and puts the new one there. All other entries, their order and everything
  -- else stay, and so do the handlers of all other sources.
  pub set_irq_handler-handler_of :
      (old : Option ℕ)
      → handler_of src m.table ≡ some old
      → IsNested m
      → m.irq_disable_counter + 1 < 2 ^ 32
      → IsSwap old (set_irq_handler src h m)
  set_irq_handler-handler_of old k n b = elim (Option-cases (find_first src m.table)) [
    | inl q ↦ absurd (ground arith)
    | inr (i, q) ↦
        let is_entry = find_first-IsEntry m.table src i q in
        let held : (get_or m.table i (slot 0)).isr ≡ old = ground arith in
        let entry : get_or m.table i (slot 0) ≡ record { src = src; isr = old } =
          ap (λ s. record { src = s; isr = (get_or m.table i (slot 0)).isr }) is_entry.of_src
          ∙ ap (λ o. record { src = src; isr = o }) held in
        subst (IsSwap old) (sym (set_irq_handler-put i q n b)) (
          i,
          is_entry.inside,
          entry,
          (λ j lt. find_first-none_before m.table src i j q lt),
          ap (λ e. (e.isr, record m { table = set m.table i (record e { isr = h }) })) entry,
          swapped i q,
        )
  ]
