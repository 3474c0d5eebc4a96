-- ===== src/Irq/Dispatch.antt =====
-- The dispatcher `default_ISR` of application/libhw/irq.c against a walk over the whole table.
use mathlib.Core.Bool.{or-false}
use native.Mathlib.Numerals.{add-one}
use native.Mathlib.Decide.{ℕ_discrete}
use or1k_spartan6_platform_x.Base.{
  ℕ, zero, suc, ◌+◌, ◌<◌, ◌≡◌, Bool, true, false, ◌&&◌, ◌||◌, not, refl, arith, ◌∙◌, Option, none,
  some, List, [], ◌∷◌, length, ap, fun_ext, ◌==◌, Bool-cases, inl, inr, if◌then◌else◌, drop, sym,
  subst, drop-suc, drop-length,
}
use or1k_spartan6_platform_x.Irq.{
  Machine, SrcHandler, Lines, no_lines, slot, is_zero, entry, call_isr, irq_acknowledge, serve,
  flags_left, isr_loop, default_isr, is_count, raise_lines,
}

-- Every source of the table is a line of a 32-bit register.
abbrev pub AllLines : List SrcHandler → Type 0
AllLines [] = Unit {0}
AllLines (d ∷ ds) = (d.src < 32) × AllLines ds

abbrev pub has_src : ℕ → List SrcHandler → Bool
has_src s [] = false
has_src s (d ∷ ds) = (s == d.src) || has_src s ds

AllLines-drop : (i : ℕ) (ds : List SrcHandler) → AllLines ds → AllLines (drop i ds)
AllLines-drop zero ds a = a
AllLines-drop (suc i) [] a = a
AllLines-drop (suc i) (d ∷ ds) a = AllLines-drop i ds a.1

is_zero-line : (n s : ℕ) (l : Lines) → is_zero n l ≡ true → s < n → l s ≡ false
unfolding is_zero
is_zero-line zero s l e h = absurd (omega arith)
is_zero-line (suc n) s l e h = elim (ℕ_discrete s n) [
  | yes p ↦ ground (arith, ap l p)
  | no p ↦ ground (arith, is_zero-line n s l)
]

module _ {W : Type 0} (call : ℕ → Machine W → Machine W) where
  -- The walk: every entry whose source is pending and enabled when it is reached has its handler
  -- called, and then its source acknowledged.
  unfoldable pub walk : List SrcHandler → Machine W → Machine W
  walk [] m = m
  walk (d ∷ ds) m =
      let served = walk ds (irq_acknowledge d.src (call_isr call d.isr m)) in
      let skipped = walk ds m in if m.status d.src && m.mask d.src then served else skipped

  -- Handlers that leave the dispatcher's state alone.
  abbrev pub Quiet : Type 0
  Quiet =
      (h : ℕ) (m : Machine W)
      → ((call h m).table ≡ m.table) × ((call h m).mask ≡ m.mask) × ((call h m).status ≡ m.status)

  module _ (quiet : Quiet) where
    -- Nothing is pending for the sources of `ds`.
    walk-idle :
        (ds : List SrcHandler) (m : Machine W)
        → AllLines ds
        → is_zero 32 (λ line. m.status line && m.mask line) ≡ true
        → walk ds m ≡ m
    unfolding walk
    walk-idle [] m a z = refl
    walk-idle (d ∷ ds) m a z =
        rw (is_zero-line 32 d.src (λ line. m.status line && m.mask line) z a.0)
          (walk-idle ds m a.1 z)

    -- A handler's call, and the acknowledgement behind it.
    abbrev done : SrcHandler → Machine W → Machine W
    done d m = irq_acknowledge d.src (call_isr call d.isr m)

    call_isr-quiet :
        (h : Option ℕ) (m : Machine W)
        → ((call_isr call h m).table ≡ m.table)
          × ((call_isr call h m).mask ≡ m.mask)
          × ((call_isr call h m).status ≡ m.status)
    call_isr-quiet none m = (refl, refl, refl)
    call_isr-quiet (some h) m = quiet h m

    done-table : (d : SrcHandler) (m : Machine W) → (done d m).table ≡ m.table
    unfolding irq_acknowledge
    done-table d m = (call_isr-quiet d.isr m).0

    serve-eq : (i : ℕ) (m : Machine W) → serve call i m ≡ done (entry m i) m
    unfolding serve
    serve-eq i m = rw (call_isr-quiet (entry m i).isr m).0

    flags_left-eq :
        (i : ℕ) (m : Machine W)
        → flags_left call i m
          ≡ (λ line. (done (entry m i) m).status line && (done (entry m i) m).mask line)
    unfolding flags_left irq_acknowledge
    flags_left-eq i m =
        let q = call_isr-quiet (entry m i).isr m in
        rw q.0 (rw (q.1, q.2) (fun_ext λ line. ground arith))

    raise_lines-none : (m : Machine W) → raise_lines no_lines m ≡ m
    unfolding raise_lines
    raise_lines-none m =
        ap (λ (l : Lines). record m { status = l }) (fun_ext λ line. or-false (m.status line))

    -- The loop's early exit skips rounds that would do nothing.
    round :
        (ds : List SrcHandler) (m m1 : Machine W) (d : SrcHandler)
        → AllLines ds
        → (if m.status d.src && m.mask d.src
            then (if is_zero 32 (λ line. m1.status line && m1.mask line) then m1 else walk ds m1)
            else walk ds m)
          ≡ (if m.status d.src && m.mask d.src then walk ds m1 else walk ds m)
    round ds m m1 d a = elim (Bool-cases (is_zero 32 (λ line. m1.status line && m1.mask line))) [
      | inl z ↦ rw (z, walk-idle ds m1 a z)
      | inr nz ↦ rw nz
    ]

    loop-walk :
        (left i : ℕ) (m : Machine W)
        → length m.table ≡ i + left
        → AllLines m.table
        → isr_loop call (λ i. no_lines) left i m ≡ walk (drop i m.table) m
    unfolding isr_loop walk
    loop-walk zero i m e a = rw (drop-length i m.table (omega arith))
    loop-walk (suc left) i m e a =
        let d = entry m i in
        let m1 = done d m in
        let same = done-table d m in
        let rest =
          subst (λ xs. isr_loop call (λ i. no_lines) left (suc i) m1 ≡ walk (drop (suc i) xs) m1)
            same
            (loop-walk left (suc i) m1 (ap length same ∙ e ∙ omega arith)
              (subst AllLines (sym same) a)) in
        rw
          (
            raise_lines-none,
            drop-suc i m.table (slot 0) (omega arith),
            serve-eq i m,
            flags_left-eq i m,
            add-one,
            rest,
            loop-walk left (suc i) m (omega arith) a,
          )
          (round (drop (suc i) m.table) m m1 d (AllLines-drop (suc i) m.table a))

    -- With handlers that leave the dispatcher's state alone, no arrivals during the run and a
    -- table of the right length whose sources are register lines, `default_ISR` is the walk over
    -- the whole table: it calls the handlers of the pending enabled sources in the table's order
    -- and acknowledges each source behind its handler, and its early exit changes nothing.
    pub default_isr-walk :
        (m : Machine W)
        → length m.table ≡ is_count
        → AllLines m.table
        → default_isr call (λ i. no_lines) m ≡ walk m.table m
    unfolding default_isr
    default_isr-walk m e a = loop-walk is_count 0 m e a

    status-done :
        (ds : List SrcHandler) (d : SrcHandler) (m : Machine W) (s : ℕ)
        → (m.status d.src && m.mask d.src) ≡ true
        → ((done d m).status s && not ((done d m).mask s && has_src s ds))
          ≡ (m.status s && not (m.mask s && ((s == d.src) || has_src s ds)))
    unfolding irq_acknowledge
    status-done ds d m s p =
        let q = call_isr-quiet d.isr m in
        let on = ap (λ (l : Lines). l s) q.2 in
        let enabled = ap (λ (l : Lines). l s) q.1 in
        elim (ℕ_discrete s d.src) [
          | yes e ↦ ground (arith, ap m.status e, ap m.mask e)
          | no e ↦ ground arith
        ]

    status-skip :
        (ds : List SrcHandler) (d : SrcHandler) (m : Machine W) (s : ℕ)
        → (m.status d.src && m.mask d.src) ≡ false
        → (m.status s && not (m.mask s && has_src s ds))
          ≡ (m.status s && not (m.mask s && ((s == d.src) || has_src s ds)))
    status-skip ds d m s p = elim (ℕ_discrete s d.src) [
      | yes e ↦ ground (arith, ap m.status e, ap m.mask e)
      | no e ↦ ground arith
    ]

    walk-status :
        (ds : List SrcHandler) (m : Machine W) (s : ℕ)
        → (walk ds m).status s ≡ (m.status s && not (m.mask s && has_src s ds))
    unfolding walk
    walk-status [] m s = ground arith
    walk-status (d ∷ ds) m s = elim (Bool-cases (m.status d.src && m.mask d.src)) [
      | inl p ↦ rw p (walk-status ds (done d m) s ∙ status-done ds d m s p)
      | inr p ↦ rw p (walk-status ds m s ∙ status-skip ds d m s p)
    ]

    -- With handlers that leave the dispatcher's state alone, no arrivals and a table of the
    -- right length whose sources are register lines, a line is pending behind `default_ISR`
    -- exactly if it was pending before and is masked or has no entry in the table.
    pub default_isr-status :
        (m : Machine W) (s : ℕ)
        → length m.table ≡ is_count
        → AllLines m.table
        → (default_isr call (λ i. no_lines) m).status s
          ≡ (m.status s && not (m.mask s && has_src s m.table))
    default_isr-status m s e a = rw (default_isr-walk m e a) (walk-status m.table m s)
