-- ===== src/ProgTimer/Lifecycle.antt =====
-- Freeing timers: `progtimer_free` of application/libhw/prog_timer.c.
use native.Mathlib.Decide.{ℕ_discrete}
use or1k_spartan6_platform_x.Base.{
  ℕ, zero, suc, ◌<◌, ◌≤◌, ◌≡◌, ◌≢◌, true, false, refl, arith, none, some, [], ◌∷◌, length, ◌==◌,
  ==-refl, ==-ne, ap, ◌∙◌, if◌then◌else◌, subst, sym,
}
use or1k_spartan6_platform_x.ProgTimer.{
  Ptr, Timer, node, write, State, Run, ok, fault, store, release, progtimer_free, unlink,
  find_before,
}
use or1k_spartan6_platform_x.ProgTimer.Chain.{
  Cells, has, Chain, nil, cons, frame-write, write_self, write_other, has-ne_null, head-ne, Holds,
}

-- The list without the timer at `p`.
abbrev pub erase : Ptr → Cells → Cells
erase p [] = []
erase p ((q, t) ∷ ts) = if p == q then ts else (q, t) ∷ erase p ts

-- The search for the timer before `tl` found `b`, and unlinking and freeing `tl` there leaves the
-- chain without it.
record Found {W : Type 0} (m : State W) (tl p : Ptr) (ts : Cells) (out : Run Ptr) : Type 0 where
  b : Ptr
  n : Ptr
  tb : Timer
  tt' : Timer
  returns : out ≡ ok b
  b_ne : b ≢ 0
  b_cell : m.cells b ≡ some (node tl tb)
  tl_cell : m.cells tl ≡ some (node n tt')
  chain : Chain (write (write m.cells b (some (node n tb))) tl none) p (erase tl ts)

module _ {W : Type 0} (m : State W) (tl : Ptr) where
  not_has-erase : (a : Ptr) (ts : Cells) → has a ts ≡ false → has a (erase tl ts) ≡ false
  not_has-erase a [] o = refl
  not_has-erase a ((p, t) ∷ ts) o = ground (arith, not_has-erase a ts)

  find_before-hit :
      (fuel : ℕ) (p n : Ptr) (t t' : Timer) (vs : Cells)
      → p ≢ 0
      → m.cells p ≡ some (node tl t)
      → has p ((tl, t') ∷ vs) ≡ false
      → tl ≢ 0
      → m.cells tl ≡ some (node n t')
      → has tl vs ≡ false
      → Chain m.cells n vs
      → Found m tl p ((p, t) ∷ (tl, t') ∷ vs) (find_before (suc fuel) tl p m)
  unfolding find_before
  find_before-hit fuel p n t t' vs ne e out ne' e' out' c = record {
    b = p;
    n = n;
    tb = t;
    tt' = t';
    returns = ground arith;
    b_ne = ne;
    b_cell = e;
    tl_cell = e';
    chain =
        rw (==-ne tl p apart, ==-refl tl)
          (cons ne
            (write_other (write m.cells p (some (node n t))) tl p none (λ s. apart (sym s))
              ∙ write_self m.cells p (some (node n t)))
            (ground arith)
            (frame-write tl none (frame-write p (some (node n t)) c (ground arith)) out'));
  }
    where
      apart : tl ≢ p
      apart s = ground arith

  find_before-miss :
      (fuel : ℕ) (p q : Ptr) (t : Timer) (us : Cells)
      → p ≢ 0
      → m.cells p ≡ some (node q t)
      → has p us ≡ false
      → has tl us ≡ true
      → q ≢ tl
      → Found m tl q us (find_before fuel tl q m)
      → Found m tl p ((p, t) ∷ us) (find_before (suc fuel) tl p m)
  unfolding find_before
  find_before-miss fuel p q t us ne e out i nq r = record {
    b = r.b;
    n = r.n;
    tb = r.tb;
    tt' = r.tt';
    returns = ground (arith, r.returns);
    b_ne = r.b_ne;
    b_cell = r.b_cell;
    tl_cell = r.tl_cell;
    chain = rw (==-ne tl p apart) (
        cons ne
          (write_other (write m.cells r.b (some (node r.n r.tb))) tl p none (λ s. apart (sym s))
            ∙ write_other m.cells r.b p (some (node r.n r.tb)) not_b
            ∙ e)
          (not_has-erase p us out) r.chain);
  }
    where
      apart : tl ≢ p
      apart s = ground (arith, ap (λ a. has a us) s)

      not_b : p ≢ r.b
      not_b s = ground (arith, ap m.cells s, r.b_cell)

  Found-next :
      (fuel : ℕ) (p q : Ptr) (t : Timer) (us : Cells)
      → p ≢ 0
      → m.cells p ≡ some (node q t)
      → has p us ≡ false
      → Chain m.cells q us
      → has tl us ≡ true
      → q ≡ tl
      → Found m tl p ((p, t) ∷ us) (find_before (suc fuel) tl p m)
  Found-next fuel p q t us ne e out nil i s = cc
  Found-next fuel p q t us ne e out (cons {q = n} {t = t'} {ts = vs} ne' e' out' c) i s =
      subst (λ x. Found m tl p ((p, t) ∷ (x, t') ∷ vs) (find_before (suc fuel) tl p m)) (sym s)
        (find_before-hit fuel p n t t' vs ne (rw s at e) (rw s at out) (rw s at ne') (rw s at e')
          (rw s at out') c)

  find_before-Found :
      (fuel : ℕ) (p : Ptr) (ts : Cells)
      → Chain m.cells p ts
      → has tl ts ≡ true
      → tl ≢ p
      → length ts ≤ fuel
      → Found m tl p ts (find_before fuel tl p m)
  find_before-Found zero p ts nil i np h = cc
  find_before-Found zero p ts (cons ne e out c) i np h = absurd (omega arith)
  find_before-Found (suc fuel) p ts nil i np h = cc
  find_before-Found (suc fuel) p ts (cons {q} {t} {ts = us} ne e out c) i np h =
      elim (ℕ_discrete q tl) [
        | yes s ↦ Found-next fuel p q t us ne e out c (ground (arith, ==-ne tl p np)) s
        | no ns ↦ find_before-miss fuel p q t us ne e out (ground (arith, ==-ne tl p np)) ns (
            find_before-Found fuel q us c (ground (arith, ==-ne tl p np)) (λ s. ns (sym s))
              (omega arith))
      ]

  -- The state behind a call that freed `tl` from the list `ts`.
  abbrev pub Freed : Cells → Run (State W) → Type 0
  Freed ts out = (m' : State W) × (out ≡ ok m') × Holds m' (erase tl ts) × (m'.cells tl ≡ none)

  free-Found :
      (fuel : ℕ) (ts : Cells)
      → tl ≢ 0
      → tl ≢ m.head
      → Found m tl m.head ts (find_before fuel tl m.head m)
      → Freed ts (progtimer_free fuel tl m)
  unfolding progtimer_free unlink
  free-Found fuel ts nz ns r = (
    release tl (store r.b (node r.n r.tb) m),
    ground (arith, r.returns, r.b_ne, r.b_cell, r.tl_cell),
    r.chain,
    write_self (write m.cells r.b (some (node r.n r.tb))) tl none,
  )

  free_head :
      (fuel : ℕ) (p : Ptr) (ts : Cells)
      → Chain m.cells p ts
      → has tl ts ≡ true
      → p ≡ m.head
      → tl ≡ p
      → Freed ts (progtimer_free fuel tl m)
  unfolding progtimer_free unlink
  free_head fuel p ts nil i hd s = cc
  free_head fuel p ts (cons {q} {t} {ts = us} ne e out c) i hd s = (
    release tl (record m { head = q }),
    ground (arith, ap m.cells hd),
    rw (s, ==-refl p) (frame-write p none c out),
    write_self m.cells tl none,
  )

  -- Freeing a timer of a list that is well formed, with fuel for its length, ends without a fault,
  -- takes that timer out of the list, gives its memory back and keeps all other timers in order.
  pub progtimer_free-erase :
      (fuel : ℕ) (ts : Cells)
      → Holds m ts
      → has tl ts ≡ true
      → length ts ≤ fuel
      → Freed ts (progtimer_free fuel tl m)
  progtimer_free-erase fuel ts c i h = elim (ℕ_discrete tl m.head) [
    | yes s ↦ free_head fuel m.head ts c i refl s
    | no ns ↦ free-Found fuel ts (has-ne_null tl c i) ns (find_before-Found fuel m.head ts c i ns h)
  ]

  lost :
      (fuel : ℕ) (p : Ptr) (ts : Cells)
      → Chain m.cells p ts
      → has tl ts ≡ false
      → tl ≢ 0
      → length ts < fuel
      → find_before fuel tl p m ≡ fault
  unfolding find_before
  lost zero p ts c o nz h = absurd (omega arith)
  lost (suc fuel) p ts nil o nz h = refl
  lost (suc fuel) p ts (cons {q} {t} {ts = us} ne e out c) o nz h =
      ground (arith, lost fuel q us c, next c)
    where
      next : Chain m.cells q us → q ≢ tl
      next c s = head-ne tl c (ground arith) nz (sym s)

  -- Freeing a pointer that is neither `NULL` nor in a list that is well formed, with fuel for
  -- its length, reads through a pointer that holds no timer.
  pub progtimer_free-fault :
      (fuel : ℕ) (ts : Cells)
      → Holds m ts
      → has tl ts ≡ false
      → tl ≢ 0
      → length ts < fuel
      → progtimer_free fuel tl m ≡ fault
  unfolding progtimer_free unlink
  progtimer_free-fault fuel ts c o nz h = ground (arith, lost fuel m.head ts c, head-ne tl c o nz)
