-- ===== src/ProgTimer/Reset.antt =====
-- Setting the clock, resetting and releasing all timers of application/libhw/prog_timer.c.
use native.Mathlib.Decide.{ℕ_discrete}
use or1k_spartan6_platform_x.Base.{
  Bool-cases, inl, inr, if◌then◌else◌, ℕ, zero, suc, ◌/◌, ◌<◌, ◌≡◌, ◌≢◌, true, false, ◌||◌, refl,
  arith, none, some, [], ◌∷◌, length, ◌==◌, ap, ◌∙◌, subst, sym,
}
use or1k_spartan6_platform_x.ProgTimer.{
  Ptr, Timer, node, State, Run, ok, store, release, reset_loop, progtimer_reset_all,
  progtimer_setclock, period_ms, release_loop, progtimer_release,
}
use or1k_spartan6_platform_x.ProgTimer.Chain.{
  Cells, has, Chain, nil, cons, frame-write, write_self, write_other, Holds,
}

-- Every timer starts anew at the time `now`.
abbrev pub reset_to : ℕ → Cells → Cells
reset_to now [] = []
reset_to now ((p, t) ∷ ts) = (p, record t { timer_cnt = now }) ∷ reset_to now ts

has-reset_to : (now : ℕ) (a : Ptr) (ts : Cells) → has a (reset_to now ts) ≡ has a ts
has-reset_to now a [] = refl
has-reset_to now a ((p, t) ∷ ts) = ap (λ b. (a == p) || b) (has-reset_to now a ts)

module _ {W : Type 0} where
  record ResetTo (m : State W) (p : Ptr) (ts : Cells) (out : Run (State W)) : Type 0 where
    after : State W
    returns : out ≡ ok after
    chain : Chain after.cells p (reset_to m.current_time ts)
    frozen : after ≡ record m { cells = after.cells }
    outside : (a : Ptr) → has a ts ≡ false → after.cells a ≡ m.cells a

  abbrev stamped : Ptr → Ptr → Timer → State W → State W
  stamped p q t m = store p (node q (record t { timer_cnt = m.current_time })) m

  reset_loop-cons :
      (fuel : ℕ) (p q : Ptr) (t : Timer) (m : State W)
      → p ≢ 0
      → m.cells p ≡ some (node q t)
      → reset_loop (suc fuel) p m ≡ reset_loop fuel q (stamped p q t m)
  unfolding reset_loop
  reset_loop-cons fuel p q t m ne e = ground arith

  ResetTo-cons :
      (p q : Ptr) (t : Timer) (us : Cells) (m : State W) (out : Run (State W))
      → p ≢ 0
      → has p us ≡ false
      → ResetTo (stamped p q t m) q us out
      → ResetTo m p ((p, t) ∷ us) out
  ResetTo-cons p q t us m out ne fresh r = record {
    after = r.after;
    returns = r.returns;
    chain =
        cons ne (r.outside p fresh ∙ write_self m.cells p _)
          (has-reset_to m.current_time p us ∙ fresh) r.chain;
    frozen = r.frozen;
    outside = λ a o. ground (
      arith,
      r.outside a,
      write_other m.cells p a (some (node q (record t { timer_cnt = m.current_time }))),
    );
  }

  reset_loop-ResetTo :
      (fuel : ℕ) (p : Ptr) (ts : Cells) (m : State W)
      → Chain m.cells p ts
      → length ts < fuel
      → ResetTo m p ts (reset_loop fuel p m)
  unfolding reset_loop
  reset_loop-ResetTo zero p ts m c h = absurd (omega arith)
  reset_loop-ResetTo (suc fuel) p [] m nil h = record {
    after = m;
    returns = refl;
    chain = nil;
    frozen = refl;
    outside = λ a o. refl;
  }
  reset_loop-ResetTo (suc fuel) p ts m (cons {q} {t} {ts = us} ne e out c) h =
      subst (ResetTo m p ts) (sym (reset_loop-cons fuel p q t m ne e)) (
        ResetTo-cons p q t us m _ ne out
          (reset_loop-ResetTo fuel q us (stamped p q t m) (frame-write p _ c out) (omega arith)))

  -- Setting the clock of a list that is well formed, with fuel for its length, ends without a
  -- fault, sets the time, makes every timer of the list start anew at that time, and changes
  -- neither the order of the list nor a timer's period or handler.
  pub progtimer_setclock-reset_to :
      (fuel time_ms : ℕ) (ts : Cells) (m : State W)
      → Holds m ts
      → length ts < fuel
      → (m' : State W) × (progtimer_setclock fuel time_ms m ≡ ok m')
        × (m'.current_time ≡ time_ms / period_ms)
        × Holds m' (reset_to (time_ms / period_ms) ts)
        × (m'.world ≡ m.world)
  unfolding progtimer_setclock progtimer_reset_all
  progtimer_setclock-reset_to fuel time_ms ts m c h = (
    r.after,
    r.returns,
    ap (λ (s : State W). s.current_time) r.frozen,
    subst (λ p. Chain r.after.cells p (reset_to (time_ms / period_ms) ts))
        (sym (ap (λ (s : State W). s.head) r.frozen)) r.chain,
    ap (λ (s : State W). s.world) r.frozen,
  )
    where
      now : State W
      now = record m { current_time = time_ms / period_ms }

      r : ResetTo now m.head ts (reset_loop fuel m.head now)
      r = reset_loop-ResetTo fuel m.head ts now c h

  -- Memory that was given back stays so when more is given back.
  record Released (m : State W) (ts : Cells) (out : Run (State W)) : Type 0 where
    after : State W
    returns : out ≡ ok after
    head : after.head ≡ 0
    irq : after.irq_on ≡ m.irq_on
    inside : (a : Ptr) → has a ts ≡ true → after.cells a ≡ none
    outside : (a : Ptr) → has a ts ≡ false → after.cells a ≡ m.cells a

  abbrev dropped : Ptr → Ptr → State W → State W
  dropped p q m = record (release p m) { head = q }

  release_loop-cons :
      (fuel : ℕ) (p q : Ptr) (t : Timer) (m : State W)
      → p ≢ 0
      → m.cells p ≡ some (node q t)
      → m.head ≡ p
      → release_loop (suc fuel) m ≡ release_loop fuel (dropped p q m)
  unfolding release_loop
  release_loop-cons fuel p q t m ne e hd = ground (arith, ap m.cells hd)

  Released-cons :
      (p q : Ptr) (t : Timer) (us : Cells) (m : State W) (out : Run (State W))
      → has p us ≡ false
      → Released (dropped p q m) us out
      → Released m ((p, t) ∷ us) out
  Released-cons p q t us m out fresh r = record {
    after = r.after;
    returns = r.returns;
    head = r.head;
    irq = r.irq;
    inside = λ a i. elim (ℕ_discrete a p) [
      | yes s ↦ ap r.after.cells s ∙ r.outside p fresh ∙ write_self m.cells p none
      | no ns ↦ r.inside a (ground arith)
    ];
    outside = λ a o. ground (arith, r.outside a, write_other m.cells p a none);
  }

  release_loop-Released :
      (fuel : ℕ) (p : Ptr) (ts : Cells) (m : State W)
      → Chain m.cells p ts
      → m.head ≡ p
      → length ts < fuel
      → Released m ts (release_loop fuel m)
  unfolding release_loop
  release_loop-Released zero p ts m c e h = absurd (omega arith)
  release_loop-Released (suc fuel) p [] m nil hd h = record {
    after = m;
    returns = ground arith;
    head = hd;
    irq = refl;
    inside = λ a i. cc;
    outside = λ a o. refl;
  }
  release_loop-Released (suc fuel) p ts m (cons {q} {t} {ts = us} ne e out c) hd h =
      subst (Released m ts) (sym (release_loop-cons fuel p q t m ne e hd)) (
        Released-cons p q t us m _ out (
          release_loop-Released fuel q us (dropped p q m) (frame-write p none c out) refl
            (omega arith)))

  -- Releasing a list that is well formed, with fuel for its length, ends without a fault, leaves no
  -- timer, gives the memory of every timer back, touches no other, and disables the tick.
  pub progtimer_release-frees :
      (fuel : ℕ) (ts : Cells) (m : State W)
      → Holds m ts
      → length ts < fuel
      → (m' : State W) × (progtimer_release fuel m ≡ ok m')
        × (m'.head ≡ 0)
        × (m'.irq_on ≡ false)
        × ((a : Ptr) → m'.cells a ≡ (if has a ts then none else m.cells a))
  unfolding progtimer_release
  progtimer_release-frees fuel ts m c h = (r.after, r.returns, r.head, r.irq, cells)
    where
      r :
          Released
            (record m { irq_on = false })
            ts
            (release_loop fuel (record m { irq_on = false }))
      r = release_loop-Released fuel m.head ts (record m { irq_on = false }) c refl h

      cells : (a : Ptr) → r.after.cells a ≡ (if has a ts then none else m.cells a)
      cells a = elim (Bool-cases (has a ts)) [
        | inl i ↦ rw i (r.inside a i)
        | inr o ↦ rw o (r.outside a o)
      ]
