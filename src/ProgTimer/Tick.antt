-- ===== src/ProgTimer/Tick.antt =====
-- The tick of application/libhw/prog_timer.c against a specification on the list of timers.
use or1k_spartan6_platform_x.Base.{
  ℕ, zero, suc, ◌+◌, ◌%◌, ◌^◌, ◌<◌, ◌≡◌, ◌≢◌, Bool, true, false, ◌||◌, refl, arith, Option, none,
  some, [], ◌∷◌, length, ◌==◌, Bool-cases, inl, inr, ap, ◌∙◌, leb, if◌then◌else◌, subst, sym,
}
use or1k_spartan6_platform_x.ProgTimer.{
  Ptr, Timer, node, write, State, Run, ok, visit, tick_loop, progtimer_get_interval,
  progtimer_handler_bottom, progtimer_ticks_inc,
}
use or1k_spartan6_platform_x.ProgTimer.Chain.{
  Cells, has, Chain, nil, cons, frame, write_self, write_other, Holds,
}

module _ {W : Type 0} (effect : ℕ → ℕ → ℕ → W → W) where
  -- Whether a timer's interval has run out at the time `now`.
  abbrev pub is_due : ℕ → Timer → Bool
  is_due now t = leb t.timer_rv (progtimer_get_interval t.timer_cnt now)

  -- A timer behind the tick: one whose interval has run out starts anew.
  abbrev pub restart : ℕ → Timer → Timer
  restart now t = if is_due now t then record t { timer_cnt = now } else t

  abbrev pub restart_all : ℕ → Cells → Cells
  restart_all now [] = []
  restart_all now ((p, t) ∷ ts) = (p, restart now t) ∷ restart_all now ts

  abbrev pub run_handler : ℕ → Timer → W → W
  run_handler now t w =
      if is_due now t then elim t.handler [ none ↦ w | some h ↦ effect h t.cookie now w ] else w

  -- The handlers of the due timers, in the list's order.
  abbrev pub run_all : ℕ → Cells → W → W
  run_all now [] w = w
  run_all now ((p, t) ∷ ts) w = run_all now ts (run_handler now t w)

  module _ (call : ℕ → ℕ → State W → State W) where
    -- Handlers that see the time and change the rest of the machine only.
    abbrev pub Quiet : Type 0
    Quiet =
        (h c : ℕ) (m : State W)
        → call h c m ≡ record m { world = effect h c m.current_time m.world }

    module _ (quiet : Quiet) where
      -- What a visit leaves: the timer restarted and its handler run.
      abbrev visited : Ptr → Ptr → Timer → State W → State W
      visited p q t m = record m {
        cells =
            (if is_due m.current_time t
              then write m.cells p (some (node q (restart m.current_time t)))
              else m.cells);
        world = run_handler m.current_time t m.world;
      }

      call_handler-eq :
          (o : Option ℕ) (c : ℕ) (m : State W)
          → ◌≡◌ {A = State W}
              (elim o [ none ↦ m | some h ↦ call h c m ])
              (record m {
                world = elim o [ none ↦ m.world | some h ↦ effect h c m.current_time m.world ];
              })
      call_handler-eq none c m = refl
      call_handler-eq (some h) c m = quiet h c m

      visit-eq : (p q : Ptr) (t : Timer) (m : State W) → visit call p (node q t) m ≡ visited p q t m
      unfolding visit
      visit-eq p q t m = elim (Bool-cases (is_due m.current_time t)) [
        | inl d ↦ rw d (
            call_handler-eq t.handler t.cookie (record m {
              cells = write m.cells p (some (node q (record t { timer_cnt = m.current_time })));
            }))
        | inr d ↦ rw d
      ]

      -- What the walk from `p` over the timers `ts` leaves.
      record Ticked (m : State W) (p : Ptr) (ts : Cells) (out : Run (State W)) : Type 0 where
        after : State W
        returns : out ≡ ok after
        chain : Chain after.cells p (restart_all m.current_time ts)
        world : after.world ≡ run_all m.current_time ts m.world
        head : after.head ≡ m.head
        time : after.current_time ≡ m.current_time
        irq : after.irq_on ≡ m.irq_on
        outside : (a : Ptr) → has a ts ≡ false → after.cells a ≡ m.cells a

      has-restart_all : (now : ℕ) (a : Ptr) (ts : Cells) → has a (restart_all now ts) ≡ has a ts
      has-restart_all now a [] = refl
      has-restart_all now a ((p, t) ∷ ts) = ap (λ b. (a == p) || b) (has-restart_all now a ts)

      visited_self :
          (p q : Ptr) (t : Timer) (m : State W)
          → m.cells p ≡ some (node q t)
          → (visited p q t m).cells p ≡ some (node q (restart m.current_time t))
      visited_self p q t m e = elim (Bool-cases (is_due m.current_time t)) [
        | inl d ↦ rw d (write_self m.cells p _)
        | inr d ↦ rw d e
      ]

      visited-other :
          (p q a : Ptr) (t : Timer) (m : State W) → a ≢ p → (visited p q t m).cells a ≡ m.cells a
      visited-other p q a t m ne = elim (Bool-cases (is_due m.current_time t)) [
        | inl d ↦ rw d (write_other m.cells p a _ ne)
        | inr d ↦ rw d
      ]

      apart : (p : Ptr) (us : Cells) (a : Ptr) → has p us ≡ false → has a us ≡ true → a ≢ p
      apart p us a out i same = ground (arith, ap (λ b. has b us) same)

      Ticked-cons :
          (p q : Ptr) (t : Timer) (us : Cells) (m : State W) (out : Run (State W))
          → p ≢ 0
          → m.cells p ≡ some (node q t)
          → has p us ≡ false
          → Ticked (visited p q t m) q us out
          → Ticked m p ((p, t) ∷ us) out
      Ticked-cons p q t us m out ne e fresh r = record {
        after = r.after;
        returns = r.returns;
        chain =
            cons ne (r.outside p fresh ∙ visited_self p q t m e)
              (has-restart_all m.current_time p us ∙ fresh) r.chain;
        world = r.world;
        head = r.head;
        time = r.time;
        irq = r.irq;
        outside = λ a o. ground (arith, r.outside a, visited-other p q a t m);
      }

      tick_loop-cons :
          (fuel : ℕ) (p q : Ptr) (t : Timer) (m : State W)
          → p ≢ 0
          → m.cells p ≡ some (node q t)
          → tick_loop call (suc fuel) p m ≡ tick_loop call fuel q (visited p q t m)
      unfolding tick_loop
      tick_loop-cons fuel p q t m ne e = ground (arith, visit-eq p q t m, visited_self p q t m e)

      tick_loop-Ticked :
          (fuel : ℕ) (p : Ptr) (ts : Cells) (m : State W)
          → Chain m.cells p ts
          → length ts < fuel
          → Ticked m p ts (tick_loop call fuel p m)
      unfolding tick_loop
      tick_loop-Ticked zero p ts m c h = absurd (omega arith)
      tick_loop-Ticked (suc fuel) p [] m nil h = record {
        after = m;
        returns = refl;
        chain = nil;
        world = refl;
        head = refl;
        time = refl;
        irq = refl;
        outside = λ a o. refl;
      }
      tick_loop-Ticked (suc fuel) p ts m (cons {q} {t} {ts = us} ne e out c) h =
          subst (Ticked m p ts) (sym (tick_loop-cons fuel p q t m ne e)) (
            Ticked-cons p q t us m _ ne e out (
              tick_loop-Ticked fuel q us (visited p q t m)
                (frame c λ a i. visited-other p q a t m (apart p us a out i)) (omega arith)))

      -- With a list of timers that is well formed, fuel for its length and handlers that change
      -- only the rest of the machine, the tick ends without a fault: the clock advances by one,
      -- modulo 2^64, exactly the timers whose interval has run out at the new time start anew,
      -- and their handlers run once each, in the list's order. The list keeps its timers.
      pub progtimer_handler_bottom-restarts :
          (fuel : ℕ) (ts : Cells) (m : State W)
          → Holds m ts
          → length ts < fuel
          → let now = (m.current_time + 1) % 2 ^ 64 in
            (m' : State W) × (progtimer_handler_bottom call fuel m ≡ ok m')
            × Holds m' (restart_all now ts)
            × (m'.world ≡ run_all now ts m.world)
            × (m'.current_time ≡ now)
      unfolding progtimer_handler_bottom progtimer_ticks_inc
      progtimer_handler_bottom-restarts fuel ts m c h = (
        r.after,
        r.returns,
        subst (λ p. Chain r.after.cells p (restart_all ((m.current_time + 1) % 2 ^ 64) ts))
            (sym r.head) r.chain,
        r.world,
        r.time,
      )
        where
          r :
              Ticked
                (progtimer_ticks_inc m)
                m.head
                ts
                (tick_loop call fuel m.head (progtimer_ticks_inc m))
          r = tick_loop-Ticked fuel m.head ts (progtimer_ticks_inc m) c h
