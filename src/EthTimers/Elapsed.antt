-- ===== src/EthTimers/Elapsed.antt =====
-- The counters of application/ibexukIP/timers.c behind so many ticks of the system timer.
use or1k_spartan6_platform_x.Base.{
  ℕ, zero, suc, ◌+◌, ◌-◌, ◌/◌, ◌%◌, ◌^◌, ◌<◌, ◌≡◌, refl, ap, subst, ◌∙◌, arith, true, false, some,
  [], ◌∷◌, u8, leb, ◌==◌, if◌then◌else◌, Bool-cases, inl, inr,
}
use or1k_spartan6_platform_x.ProgTimer.{
  Ptr, Timer, State, Run, ok, and_then, progtimer_get_interval, progtimer_handler_bottom,
}
use or1k_spartan6_platform_x.ProgTimer.Chain.{Cells, Holds}
use or1k_spartan6_platform_x.ProgTimer.Tick.{
  restart_all, run_handler, run_all, progtimer_handler_bottom-restarts,
}
use or1k_spartan6_platform_x.EthTimers.{
  Clocks, count_down, tick_1ms, tick_1s, tick_10ms, handler, call,
}

-- So many ticks, one behind the other.
unfoldable pub ticks : (ℕ → ℕ) → ℕ → ℕ → State Clocks → Run (State Clocks)
ticks link fuel zero m = ok m
ticks link fuel (suc n) m =
    and_then (ticks link fuel n m) (λ m'. progtimer_handler_bottom (call link) fuel m')

abbrev pub timer : ℕ → ℕ → ℕ → Timer
timer cnt period h = record { timer_cnt = cnt; timer_rv = period; handler = some h; cookie = 0 }

-- The timers at the time `n`, each counting from the last multiple of its period.
abbrev pub table : Ptr → Ptr → Ptr → ℕ → Cells
table p1 p2 p3 n =
    (p3, timer (n - n % 1000) 1000 3) ∷ (p2, timer (n - n % 10) 10 2) ∷ (p1, timer n 1 1) ∷ []

-- The stack's variables at the time `n`, from what they were at the time 0.
abbrev pub elapsed : (ℕ → ℕ) → ℕ → Clocks → Clocks
elapsed link n w = record {
  dhcp_1ms = w.dhcp_1ms - n;
  renewal = w.renewal - n / 1000;
  lease = w.lease - n / 1000;
  clock_10ms = u8 (w.clock_10ms + n / 10);
  is_linked = (if n / 1000 == 0 then w.is_linked else u8 (link (n - n % 1000)));
}

due_10 : (n : ℕ) → leb 10 (progtimer_get_interval (n - n % 10) (n + 1)) ≡ ((n + 1) % 10 == 0)
unfolding progtimer_get_interval
due_10 n = ground arith

due_1000 :
    (n : ℕ) → leb 1000 (progtimer_get_interval (n - n % 1000) (n + 1)) ≡ ((n + 1) % 1000 == 0)
unfolding progtimer_get_interval
due_1000 n = ground arith

due_1 : (n : ℕ) → leb 1 (progtimer_get_interval n (n + 1)) ≡ true
unfolding progtimer_get_interval
due_1 n = ground arith

restart_10 :
    (n : ℕ)
    → (if leb 10 (progtimer_get_interval (n - n % 10) (n + 1))
        then timer (n + 1) 10 2
        else timer (n - n % 10) 10 2)
      ≡ timer (n + 1 - (n + 1) % 10) 10 2
restart_10 n = rw (due_10 n) (ground arith)

restart_1000 :
    (n : ℕ)
    → (if leb 1000 (progtimer_get_interval (n - n % 1000) (n + 1))
        then timer (n + 1) 1000 3
        else timer (n - n % 1000) 1000 3)
      ≡ timer (n + 1 - (n + 1) % 1000) 1000 3
restart_1000 n = rw (due_1000 n) (ground arith)

module _ (link : ℕ → ℕ) where
  abbrev effect : ℕ → ℕ → ℕ → Clocks → Clocks
  effect = handler link

  restart_all-table :
      (p1 p2 p3 n : ℕ) → restart_all effect (n + 1) (table p1 p2 p3 n) ≡ table p1 p2 p3 (n + 1)
  restart_all-table p1 p2 p3 n = rw (due_1 n, restart_10 n, restart_1000 n) refl

  -- Each counter's step at a tick.
  run_1000 :
      (n : ℕ) (w : Clocks)
      → run_handler effect (n + 1) (timer (n - n % 1000) 1000 3) w
        ≡ (if (n + 1) % 1000 == 0 then tick_1s link (n + 1) w else w)
  unfolding handler
  run_1000 n w = rw (due_1000 n) refl

  run_10 :
      (n : ℕ) (w : Clocks)
      → run_handler effect (n + 1) (timer (n - n % 10) 10 2) w
        ≡ (if (n + 1) % 10 == 0 then tick_10ms w else w)
  unfolding handler
  run_10 n w = rw (due_10 n) refl

  run_1 : (n : ℕ) (w : Clocks) → run_handler effect (n + 1) (timer n 1 1) w ≡ tick_1ms w
  unfolding handler
  run_1 n w = rw (due_1 n) refl

  step_1000 :
      (n : ℕ) (w : Clocks)
      → (if (n + 1) % 1000 == 0 then tick_1s link (n + 1) (elapsed link n w) else elapsed link n w)
        ≡ record (elapsed link n w) {
          renewal = w.renewal - (n + 1) / 1000;
          lease = w.lease - (n + 1) / 1000;
          is_linked = (elapsed link (n + 1) w).is_linked;
        }
  unfolding tick_1s
  step_1000 n w = elim (Bool-cases ((n + 1) % 1000 == 0)) [
    | inl e ↦ rw e (ground arith)
    | inr e ↦ rw e (ground arith)
  ]

  abbrev after_1s : ℕ → Clocks → Clocks
  after_1s n w = record (elapsed link n w) {
    renewal = w.renewal - (n + 1) / 1000;
    lease = w.lease - (n + 1) / 1000;
    is_linked = (elapsed link (n + 1) w).is_linked;
  }

  step_10 :
      (n : ℕ) (w : Clocks)
      → (if (n + 1) % 10 == 0 then tick_10ms (after_1s n w) else after_1s n w)
        ≡ record (after_1s n w) { clock_10ms = u8 (w.clock_10ms + (n + 1) / 10) }
  unfolding tick_10ms
  step_10 n w = elim (Bool-cases ((n + 1) % 10 == 0)) [
    | inl e ↦ rw e (ap (λ c. record (after_1s n w) { clock_10ms = c }) (count n e))
    | inr e ↦ rw e (ap (λ c. record (after_1s n w) { clock_10ms = c }) (stay n e))
  ]
    where
      count :
          (n : ℕ)
          → ((n + 1) % 10 == 0) ≡ true
          → u8 (u8 (w.clock_10ms + n / 10) + 1) ≡ u8 (w.clock_10ms + (n + 1) / 10)
      count n e = ground arith

      stay :
          (n : ℕ)
          → ((n + 1) % 10 == 0) ≡ false
          → u8 (w.clock_10ms + n / 10) ≡ u8 (w.clock_10ms + (n + 1) / 10)
      stay n e = ground arith

  step_1 : (x n : ℕ) → count_down (x - n) ≡ x - (n + 1)
  step_1 x n = ground arith

  run_all-elapsed :
      (p1 p2 p3 n : ℕ) (w : Clocks)
      → run_all effect (n + 1) (table p1 p2 p3 n) (elapsed link n w) ≡ elapsed link (n + 1) w
  unfolding tick_1ms
  run_all-elapsed p1 p2 p3 n w =
      ap
        (λ v.
          run_handler effect (n + 1) (timer n 1 1)
            (run_handler effect (n + 1) (timer (n - n % 10) 10 2) v))
        (run_1000 n (elapsed link n w) ∙ step_1000 n w)
      ∙ ap (λ v. run_handler effect (n + 1) (timer n 1 1) v) (run_10 n (after_1s n w) ∙ step_10 n w)
      ∙ run_1 n (record (after_1s n w) { clock_10ms = u8 (w.clock_10ms + (n + 1) / 10) })
      ∙ ap (λ c. record (elapsed link (n + 1) w) { dhcp_1ms = c }) (step_1 w.dhcp_1ms n)

  -- The stack's timers at the time `n`.
  abbrev pub AtTime : Ptr → Ptr → Ptr → ℕ → Clocks → State Clocks → Type 0
  AtTime p1 p2 p3 n w m =
      Holds m (table p1 p2 p3 n) × (m.current_time ≡ n) × (m.world ≡ elapsed link n w)

  tick-AtTime :
      (p1 p2 p3 n fuel : ℕ) (w : Clocks) (m : State Clocks)
      → AtTime p1 p2 p3 n w m
      → 3 < fuel
      → n + 1 < 2 ^ 64
      → (m' : State Clocks) × (progtimer_handler_bottom (call link) fuel m ≡ ok m')
        × AtTime p1 p2 p3 (n + 1) w m'
  tick-AtTime p1 p2 p3 n fuel w m (holds, time, world) enough small =
      let now : (m.current_time + 1) % 2 ^ 64 ≡ n + 1 = omega (arith, time) in
      let (m', run, holds', world', time') =
        progtimer_handler_bottom-restarts effect (call link) (λ h c s. refl) fuel (table p1 p2 p3 n)
          m holds enough in
      (
        m',
        run,
        (
          subst (λ ts. Holds m' ts)
              (ap (λ k. restart_all effect k (table p1 p2 p3 n)) now ∙ restart_all-table p1 p2 p3 n)
              holds',
          time' ∙ now,
          world'
              ∙ ap (λ k. run_all effect k (table p1 p2 p3 n) m.world) now
              ∙ ap (λ v. run_all effect (n + 1) (table p1 p2 p3 n) v) world
              ∙ run_all-elapsed p1 p2 p3 n w,
        ),
      )

  pub ticks-AtTime :
      (p1 p2 p3 n fuel : ℕ) (w : Clocks) (m : State Clocks)
      → AtTime p1 p2 p3 0 w m
      → 3 < fuel
      → n < 2 ^ 64
      → (m' : State Clocks) × (ticks link fuel n m ≡ ok m') × AtTime p1 p2 p3 n w m'
  unfolding ticks
  ticks-AtTime p1 p2 p3 zero fuel w m at enough small = (m, refl, at)
  ticks-AtTime p1 p2 p3 (suc n) fuel w m at enough small =
      let (m1, run1, at1) = ticks-AtTime p1 p2 p3 n fuel w m at enough (omega arith) in
      let next : n + 1 ≡ suc n = omega arith in
      let (m2, run2, at2) = tick-AtTime p1 p2 p3 n fuel w m1 at1 enough (omega arith) in
      (
        m2,
        ap (λ r. and_then r (λ m'. progtimer_handler_bottom (call link) fuel m')) run1 ∙ run2,
        subst (λ k. AtTime p1 p2 p3 k w m2) next at2,
      )
