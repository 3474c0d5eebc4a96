-- ===== src/Tests/Timers.antt =====
-- The software timers on concrete lists.
use or1k_spartan6_platform_x.Base.{
  ℕ, ◌+◌, ◌%◌, ◌/◌, ◌^◌, ◌≡◌, refl, arith, List, [], ◌∷◌, true, some, none, if◌then◌else◌, ◌==◌,
}
use or1k_spartan6_platform_x.ProgTimer.{
  Timer, node, Heap, State, ok, period_ms, progtimer_handler_bottom, progtimer_setclock,
  progtimer_free,
}
use or1k_spartan6_platform_x.ProgTimer.Chain.{Cells, nil, cons, Holds}
use or1k_spartan6_platform_x.ProgTimer.Tick.{
  restart_all, run_all, progtimer_handler_bottom-restarts,
}
use or1k_spartan6_platform_x.ProgTimer.Reset.{reset_to, progtimer_setclock-reset_to}
use or1k_spartan6_platform_x.ProgTimer.Lifecycle.{Freed, progtimer_free-erase}
use or1k_spartan6_platform_x.ProgTimer.Delay.{progtimer_delay, EndsAt, progtimer_delay-EndsAt}

abbrev timer_of : ℕ → ℕ → ℕ → Timer
timer_of cnt rv h = record { timer_cnt = cnt; timer_rv = rv; handler = some h; cookie = 0 }

-- Two timers, of which the first is due at the next tick.
abbrev cells : Heap
cells p =
    if p == 8
    then some (node 16 (timer_of 0 5 1))
    else if p == 16
    then some (node 0 (timer_of 2 100 2))
    else none

abbrev two : Cells
two = (8, timer_of 0 5 1) ∷ (16, timer_of 2 100 2) ∷ []

abbrev start : State (List ℕ)
start = record { head = 8; cells = cells; current_time = 4; irq_on = true; world = [] }

start-Holds : Holds start two
start-Holds = cons (omega arith) refl refl (cons (omega arith) refl refl nil)

-- A handler notes its number.
abbrev note : ℕ → ℕ → ℕ → List ℕ → List ℕ
note h c now w = h ∷ w

abbrev call : ℕ → ℕ → State (List ℕ) → State (List ℕ)
call h c m = record m { world = note h c m.current_time m.world }

progtimer_handler_bottom-restarts_example :
    let now = (start.current_time + 1) % 2 ^ 64 in
    (m' : State (List ℕ)) × (progtimer_handler_bottom call 3 start ≡ ok m')
    × Holds m' (restart_all note now two)
    × (m'.world ≡ run_all note now two start.world)
    × (m'.current_time ≡ now)
progtimer_handler_bottom-restarts_example =
    progtimer_handler_bottom-restarts note call (λ h c m. refl) 3 two start start-Holds
      (omega arith)

progtimer_setclock-reset_to_example :
    (m' : State (List ℕ)) × (progtimer_setclock 3 1000 start ≡ ok m')
    × (m'.current_time ≡ 1000 / period_ms)
    × Holds m' (reset_to (1000 / period_ms) two)
    × (m'.world ≡ start.world)
progtimer_setclock-reset_to_example =
    progtimer_setclock-reset_to 3 1000 two start start-Holds (omega arith)

progtimer_free-erase_example : Freed start 16 two (progtimer_free 2 16 start)
progtimer_free-erase_example = progtimer_free-erase start 16 2 two start-Holds refl (omega arith)

-- The clock stands at 4, and the delay is 3 ticks.
progtimer_delay-EndsAt_example :
    EndsAt (4 + 3) (4 ∷ 5 ∷ 6 ∷ 7 ∷ 8 ∷ []) (progtimer_delay (4 ∷ 5 ∷ 6 ∷ 7 ∷ 8 ∷ []) 3 start)
progtimer_delay-EndsAt_example =
    progtimer_delay-EndsAt start 3 (4 ∷ 5 ∷ 6 ∷ 7 ∷ []) 8 []
      (omega arith, (omega arith, (omega arith, (omega arith, (omega arith, tt))))) (omega arith)
