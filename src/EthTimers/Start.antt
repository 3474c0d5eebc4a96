-- ===== src/EthTimers/Start.antt =====
-- The start of the timers of application/ibexukIP/timers.c, and what the stack's variables are then.
use or1k_spartan6_platform_x.Base.{ℕ, ◌^◌, ◌<◌, ◌≡◌, ◌≢◌, subst, ◌∙◌, arith, none, [], ◌∷◌}
use or1k_spartan6_platform_x.ProgTimer.{Ptr, Timer, State, ok, progtimer_new}
use or1k_spartan6_platform_x.ProgTimer.Chain.{Cells, Holds}
use or1k_spartan6_platform_x.ProgTimer.Creation.{progtimer_new-Holds}
use or1k_spartan6_platform_x.EthTimers.{Clocks, new_timer, init_eth_timers}
use or1k_spartan6_platform_x.EthTimers.Elapsed.{ticks, timer, elapsed, ticks-AtTime}

new_timer-kept :
    (malloc : State Clocks → Ptr) (junk : Ptr → Timer) (period h : ℕ) (m : State Clocks)
    → ((new_timer malloc junk period h m).current_time ≡ m.current_time)
      × ((new_timer malloc junk period h m).world ≡ m.world)
unfolding progtimer_new
new_timer-kept malloc junk period h m = ground arith

-- The allocator grants memory that holds no timer and whose first word is 0.
abbrev pub Grants : (State Clocks → Ptr) → (Ptr → Timer) → State Clocks → Type 0
Grants malloc junk m =
    (malloc m ≢ 0) × (m.cells (malloc m) ≡ none) × ((junk (malloc m)).timer_cnt ≡ 0)

new_timer-Holds :
    (malloc : State Clocks → Ptr) (junk : Ptr → Timer) (period h : ℕ) (ts : Cells)
    (m : State Clocks)
    → Holds m ts
    → period ≢ 0
    → Grants malloc junk m
    → Holds (new_timer malloc junk period h m) ((malloc m, timer 0 period h) ∷ ts)
new_timer-Holds malloc junk period h ts m holds pos (ne, free, clean) =
    subst (λ c. Holds (new_timer malloc junk period h m) ((malloc m, timer c period h) ∷ ts)) clean
      (progtimer_new-Holds malloc (junk (malloc m)) period h 0 ts m holds pos ne free).1

elapsed_none : (link : ℕ → ℕ) (w : Clocks) → w.clock_10ms < 256 → w ≡ elapsed link 0 w
elapsed_none link w h = ground arith

module _ (link : ℕ → ℕ) (malloc : State Clocks → Ptr) (junk : Ptr → Timer) where
  -- So many ticks behind init_eth_timers, the counters have gone down to what is left of them, by one
  -- in a millisecond or in a second, the stack's clock counts tens of milliseconds modulo 256, and the
  -- link is as it was at the last full second: the list of timers is empty before, the time is 0, the
  -- allocator grants zeroed memory three times, a tick has fuel for three timers, and the time does
  -- not reach 2^64.
  pub init_eth_timers-elapsed :
      (n fuel : ℕ) (m : State Clocks)
      → Holds m []
      → m.current_time ≡ 0
      → m.world.clock_10ms < 256
      → Grants malloc junk m
      → Grants malloc junk (new_timer malloc junk 1 1 m)
      → Grants malloc junk (new_timer malloc junk 10 2 (new_timer malloc junk 1 1 m))
      → 3 < fuel
      → n < 2 ^ 64
      → (m' : State Clocks) × (ticks link fuel n (init_eth_timers malloc junk m) ≡ ok m')
        × (m'.world ≡ elapsed link n m.world)
        × (m'.current_time ≡ n)
  unfolding init_eth_timers
  init_eth_timers-elapsed n fuel m holds time byte g1 g2 g3 enough small =
      let m1 = new_timer malloc junk 1 1 m in
      let m2 = new_timer malloc junk 10 2 m1 in
      let h1 = new_timer-Holds malloc junk 1 1 [] m holds (λ e. absurd (omega arith)) g1 in
      let h2 =
        new_timer-Holds malloc junk 10 2 ((malloc m, timer 0 1 1) ∷ []) m1 h1
          (λ e. absurd (omega arith)) g2 in
      let h3 =
        new_timer-Holds malloc junk 1000 3
          ((malloc m1, timer 0 10 2) ∷ (malloc m, timer 0 1 1) ∷ []) m2 h2
          (λ e. absurd (omega arith)) g3 in
      let (t1, w1) = new_timer-kept malloc junk 1 1 m in
      let (t2, w2) = new_timer-kept malloc junk 10 2 m1 in
      let (t3, w3) = new_timer-kept malloc junk 1000 3 m2 in
      let (m', run, at) =
        ticks-AtTime link (malloc m) (malloc m1) (malloc m2) n fuel m.world
          (new_timer malloc junk 1000 3 m2)
          (h3, t3 ∙ t2 ∙ t1 ∙ time, w3 ∙ w2 ∙ w1 ∙ elapsed_none link m.world byte) enough small in
      (m', run, at.2, at.1)
