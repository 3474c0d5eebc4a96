-- ===== src/ProgTimer/Delay.antt =====
-- `progtimer_delay` of application/libhw/prog_timer.c: a wait for the tick. The times that its loop
-- reads, while the tick interrupt counts on, are a list.
use or1k_spartan6_platform_x.Base.{
  ℕ, ◌+◌, ◌<◌, ◌≤◌, ◌≡◌, refl, ap, arith, Bool-cases, inl, inr, true, false, Option, none, some,
  List, [], ◌∷◌, ◌++◌, ltb, if◌then◌else◌,
}
use or1k_spartan6_platform_x.ProgTimer.{State, progtimer_get_interval}

unfoldable pub delay_loop : List ℕ → ℕ → ℕ → Option (List ℕ)
delay_loop [] start delay_ticks = none
delay_loop (t ∷ reads) start delay_ticks =
    let rest = delay_loop reads start delay_ticks in
    if ltb (progtimer_get_interval start t) delay_ticks then rest else some reads

-- What is left of the times when the wait is over.
unfoldable pub progtimer_delay : {W : Type 0} → List ℕ → ℕ → State W → Option (List ℕ)
progtimer_delay reads delay_ticks m = delay_loop reads m.current_time delay_ticks

abbrev pub AllFrom : ℕ → List ℕ → Type 0
AllFrom n [] = Unit {0}
AllFrom n (t ∷ ts) = (n ≤ t) × AllFrom n ts

abbrev pub AllBelow : ℕ → List ℕ → Type 0
AllBelow n [] = Unit {0}
AllBelow n (t ∷ ts) = (t < n) × AllBelow n ts

-- The wait is over at the first of the times that is not below `stop`.
abbrev pub EndsAt : ℕ → List ℕ → Option (List ℕ) → Type 0
EndsAt stop reads result =
    (before : List ℕ) × (t : ℕ) × (rest : List ℕ) × (result ≡ some rest)
    × (reads ≡ before ++ (t ∷ rest))
    × (stop ≤ t)
    × AllBelow stop before

delay_over :
    (start t d : ℕ) → start ≤ t → start + d ≤ t → ltb (progtimer_get_interval start t) d ≡ false
unfolding progtimer_get_interval
delay_over start t d h g = ground arith

delay_before :
    (start t d : ℕ) → start ≤ t → ltb (progtimer_get_interval start t) d ≡ true → t < start + d
unfolding progtimer_get_interval
delay_before start t d h g = ground arith

delay_after :
    (start t d : ℕ) → start ≤ t → ltb (progtimer_get_interval start t) d ≡ false → start + d ≤ t
unfolding progtimer_get_interval
delay_after start t d h g = ground arith

delay_loop-EndsAt :
    (front : List ℕ) (t : ℕ) (back : List ℕ) (start d : ℕ)
    → AllFrom start (front ++ (t ∷ back))
    → start + d ≤ t
    → EndsAt (start + d) (front ++ (t ∷ back)) (delay_loop (front ++ (t ∷ back)) start d)
unfolding delay_loop
delay_loop-EndsAt [] t back start d from late =
    ([], t, back, rw (delay_over start t d from.0 late) refl, refl, late, tt)
delay_loop-EndsAt (x ∷ front) t back start d from late =
    elim (Bool-cases (ltb (progtimer_get_interval start x) d)) [
      | inl e ↦
          let (before, last, rest, run, split, over, below) =
            delay_loop-EndsAt front t back start d from.1 late in
          (
            x ∷ before,
            last,
            rest,
            rw (e) run,
            ap (λ l. x ∷ l) split,
            over,
            (delay_before start x d from.0 e, below),
          )
      | inr e ↦ ([], x, front ++ (t ∷ back), rw (e) refl, refl, delay_after start x d from.0 e, tt)
    ]

-- The wait ends once the tick goes on: it ends at the first of the times it reads that lies the delay
-- behind the time of the call, if some time does and the clock is not set back or wraps meanwhile.
pub progtimer_delay-EndsAt :
    {W : Type 0}
    → (m : State W) (delay_ticks : ℕ) (front : List ℕ) (t : ℕ) (back : List ℕ)
    → AllFrom m.current_time (front ++ (t ∷ back))
    → m.current_time + delay_ticks ≤ t
    → EndsAt
        (m.current_time + delay_ticks)
        (front ++ (t ∷ back))
        (progtimer_delay (front ++ (t ∷ back)) delay_ticks m)
unfolding progtimer_delay
progtimer_delay-EndsAt m delay_ticks front t back from late =
    delay_loop-EndsAt front t back m.current_time delay_ticks from late
