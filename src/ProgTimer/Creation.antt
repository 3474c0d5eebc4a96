-- ===== src/ProgTimer/Creation.antt =====
-- Creating timers: `progtimer_new` of application/libhw/prog_timer.c.

use or1k_spartan6_platform_x.Base.{ℕ, ◌≡◌, ◌≢◌, refl, arith, Option, none, some, ◌∷◌, ◌⊎◌}
use or1k_spartan6_platform_x.ProgTimer.{Ptr, Timer, State, progtimer_new}
use or1k_spartan6_platform_x.ProgTimer.Chain.{
  Cells, cons, frame-write, write_self, ne_null, Holds, not_has,
}

-- A refused request, with period 0, without a handler or with the memory used up, gives `NULL` and
-- changes nothing.
pub progtimer_new-refused :
    {W : Type 0} (malloc : State W → Ptr) (junk : Timer) (period : ℕ) (handler : Option ℕ)
    (cookie : ℕ) (m : State W)
    → (period ≡ 0) ⊎ (handler ≡ none) ⊎ (malloc m ≡ 0)
    → progtimer_new malloc junk period handler cookie m ≡ (0, m)
unfolding progtimer_new
progtimer_new-refused malloc junk period none cookie m h = refl
progtimer_new-refused malloc junk period (some f) cookie m h = ground arith

-- A granted request with memory that holds no timer gives that memory, puts the timer at the front
-- of the list, with its period, handler and cookie, and leaves in its counter what the memory held.
pub progtimer_new-Holds :
    {W : Type 0} (malloc : State W → Ptr) (junk : Timer) (period h cookie : ℕ) (ts : Cells)
    (m : State W)
    → Holds m ts
    → period ≢ 0
    → malloc m ≢ 0
    → m.cells (malloc m) ≡ none
    → let (p, m') = progtimer_new malloc junk period (some h) cookie m in
      (p ≡ malloc m)
      × Holds m' (
          (
            malloc m,
            record {
              timer_cnt = junk.timer_cnt;
              timer_rv = period;
              handler = some h;
              cookie = cookie;
            },
          )
          ∷ ts)
unfolding progtimer_new
progtimer_new-Holds malloc junk period h cookie ts m c np nm fresh =
    rw (ne_null period np, ne_null (malloc m) nm)
      (
        refl,
        cons nm (write_self m.cells (malloc m) _) (not_has (malloc m) c fresh)
            (frame-write (malloc m) _ c (not_has (malloc m) c fresh)),
      )
