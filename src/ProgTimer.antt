-- ===== src/ProgTimer.antt =====
-- application/libhw/prog_timer.c: software timers in a linked list, driven by the system tick.
-- The list lives on an explicit heap, and `malloc_sys` and `free_sys` come from outside.
pub mod Interval
pub mod Chain
pub mod Tick
pub mod Creation
pub mod Lifecycle
pub mod Reset
pub mod Delay
use or1k_spartan6_platform_x.Base.{
  ℕ, zero, suc, ◌+◌, ◌-◌, ◌*◌, ◌/◌, ◌%◌, ◌^◌, Bool, true, false, Option, none, some, leb, ◌==◌,
  if◌then◌else◌,
}

abbrev pub Ptr : Type 0
Ptr = ℕ

-- `struct sProgtimer` without its link. A handler is named by a number, and `none` is `NULL`.
pub record Timer : Type 0 where
  pub timer_cnt : ℕ
  pub timer_rv : ℕ
  pub handler : Option ℕ
  pub cookie : ℕ

pub record Node : Type 0 where
  pub next : Ptr
  pub timer : Timer

abbrev pub node : Ptr → Timer → Node
node n t = record { next = n; timer = t }

abbrev pub Heap : Type 0
Heap = Ptr → Option Node

unfoldable pub write : Heap → Ptr → Option Node → Heap
write h p c a = if a == p then c else h a

-- The module's variables, its heap, whether the tick interrupt is installed and enabled, and the rest of the
-- machine.
pub record State (W : Type 0) : Type 0 where
  pub head : Ptr
  pub cells : Heap
  pub current_time : ℕ
  pub irq_on : Bool
  pub world : W

-- A run ends, reads through a pointer that holds no timer, or uses up its fuel.
pub data Run (A : Type 0) : Type 0 where
  ok : A → Run A
  fault : Run A
  no_fuel : Run A

abbrev pub finished : {A : Type 0} → A → Run A
finished a = ok a

abbrev pub and_then : {A B : Type 0} → Run A → (A → Run B) → Run B
and_then (ok a) k = k a
and_then fault k = fault
and_then no_fuel k = no_fuel

-- `progtimer_time_t` is 64 bits wide, so the constants are converted to 64 bits.
abbrev pub u64 : ℕ → ℕ
u64 n = n % 2 ^ 64

unfoldable pub progtimer_get_interval : ℕ → ℕ → ℕ
progtimer_get_interval start end =
    if leb start end then end - start else u64 (0xffffffff + 2 ^ 64 - start + end + 1)

abbrev pub period_ms : ℕ
period_ms = 1

abbrev pub ticks_in_sec : ℕ
ticks_in_sec = 1000 / period_ms

unfoldable pub progtimer_ms2ticks : ℕ → ℕ
progtimer_ms2ticks time_ms = time_ms / period_ms

module _ {W : Type 0} where
  -- `*p`.
  abbrev pub load : {A : Type 0} → State W → Ptr → (Node → Run A) → Run A
  load m p k = if p == 0 then fault else elim (m.cells p) [ none ↦ fault | some n ↦ k n ]

  abbrev pub store : Ptr → Node → State W → State W
  store p n m = record m { cells = write m.cells p (some n) }

  -- `free_sys(p)`.
  abbrev pub release : Ptr → State W → State W
  release p m = record m { cells = write m.cells p none }

  unfoldable pub progtimer_ticks_inc : State W → State W
  progtimer_ticks_inc m = record m { current_time = u64 (m.current_time + 1) }

  unfoldable pub progtimer_get_ticks : State W → ℕ
  progtimer_get_ticks m = m.current_time

  unfoldable pub progtimer_get_seconds : State W → ℕ
  progtimer_get_seconds m = m.current_time / ticks_in_sec

  unfoldable pub progtimer_get_ms : State W → ℕ
  progtimer_get_ms m = u64 (m.current_time * period_ms)

  -- `call h c` is the call of handler `h` with cookie `c`, which may change everything.
  module _ (call : ℕ → ℕ → State W → State W) where
    abbrev pub call_handler : Timer → State W → State W
    call_handler t m = elim t.handler [ none ↦ m | some h ↦ call h t.cookie m ]

    abbrev pub due : State W → Timer → Bool
    due m t = leb t.timer_rv (progtimer_get_interval t.timer_cnt m.current_time)

    -- The body of the walk over the timers at the timer `n` at `p`.
    unfoldable pub visit : Ptr → Node → State W → State W
    visit p n m =
        if due m n.timer
        then (let now : Timer = record (n.timer) { timer_cnt = m.current_time } in
            call_handler now (store p (node n.next now) m))
        else m

    -- `timer = timer->next` is read behind the handler.
    unfoldable pub tick_loop : ℕ → Ptr → State W → Run (State W)
    tick_loop zero p m = no_fuel
    tick_loop (suc fuel) p m = elim (p == 0) [
      | true ↦ ok m
      | false ↦ load m p λ n. let m' = visit p n m in load m' p λ n'. tick_loop fuel n'.next m'
    ]

    unfoldable pub progtimer_handler_bottom : ℕ → State W → Run (State W)
    progtimer_handler_bottom fuel m = let m' = progtimer_ticks_inc m in tick_loop fuel m'.head m'

  unfoldable pub progtimer_init : State W → State W
  progtimer_init m = record m { current_time = 0; irq_on = true }

  unfoldable pub release_loop : ℕ → State W → Run (State W)
  release_loop zero m = no_fuel
  release_loop (suc fuel) m = elim (m.head == 0) [
    | true ↦ ok m
    | false ↦ load m m.head λ n. release_loop fuel (record (release m.head m) { head = n.next })
  ]

  unfoldable pub progtimer_release : ℕ → State W → Run (State W)
  progtimer_release fuel m = release_loop fuel (record m { irq_on = false })

  -- `malloc m` is the address that `malloc_sys` gives, 0 for `NULL`, and `junk` what the memory
  -- holds: `timer_cnt` is not assigned.
  unfoldable pub progtimer_new :
      (State W → Ptr) → Timer → ℕ → Option ℕ → ℕ → State W → Ptr × State W
  progtimer_new malloc junk period_ticks none cookie m = (0, m)
  progtimer_new malloc junk period_ticks (some h) cookie m =
      let p = malloc m in
      if period_ticks == 0 then (0, m) else if p == 0 then (0, m) else (
        p,
        record (store p
            (node m.head
              (record junk { timer_rv = period_ticks; handler = some h; cookie = cookie }))
            m) { head = p },
      )

  -- The search for the timer before `tl`, from `p`.
  unfoldable pub find_before : ℕ → Ptr → Ptr → State W → Run Ptr
  find_before zero tl p m = no_fuel
  find_before (suc fuel) tl p m =
      load m p λ n. elim (n.next == tl) [ true ↦ ok p | false ↦ find_before fuel tl n.next m ]

  unfoldable pub unlink : ℕ → Ptr → State W → Run (State W)
  unlink fuel tl m =
      if tl == m.head
      then load m m.head (λ n. ok (record m { head = n.next }))
      else and_then (find_before fuel tl m.head m)
          (λ p. load m tl λ n. load m p λ b. ok (store p (node n.next b.timer) m))

  unfoldable pub progtimer_free : ℕ → Ptr → State W → Run (State W)
  progtimer_free fuel tl m =
      if tl == 0 then ok m else and_then (unlink fuel tl m) (λ m'. ok (release tl m'))

  unfoldable pub reset_loop : ℕ → Ptr → State W → Run (State W)
  reset_loop zero p m = no_fuel
  reset_loop (suc fuel) p m = elim (p == 0) [
    | true ↦ ok m
    | false ↦ load m p λ n.
        reset_loop fuel n.next
          (store p (node n.next (record (n.timer) { timer_cnt = m.current_time })) m)
  ]

  unfoldable pub progtimer_reset_all : ℕ → State W → Run (State W)
  progtimer_reset_all fuel m = reset_loop fuel m.head m

  -- The critical section keeps the tick out: the model's handler runs between calls only.
  unfoldable pub progtimer_setclock : ℕ → ℕ → State W → Run (State W)
  progtimer_setclock fuel time_ms m =
      progtimer_reset_all fuel (record m { current_time = time_ms / period_ms })

  unfoldable pub progtimer_set_timer_interval : Ptr → ℕ → State W → Run (State W)
  progtimer_set_timer_interval p interval m =
      load m p λ n. ok (store p (node n.next (record (n.timer) { timer_rv = interval })) m)

  unfoldable pub progtimer_set_timer_counter : Ptr → ℕ → State W → Run (State W)
  progtimer_set_timer_counter p pos m =
      load m p λ n. ok (store p (node n.next (record (n.timer) { timer_cnt = pos })) m)

  unfoldable pub progtimer_get_timer_counter : Ptr → State W → Run ℕ
  progtimer_get_timer_counter p m =
      load m p λ n. ok (progtimer_get_interval m.current_time n.timer.timer_cnt)

  unfoldable pub progtimer_get_timer_interval : Ptr → State W → Run ℕ
  progtimer_get_timer_interval p m = load m p λ n. ok n.timer.timer_rv
