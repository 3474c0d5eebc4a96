-- ===== src/Irq.antt =====
-- application/libhw/irq.c: the interrupt dispatcher, its table of handlers in order of priority,
-- and the nesting of critical sections. A register of the interrupt controller
-- (hdl/soc/intr_periph.v) has a bit for each line, and is modelled by the set of its lines.
pub mod Dispatch
pub mod Critical
pub mod Handlers
pub mod Install
pub mod Priority
use mathlib.Core.Option
use or1k_spartan6_platform_x.Base.{
  ℕ, zero, suc, ◌+◌, ◌-◌, ◌≤◌, List, [], ◌∷◌, ◌++◌, Option, none, some, Bool, true, false, ◌&&◌,
  ◌||◌, not, u32, ltb, leb, ◌==◌, if◌then◌else◌, get_or, set, take, drop, length,
}

-- The lines of a 32-bit register of the controller.
abbrev pub Lines : Type 0
Lines = ℕ → Bool

abbrev pub no_lines : Lines
no_lines line = false

abbrev pub raise : Lines → ℕ → Lines
raise l n line = if line == n then true else l line

abbrev pub lower : Lines → ℕ → Lines
lower l n line = if line == n then false else l line

-- Whether a word is 0.
unfoldable pub is_zero : ℕ → Lines → Bool
is_zero zero l = true
is_zero (suc n) l = not (l n) && is_zero n l

-- `struct src_handler`. A handler is named by a number, and `none` is `NULL`.
pub record SrcHandler : Type 0 where
  pub src : ℕ
  pub isr : Option ℕ

abbrev pub is_count : ℕ
is_count = 11

abbrev pub slot : ℕ → SrcHandler
slot n = record { src = n; isr = none }

-- `ISRs`. The table is longer than its initialiser, and its last three entries are zeroed.
abbrev pub isrs : List SrcHandler
isrs =
    slot 2
    ∷ slot 1
    ∷ slot 0
    ∷ slot 3
    ∷ slot 4
    ∷ slot 5
    ∷ slot 9
    ∷ slot 10
    ∷ slot 0
    ∷ slot 0
    ∷ slot 0
    ∷ []

-- The module's variables, the controller's registers, the interrupt enable bit of the processor's
-- status register, and the rest of the machine.
pub record Machine (W : Type 0) : Type 0 where
  pub table : List SrcHandler
  pub irq_disable_counter : ℕ
  pub gie : Bool
  pub mask : Lines
  pub status : Lines
  pub world : W

-- The position of the first entry for a source, at which `set_irq_handler` stops.
unfoldable pub find_first : ℕ → List SrcHandler → Option ℕ
find_first src [] = none
find_first src (d ∷ ds) = if d.src == src then some 0 else Option.map suc (find_first src ds)

-- The position of the last entry for a source, which the search of `setInterruptPriority` leaves.
unfoldable pub find_last : ℕ → List SrcHandler → Option ℕ
find_last src [] = none
find_last src (d ∷ ds) = elim (find_last src ds) [
  | some i ↦ some (suc i)
  | none ↦ if d.src == src then some 0 else none
]

-- `memmove(&xs[dst], &xs[from], n)`, `none` where it leaves the array.
unfoldable pub memmove : List SrcHandler → ℕ → ℕ → ℕ → Option (List SrcHandler)
memmove xs dst from n =
    if leb (dst + n) (length xs) && leb (from + n) (length xs)
    then some (take dst xs ++ (take n (drop from xs) ++ drop (dst + n) xs))
    else none

-- The shift of `setInterruptPriority` from position `cur` to `prio`, which are different.
unfoldable pub shift_fragment : List SrcHandler → ℕ → ℕ → Option (List SrcHandler)
shift_fragment xs cur prio =
    if ltb prio cur
    then memmove xs cur (cur + 1) (cur - prio)
    else memmove xs (prio + 1) prio (prio - cur)

module _ {W : Type 0} where
  unfoldable pub irq_enable : ℕ → Machine W → Machine W
  irq_enable n m = record m { mask = raise m.mask n }

  unfoldable pub irq_disable : ℕ → Machine W → Machine W
  irq_disable n m = record m { mask = lower m.mask n }

  unfoldable pub irq_acknowledge : ℕ → Machine W → Machine W
  irq_acknowledge n m = record m { status = lower m.status n }

  unfoldable pub irq_check : ℕ → Machine W → Bool
  irq_check n m = m.status n

  -- `__or1k_disable_interrupts` and `__or1k_enable_interrupts`.
  unfoldable pub enter_critical : Machine W → Machine W
  enter_critical m = record m { irq_disable_counter = u32 (m.irq_disable_counter + 1); gie = false }

  unfoldable pub exit_critical : Machine W → Machine W
  exit_critical m =
      if m.irq_disable_counter == 0
      then record m { gie = true }
      else if m.irq_disable_counter == 1
      then record m { irq_disable_counter = 0; gie = true }
      else record m { irq_disable_counter = m.irq_disable_counter - 1 }

  -- Devices raise lines.
  unfoldable pub raise_lines : Lines → Machine W → Machine W
  raise_lines l m = record m { status = λ line. m.status line || l line }

  abbrev pub entry : Machine W → ℕ → SrcHandler
  entry m i = get_or m.table i (slot 0)

  -- `call h` is the call of handler `h`, which may change everything.
  module _ (call : ℕ → Machine W → Machine W) where
    abbrev pub call_isr : Option ℕ → Machine W → Machine W
    call_isr none m = m
    call_isr (some h) m = call h m

    -- A round that found its source pending. The entry is read again after the handler, and the
    -- flags are those from before it.
    unfoldable pub serve : ℕ → Machine W → Machine W
    serve i m = let m' = call_isr (entry m i).isr m in irq_acknowledge (entry m' i).src m'

    unfoldable pub flags_left : ℕ → Machine W → Lines
    flags_left i m =
        let m' = call_isr (entry m i).isr m in
        lower (λ line. m.status line && m.mask line) (entry m' i).src

    -- The loop of `default_ISR` at index `i`, with `left` rounds to go. `arrive i` are the lines
    -- that devices raise before round `i` reads the status.
    unfoldable pub isr_loop : (ℕ → Lines) → ℕ → ℕ → Machine W → Machine W
    isr_loop arrive zero i m = m
    isr_loop arrive (suc left) i m =
        let now = raise_lines (arrive i) m in
        let next = isr_loop arrive left (i + 1) (serve i now) in
        let skip = isr_loop arrive left (i + 1) now in
        if now.status (entry now i).src && now.mask (entry now i).src
        then (if is_zero 32 (flags_left i now) then serve i now else next)
        else skip

    unfoldable pub default_isr : (ℕ → Lines) → Machine W → Machine W
    default_isr arrive m = isr_loop arrive is_count 0 m

  unfoldable pub set_irq_handler : ℕ → Option ℕ → Machine W → Option ℕ × Machine W
  set_irq_handler src handler m = elim (find_first src m.table) [
    | none ↦ (none, m)
    | some i ↦
        let m' = enter_critical m in
        let m'' = record m' { table = set m'.table i (record (entry m i) { isr = handler }) } in
        ((entry m i).isr, exit_critical m'')
  ]

  -- `none` is a `memmove` out of the bounds of the table.
  unfoldable pub set_interrupt_priority : ℕ → ℕ → Machine W → Option (Machine W)
  set_interrupt_priority src new_prio m =
      if leb is_count new_prio then some m else elim (find_last src m.table) [
        | none ↦ some m
        | some cur ↦
            if cur == new_prio then some m else elim (shift_fragment m.table cur new_prio) [
              | none ↦ none
              | some xs ↦
                  let moved : SrcHandler = record { src = src; isr = (entry m cur).isr } in
                  let m' = enter_critical m in
                  some (exit_critical (record m' { table = set xs new_prio moved }))
            ]
      ]
