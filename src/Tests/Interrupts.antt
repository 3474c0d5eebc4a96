-- ===== src/Tests/Interrupts.antt =====
-- The interrupt dispatcher on concrete tables.
use mathlib.Core.Option
use or1k_spartan6_platform_x.Base.{
  ℕ, ◌≡◌, ◌==◌, some, refl, false, replicate, if◌then◌else◌, arith, get_or, true, ◌||◌, List, [],
  ◌∷◌,
}
use or1k_spartan6_platform_x.Irq.{
  Machine, no_lines, find_first, find_last, slot, default_isr, enter_critical, set_irq_handler,
  set_interrupt_priority, set_irq_handler,
}
use or1k_spartan6_platform_x.Gdb.Stub.{Stub}
use or1k_spartan6_platform_x.Gdb.Session.{returned}
use or1k_spartan6_platform_x.Irq.Install.{
  vector_extint, code, interrupts_init, vector_extint-interrupts_init,
}
use or1k_spartan6_platform_x.Irq.Critical.{IsNested, enter_critical-IsNested}
use or1k_spartan6_platform_x.Irq.Dispatch.{walk, default_isr-walk}
use or1k_spartan6_platform_x.Irq.Handlers.{IsSwap, set_irq_handler-handler_of}
use or1k_spartan6_platform_x.Irq.Priority.{Without, set_interrupt_priority-loses}

-- A handler adds its number to a list.
abbrev log : ℕ → Machine (List ℕ) → Machine (List ℕ)
log h m = record m { world = h ∷ m.world }

-- The lines 1 and 4 are pending, and all are enabled. Line 1 has a handler.
abbrev busy : Machine (List ℕ)
busy = record {
  table =
      slot 2
      ∷ record { src = 1; isr = some 7 }
      ∷ slot 0
      ∷ slot 3
      ∷ slot 4
      ∷ slot 5
      ∷ slot 9
      ∷ slot 10
      ∷ slot 0
      ∷ slot 0
      ∷ slot 0
      ∷ [];
  irq_disable_counter = 0;
  gie = true;
  mask = λ line. true;
  status = λ line. (line == 1) || (line == 4);
  world = [];
}

found_line :
    Option.map (λ i. (get_or busy.table i (slot 0)).isr) (find_first 1 busy.table) ≡ some (some 7)
unfolding find_first
found_line = refl

found_i2c : find_last 5 busy.table ≡ some 5
unfolding find_last
found_i2c = refl

-- The stub before the dispatcher is installed, with `l.sys 5` at address 96.
abbrev stub : Stub (Machine (List ℕ))
stub = record {
  registers = [];
  memory = λ a. if a == 96 then 32 else if a == 99 then 5 else 0;
  inbuffer = [];
  initial_trap = false;
  syscall_handler = 64;
  irq_handler = 0;
  flush_caches = false;
  flushes = 0;
  world = busy;
}

-- The registers of the code that installs the dispatcher, and of the code that is interrupted.
abbrev starting : List ℕ
starting = replicate 35 1

abbrev running : List ℕ
running = replicate 35 2

vector_extint-interrupts_init_example :
    (t : Stub (Machine (List ℕ))) × (interrupts_init log
        (λ a m. m)
        4096
        (λ i. no_lines)
        starting
        100
        []
        stub
      ≡ returned t [] [])
    × (t ≡ record stub { registers = t.registers; irq_handler = 4096 })
    × (get_or t.registers 3 0 ≡ 64)
    × (vector_extint (code log (λ a m. m) 4096 (λ i. no_lines)) running t
        ≡ record t { registers = running; world = walk log busy.table busy })
vector_extint-interrupts_init_example =
    vector_extint-interrupts_init log (λ a m. m) 4096 (λ i. no_lines) starting running 100 [] stub
      (omega arith) (omega arith) (omega arith) (omega arith) refl (λ h m. (refl, refl, refl)) refl
      (ground arith)

default_isr-walk_example : default_isr log (λ i. no_lines) busy ≡ walk log busy.table busy
default_isr-walk_example = default_isr-walk log (λ h m. (refl, refl, refl)) busy refl (ground arith)

set_irq_handler-handler_of_example :
    IsSwap 1 (some 8) busy (some 7) (set_irq_handler 1 (some 8) busy)
set_irq_handler-handler_of_example =
    set_irq_handler-handler_of 1 (some 8) busy (some 7) found_line ((λ e. refl), (λ e. refl))
      (omega arith)

enter_critical-IsNested_example : IsNested (enter_critical busy)
enter_critical-IsNested_example = enter_critical-IsNested busy (omega arith)

set_interrupt_priority-loses_example :
    (m' : Machine (List ℕ)) × (set_interrupt_priority 5 4 busy ≡ some m') × Without 4 m'.table
set_interrupt_priority-loses_example =
    set_interrupt_priority-loses 5 5 4 4 busy refl found_i2c (omega arith) (omega arith)
      (ground arith) (ground arith) (omega arith)
