-- ===== src/Irq/Install.antt =====
-- `interrupts_init` of application/libhw/irq.c through the system call of
-- application/gdb_stub/gdb.c, with the vectors of application/boot/boot.S.
use or1k_spartan6_platform_x.Base.{
  ℕ, ◌+◌, ◌-◌, ◌*◌, ◌^◌, ◌≡◌, ◌≢◌, ◌≤◌, ◌<◌, List, [], length, get_or, set, refl, arith, ◌∙◌, ap,
  get_or-set_self, get_or-set_ne, length-set, u32, ◌==◌, if◌then◌else◌,
}
use or1k_spartan6_platform_x.Irq.{Machine, Lines, no_lines, default_isr, is_count}
use or1k_spartan6_platform_x.Irq.Dispatch.{Quiet, AllLines, walk, default_isr-walk}
use or1k_spartan6_platform_x.Gdb.Stub.{Stub, reg_arg0, reg_pc}
use or1k_spartan6_platform_x.Gdb.Session.{
  Talk, returned, gdb_syscall, interrupt_handler, sys_num, new_irq_handler,
}

module _ {W : Type 0} where
  -- The registers of the interrupted code as `asm_save_context` stores them.
  abbrev pub save_context : List ℕ → Stub W → Stub W
  save_context context m = record m { registers = context }

  module _ (code : ℕ → Stub W → Stub W) where
    -- `vector_syscall` and `vector_extint`.
    abbrev pub vector_syscall : List ℕ → List ℕ → Stub W → Talk W
    vector_syscall context input m = gdb_syscall code input (save_context context m)

    abbrev pub vector_extint : List ℕ → Stub W → Stub W
    vector_extint context m = interrupt_handler code (save_context context m)

    -- `install_irq_global_handler` where the other registers are `context` and `next` is the address
    -- behind its `l.sys 5`. The result is register 3 of the state that it returns with.
    unfoldable pub install_irq_global_handler : List ℕ → ℕ → ℕ → List ℕ → Stub W → Talk W
    install_irq_global_handler context next handler input m =
        vector_syscall (set (set context reg_arg0 handler) reg_pc next) input m

module _ {W : Type 0} (code : ℕ → Stub W → Stub W) where
  -- The number is in the instruction before the saved PC.
  sys_num-before :
      (next : ℕ) (m : Stub W)
      → get_or m.registers reg_pc 0 ≡ next
      → 4 ≤ next
      → next < 2 ^ 32
      → sys_num m ≡ m.memory (next - 2) * 256 + m.memory (next - 1)
  sys_num-before next m pc low high =
      let a : u32 (u32 (get_or m.registers reg_pc 0 + 2 ^ 32 - 4) + 2) ≡ next - 2 =
        omega (arith, pc) in
      let b : u32 (u32 (get_or m.registers reg_pc 0 + 2 ^ 32 - 4) + 3) ≡ next - 1 =
        omega (arith, pc) in
      rw (a, b) refl

  gdb_syscall-new_irq_handler :
      (input : List ℕ) (m : Stub W)
      → sys_num m ≡ 5
      → gdb_syscall code input m ≡ returned (new_irq_handler m) [] input
  unfolding gdb_syscall
  gdb_syscall-new_irq_handler input m e = rw e refl

  -- The handler becomes the interrupt handler, and register 3 gets the system call handler.
  install_irq_global_handler-returned :
      (context : List ℕ) (next handler : ℕ) (input : List ℕ) (m : Stub W)
      → reg_pc < length context
      → 4 ≤ next
      → next < 2 ^ 32
      → m.memory (next - 2) * 256 + m.memory (next - 1) ≡ 5
      → (t : Stub W) × (install_irq_global_handler code context next handler input m
          ≡ returned t [] input)
        × (t ≡ record m { registers = t.registers; irq_handler = handler })
        × (get_or t.registers reg_arg0 0 ≡ m.syscall_handler)
  unfolding install_irq_global_handler
  install_irq_global_handler-returned context next handler input m room low high five =
      let called = set context reg_arg0 handler in
      let saved = set called reg_pc next in
      let m1 = save_context saved m in
      let long : reg_pc < length called = omega (arith, length-set context reg_arg0 handler) in
      let pc : get_or saved reg_pc 0 ≡ next = get_or-set_self called reg_pc next 0 long in
      let arg : get_or saved reg_arg0 0 ≡ handler =
        get_or-set_ne called reg_pc reg_arg0 next 0 (λ e. absurd (omega arith))
        ∙ get_or-set_self context reg_arg0 handler 0 (omega arith) in
      (
        new_irq_handler m1,
        gdb_syscall-new_irq_handler input m1 (sys_num-before next m1 pc low high ∙ five),
        ap (λ h. record (new_irq_handler m1) { irq_handler = h }) arg,
        get_or-set_self saved reg_arg0 m.syscall_handler 0
            (omega (arith, long, length-set called reg_pc next)),
      )

-- What the addresses of the program's handlers stand for: `default_ISR` has the address `entry`.
-- The handlers of sources act on the machine and leave the saved registers alone. `arrive` are the
-- lines that devices raise meanwhile.
module _ {V : Type 0} (isr : ℕ → Machine V → Machine V)
    (others : ℕ → Stub (Machine V) → Stub (Machine V)) (entry : ℕ) where
  abbrev pub code : (ℕ → Lines) → ℕ → Stub (Machine V) → Stub (Machine V)
  code arrive a m =
      if a == entry then record m { world = default_isr isr arrive m.world } else others a m

  unfoldable pub interrupts_init :
      (ℕ → Lines) → List ℕ → ℕ → List ℕ → Stub (Machine V) → Talk (Machine V)
  interrupts_init arrive context next input m =
      install_irq_global_handler (code arrive) context next entry input m

  -- An external interrupt calls default_ISR where it is the interrupt handler.
  vector_extint-default_isr :
      (arrive : ℕ → Lines) (context : List ℕ) (m : Stub (Machine V))
      → entry ≢ 0
      → m.irq_handler ≡ entry
      → vector_extint (code arrive) context m
        ≡ record m { registers = context; world = default_isr isr arrive m.world }
  vector_extint-default_isr arrive context m own e = ground (arith)

  -- Behind interrupts_init an external interrupt calls the handlers of the pending enabled sources in
  -- the table's order, acknowledges each source behind its handler and leaves the interrupted code's
  -- registers alone, whatever lines came in during the call. The call itself changes no variable but
  -- the interrupt handler, takes no input, and returns the system call handler: its instruction is
  -- `l.sys 5`, the address of default_ISR is not 0, the handlers leave the dispatcher's state alone,
  -- the table has its length and sources that are lines of a register, and no line comes in during
  -- the interrupt.
  pub vector_extint-interrupts_init :
      (arrive : ℕ → Lines) (context context' : List ℕ) (next : ℕ) (input : List ℕ)
      (m : Stub (Machine V))
      → entry ≢ 0
      → reg_pc < length context
      → 4 ≤ next
      → next < 2 ^ 32
      → m.memory (next - 2) * 256 + m.memory (next - 1) ≡ 5
      → Quiet isr
      → length m.world.table ≡ is_count
      → AllLines m.world.table
      → (t : Stub (Machine V)) × (interrupts_init arrive context next input m ≡ returned t [] input)
        × (t ≡ record m { registers = t.registers; irq_handler = entry })
        × (get_or t.registers reg_arg0 0 ≡ m.syscall_handler)
        × (vector_extint (code (λ i. no_lines)) context' t
            ≡ record t { registers = context'; world = walk isr m.world.table m.world })
  unfolding interrupts_init
  vector_extint-interrupts_init arrive context context' next input m own room low high five quiet
        size lines =
      let (t, run, same, result) =
        install_irq_global_handler-returned (code arrive) context next entry input m room low high
          five in
      (
        t,
        run,
        same,
        result,
        vector_extint-default_isr (λ i. no_lines) context' t own (ap (λ x. x.irq_handler) same)
            ∙ ap (λ w. record t { registers = context'; world = w })
                (ap (λ x. default_isr isr (λ i. no_lines) x.world) same
                  ∙ default_isr-walk isr quiet m.world size lines),
      )
