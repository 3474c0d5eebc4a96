-- ===== src/Gdb/Session.antt =====
-- `gdb_syscall` and `gdb_exception` of application/gdb_stub/gdb.c with what they exchange with the
-- debugger. The user's handlers are functions on the whole state, chosen by their address.
use or1k_spartan6_platform_x.Base.{
  ℕ, zero, suc, ◌+◌, ◌-◌, ◌*◌, ◌/◌, ◌^◌, false, List, [], ◌∷◌, ◌++◌, Option, none, some, u32, ◌==◌,
  if◌then◌else◌, get_or, drop,
}
use or1k_spartan6_platform_x.Gdb.{hex_char, gdb_mem2hex, gdb_send, gdb_recv}
use or1k_spartan6_platform_x.Gdb.Stub.{
  Stub, Outcome, answer, resume, overrun, command, set_sr, dbgen, with_register, bytes_of, reg_sp,
  reg_arg0, reg_pc,
}

-- How an exception ends: with the state, the characters sent and the input left; at an access
-- beyond a buffer; where the input ends and `gdb_getchar` waits for ever; in the reboot; or without
-- fuel.
pub data Talk (W : Type 0) : Type 0 where
  returned : Stub W → List ℕ → List ℕ → Talk W
  out_of_bounds : Talk W
  waiting : Talk W
  rebooted : Talk W
  no_fuel : Talk W

-- The loop of `l.sys 2`. Its counter `len` stays 0, so only the string's end stops it; `room` is
-- the number of characters that `_outbuffer` has room for.
unfoldable pub put_string : (ℕ → ℕ) → ℕ → ℕ → Option (List ℕ)
put_string memory zero str = if memory str == 0 then some [] else none
put_string memory (suc room) str =
    let rest = put_string memory room (u32 (str + 1)) in
    if memory str == 0 then some [] else elim rest [
      | none ↦ none
      | some text ↦ some (hex_char (memory str / 16) ∷ hex_char (memory str) ∷ text)
    ]

module _ {W : Type 0} where
  -- What is sent first.
  abbrev pub after : List ℕ → Talk W → Talk W
  after out (returned m sent input) = returned m (out ++ sent) input
  after out out_of_bounds = out_of_bounds
  after out waiting = waiting
  after out rebooted = rebooted
  after out no_fuel = no_fuel

  -- `gdb_send (_outbuffer)` before the rest.
  abbrev pub sending : List ℕ → List ℕ → (List ℕ → Talk W) → Talk W
  sending text input k = elim (gdb_send text input) [
    | none ↦ waiting
    | some (out, rest) ↦ after out (k rest)
  ]

  abbrev pub arg0 : Stub W → ℕ
  arg0 m = get_or m.registers reg_arg0 0

  -- The low half of the instruction before the saved PC.
  abbrev pub sys_num : Stub W → ℕ
  sys_num m =
      let a = u32 (get_or m.registers reg_pc 0 + 2 ^ 32 - 4) in
      m.memory (u32 (a + 2)) * 256 + m.memory (u32 (a + 3))

  -- `l.sys 4` and `l.sys 5`: the old `syscall_handler` is the result of both.
  abbrev pub new_syscall_handler : Stub W → Stub W
  new_syscall_handler m =
      with_register reg_arg0 m.syscall_handler (record m { syscall_handler = arg0 m })

  abbrev pub new_irq_handler : Stub W → Stub W
  new_irq_handler m = with_register reg_arg0 m.syscall_handler (record m { irq_handler = arg0 m })

  module _ (call : ℕ → Stub W → Stub W) where
    abbrev pub user_syscall : Stub W → Stub W
    user_syscall m =
        if m.syscall_handler == 0 then with_register reg_arg0 0 m else call m.syscall_handler m

    abbrev pub interrupt_handler : Stub W → Stub W
    interrupt_handler m = if m.irq_handler == 0 then m else call m.irq_handler m

    abbrev pub say : List ℕ → List ℕ → Stub W → Talk W
    say text input m = sending text input λ rest. returned m [] rest

    abbrev pub put_text : Option (List ℕ) → List ℕ → Stub W → Talk W
    put_text none input m = out_of_bounds
    put_text (some text) input m = say (b'O' ∷ text) input m

    unfoldable pub gdb_syscall : List ℕ → Stub W → Talk W
    gdb_syscall input m =
        let digits = hex_char (arg0 m / 16) ∷ hex_char (arg0 m) ∷ [] in
        if sys_num m == 1
        then say (b'O' ∷ digits) input m
        else if sys_num m == 2
        then put_text (put_string m.memory 255 (arg0 m)) input m
        else if sys_num m == 3
        then say (b'W' ∷ digits) input m
        else if sys_num m == 4
        then returned (new_syscall_handler m) [] input
        else if sys_num m == 5
        then returned (new_irq_handler m) [] input
        else if sys_num m == 6
        then returned m [] input
        else if sys_num m == 7
        then rebooted
        else returned (user_syscall m) [] input

    -- A round of the command loop, with the rest of the loop.
    abbrev pub settle : Outcome W → List ℕ → (Stub W → List ℕ → Talk W) → Talk W
    settle (answer text m) input k = sending text input (k m)
    settle (resume m) input k = returned m [] input
    settle overrun input k = out_of_bounds

    abbrev pub obey : ℕ → List ℕ → Stub W → Outcome W
    obey sig_val [] m = overrun
    obey sig_val (ch ∷ ptr) m = command sig_val ch ptr m

    unfoldable pub session : ℕ → ℕ → List ℕ → Stub W → Talk W
    session zero sig_val input m = no_fuel
    session (suc fuel) sig_val input m = elim (gdb_recv m.inbuffer input) [
      | none ↦ waiting
      | some r ↦ after r.sent (
          settle (obey sig_val (drop r.offset r.inbuffer) (record m { inbuffer = r.inbuffer }))
            r.input λ m' rest. session fuel sig_val rest m')
    ]

    -- OR32_EXC_INT, OR32_EXC_BREAKPOINT and OR32_EXC_FAULT.
    abbrev pub signal_of : ℕ → ℕ
    signal_of reason =
        if reason == 2 then 2 else if reason == 4 then 5 else if reason == 1 then 11 else 1

    -- The status that an exception reports.
    unfoldable pub status_text : ℕ → Stub W → List ℕ
    status_text sig_val m =
        b'T'
        ∷ hex_char (sig_val / 16)
        ∷ hex_char sig_val
        ∷ hex_char (reg_pc / 16)
        ∷ hex_char reg_pc
        ∷ b':'
        ∷ (gdb_mem2hex (bytes_of (get_or m.registers reg_pc 0))
            ++ b';'
              ∷ hex_char (reg_sp / 16)
              ∷ hex_char reg_sp
              ∷ b':'
              ∷ (gdb_mem2hex (bytes_of (get_or m.registers reg_sp 0)) ++ b';' ∷ []))

    -- The part behind the first `if`: `m` is the state behind an interrupt's handler.
    abbrev pub report : ℕ → ℕ → List ℕ → Stub W → Talk W
    report fuel sig_val input m =
        if m.initial_trap
        then session fuel 1 input (record m { initial_trap = false })
        else sending (status_text sig_val m) input λ rest. session fuel sig_val rest m

    unfoldable pub gdb_exception : ℕ → ℕ → List ℕ → Stub W → Talk W
    gdb_exception fuel reason input m =
        let m0 = record m { flush_caches = false } in
        if reason == 3
        then gdb_syscall input m0
        else report fuel (signal_of reason) input
            (set_sr dbgen (if reason == 2 then interrupt_handler m0 else m0))
