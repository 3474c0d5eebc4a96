-- ===== src/Gdb/Stub.antt =====
-- The commands of application/gdb_stub/gdb.c on registers and memory, its system calls, and
-- `gdb_exception`, which ties them to the packets. `_outbuffer` is the text of the answer.
use or1k_spartan6_platform_x.Base.{
  ℕ, zero, suc, ◌+◌, ◌*◌, ◌/◌, ◌%◌, ◌^◌, Bool, true, List, [], ◌∷◌, ◌++◌, Option, none, some, u32,
  ltb, ◌==◌, if◌then◌else◌, get_or, set, bit_or,
}
use or1k_spartan6_platform_x.Gdb.{hex_char, gdb_mem2hex, gdb_hex2mem, gdb_gethexword}

abbrev pub reg_sp : ℕ
reg_sp = 1

abbrev pub reg_arg0 : ℕ
reg_arg0 = 3

abbrev pub reg_pc : ℕ
reg_pc = 33

abbrev pub reg_sr : ℕ
reg_sr = 34

abbrev pub reg_num : ℕ
reg_num = 35

abbrev pub dbgen : ℕ
dbgen = 2 ^ 20

abbrev pub step_bit : ℕ
step_bit = 2 ^ 19

-- The saved registers, the memory by bytes, the module's variables, whether the caches have to be
-- flushed and how often they were, and the rest of the machine. A handler is named by its address.
pub record Stub (W : Type 0) : Type 0 where
  pub registers : List ℕ
  pub memory : ℕ → ℕ
  pub inbuffer : List ℕ
  pub initial_trap : Bool
  pub syscall_handler : ℕ
  pub irq_handler : ℕ
  pub flush_caches : Bool
  pub flushes : ℕ
  pub world : W

-- The bytes of a word on the big-endian processor.
abbrev pub bytes_of : ℕ → List ℕ
bytes_of w = w / 2 ^ 24 ∷ w / 2 ^ 16 % 256 ∷ w / 2 ^ 8 % 256 ∷ w % 256 ∷ []

unfoldable pub all_bytes : List ℕ → List ℕ
all_bytes [] = []
all_bytes (w ∷ ws) = bytes_of w ++ all_bytes ws

unfoldable pub all_words : List ℕ → List ℕ
all_words (a ∷ b ∷ c ∷ d ∷ bs) = (a * 2 ^ 24 + b * 2 ^ 16 + c * 2 ^ 8 + d) ∷ all_words bs
all_words bs = []

unfoldable pub read_bytes : (ℕ → ℕ) → ℕ → ℕ → List ℕ
read_bytes memory a zero = []
read_bytes memory a (suc n) = memory a ∷ read_bytes memory (u32 (a + 1)) n

unfoldable pub write_bytes : (ℕ → ℕ) → ℕ → List ℕ → ℕ → ℕ
write_bytes memory a [] = memory
write_bytes memory a (b ∷ bs) = write_bytes (λ x. if x == a then b else memory x) (u32 (a + 1)) bs

-- `OK`, `E14` and `E22`.
abbrev pub ok_text : List ℕ
ok_text = b'O' ∷ b'K' ∷ []

abbrev pub error_text : ℕ → List ℕ
error_text n = b'E' ∷ (b'0' + n / 10) ∷ (b'0' + n % 10) ∷ []

-- A command is answered, ends the exception, or reads beyond the buffer.
pub data Outcome (W : Type 0) : Type 0 where
  answer : List ℕ → Stub W → Outcome W
  resume : Stub W → Outcome W
  overrun : Outcome W

-- `gdb_gethexword(&ptr, &val)` as a condition: the value and the rest behind at least one digit.
unfoldable pub word_at : List ℕ → Option (ℕ × List ℕ)
word_at ptr =
    let (rest, count, val) = gdb_gethexword ptr in if count == 0 then none else some (val, rest)

-- `*ptr++ == c` as a condition.
abbrev pub expect : ℕ → List ℕ → Option (List ℕ)
expect c [] = none
expect c (x ∷ ptr) = if x == c then some ptr else none

module _ {W : Type 0} where
  abbrev pub with_register : ℕ → ℕ → Stub W → Stub W
  with_register n val m = record m { registers = set m.registers n val }

  -- `registers[REG_SR] |= bit`.
  abbrev pub set_sr : ℕ → Stub W → Stub W
  set_sr bit m = with_register reg_sr (bit_or (get_or m.registers reg_sr 0) bit) m

  unfoldable pub last_signal : ℕ → Stub W → Outcome W
  last_signal sig_val m = answer (b'S' ∷ hex_char (sig_val / 16) ∷ hex_char sig_val ∷ []) m

  unfoldable pub get_registers : Stub W → Outcome W
  get_registers m = answer (gdb_mem2hex (all_bytes m.registers)) m

  unfoldable pub set_registers : List ℕ → Stub W → Outcome W
  set_registers ptr m = elim (gdb_hex2mem (reg_num * 4) ptr) [
    | none ↦ overrun
    | some bytes ↦ answer ok_text (set_sr dbgen (record m { registers = all_words bytes }))
  ]

  unfoldable pub get_register : List ℕ → Stub W → Outcome W
  get_register ptr m = elim (word_at ptr) [
    | none ↦ answer (error_text 22) m
    | some (val, rest) ↦
        if ltb val reg_num
        then answer (gdb_mem2hex (bytes_of (get_or m.registers val 0))) m
        else answer (error_text 22) m
  ]

  -- The value behind the `=` may have no digit, and is 0 then.
  unfoldable pub set_register : List ℕ → Stub W → Outcome W
  set_register ptr m = elim (word_at ptr) [
    | none ↦ answer (error_text 22) m
    | some (regnum, rest) ↦ elim (expect b'=' rest) [
      | none ↦ answer (error_text 22) m
      | some rest' ↦
          let (end, count, val) = gdb_gethexword rest' in
          let m' = with_register regnum val m in
          if ltb regnum reg_num
          then answer ok_text (if regnum == reg_sr then set_sr dbgen m' else m')
          else answer (error_text 22) m
    ]
  ]

  unfoldable pub read_memory : List ℕ → Stub W → Outcome W
  read_memory ptr m = elim (word_at ptr) [
    | none ↦ answer (error_text 22) m
    | some (val, rest) ↦ elim (expect b',' rest) [
      | none ↦ answer (error_text 22) m
      | some rest' ↦ elim (word_at rest') [
        | none ↦ answer (error_text 22) m
        | some (len, end) ↦
            if ltb len 255
            then answer (gdb_mem2hex (read_bytes m.memory val len)) m
            else answer (error_text 22) m
      ]
    ]
  ]

  -- `gdb_hex2mem` returns the address behind the block, and 0 counts as a failure.
  abbrev pub written : ℕ → ℕ → List ℕ → Stub W → Outcome W
  written val len bytes m =
      let m' = record m { memory = write_bytes m.memory val bytes; flush_caches = true } in
      answer (if u32 (val + len) == 0 then error_text 14 else ok_text) m'

  unfoldable pub write_memory : List ℕ → Stub W → Outcome W
  write_memory ptr m = elim (word_at ptr) [
    | none ↦ answer (error_text 22) m
    | some (val, rest) ↦ elim (expect b',' rest) [
      | none ↦ answer (error_text 22) m
      | some rest' ↦ elim (word_at rest') [
        | none ↦ answer (error_text 22) m
        | some (len, rest'') ↦ elim (expect b':' rest'') [
          | none ↦ answer (error_text 22) m
          | some end ↦ elim (gdb_hex2mem len end) [
            | none ↦ overrun
            | some bytes ↦ written val len bytes m
          ]
        ]
      ]
    ]
  ]

  -- The optional address to go on from.
  abbrev pub jump : List ℕ → Stub W → Stub W
  jump ptr m = elim (word_at ptr) [ none ↦ m | some (val, rest) ↦ with_register reg_pc val m ]

  abbrev pub flush : Stub W → Stub W
  flush m = if m.flush_caches then record m { flushes = m.flushes + 1 } else m

  unfoldable pub continue_at : List ℕ → Stub W → Outcome W
  continue_at ptr m = resume (flush (jump ptr m))

  unfoldable pub step_at : List ℕ → Stub W → Outcome W
  step_at ptr m = resume (flush (set_sr dbgen (set_sr step_bit (jump ptr m))))

  -- The `switch` of `gdb_exception`.
  unfoldable pub command : ℕ → ℕ → List ℕ → Stub W → Outcome W
  command sig_val ch ptr m =
      if ch == b'?'
      then last_signal sig_val m
      else if ch == b'g'
      then get_registers m
      else if ch == b'G'
      then set_registers ptr m
      else if ch == b'p'
      then get_register ptr m
      else if ch == b'P'
      then set_register ptr m
      else if ch == b'm'
      then read_memory ptr m
      else if ch == b'M'
      then write_memory ptr m
      else if ch == b'c'
      then continue_at ptr m
      else if ch == b's'
      then step_at ptr m
      else answer [] m
