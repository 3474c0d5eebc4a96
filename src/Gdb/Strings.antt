-- ===== src/Gdb/Strings.antt =====
-- `l.sys 2` of `gdb_syscall` (application/gdb_stub/gdb.c), which sends a string.
use or1k_spartan6_platform_x.Base.{
  ℕ, zero, suc, ◌+◌, ◌/◌, ◌≤◌, ◌<◌, ◌≡◌, ◌≢◌, List, [], ◌∷◌, none, some, refl, arith, length, u32,
  ap, ◌∙◌, ==-ne, append-nil,
}
use or1k_spartan6_platform_x.Gdb.{hex_char, gdb_mem2hex, gdb_send, packet}
use or1k_spartan6_platform_x.Gdb.Stub.{Stub}
use or1k_spartan6_platform_x.Gdb.Session.{
  returned, out_of_bounds, put_string, sys_num, arg0, gdb_syscall, put_text,
}

-- The characters `bs` stand in the memory from `str`, and a 0 behind them.
abbrev pub IsString : (ℕ → ℕ) → ℕ → List ℕ → Type 0
IsString memory str [] = memory str ≡ 0
IsString memory str (b ∷ bs) = (memory str ≡ b) × (b ≢ 0) × IsString memory (u32 (str + 1)) bs

put_string-mem2hex :
    (memory : ℕ → ℕ) (room str : ℕ) (bs : List ℕ)
    → IsString memory str bs
    → length bs ≤ room
    → put_string memory room str ≡ some (gdb_mem2hex bs)
unfolding put_string gdb_mem2hex
put_string-mem2hex memory zero str [] s h = rw s refl
put_string-mem2hex memory zero str (b ∷ bs) s h = absurd (omega arith)
put_string-mem2hex memory (suc room) str [] s h = rw s refl
put_string-mem2hex memory (suc room) str (b ∷ bs) s h =
    rw (s.0, ==-ne b 0 s.1, put_string-mem2hex memory room (u32 (str + 1)) bs s.2 (omega arith))
      (ap (λ x. some (hex_char (x / 16) ∷ hex_char x ∷ gdb_mem2hex bs)) s.0)

put_string-overflow :
    (memory : ℕ → ℕ) (room str : ℕ) (bs : List ℕ)
    → IsString memory str bs
    → room < length bs
    → put_string memory room str ≡ none
unfolding put_string
put_string-overflow memory zero str [] s h = absurd (omega arith)
put_string-overflow memory zero str (b ∷ bs) s h = rw (s.0, ==-ne b 0 s.1) refl
put_string-overflow memory (suc room) str [] s h = absurd (omega arith)
put_string-overflow memory (suc room) str (b ∷ bs) s h =
    rw (s.0, ==-ne b 0 s.1, put_string-overflow memory room (u32 (str + 1)) bs s.2 (omega arith))
      refl

module _ {W : Type 0} (call : ℕ → Stub W → Stub W) (m : Stub W) (bs : List ℕ) where
  syscall_two :
      (input : List ℕ)
      → sys_num m ≡ 2
      → gdb_syscall call input m ≡ put_text call (put_string m.memory 255 (arg0 m)) input m
  unfolding gdb_syscall
  syscall_two input e = rw e refl

  put_text-sent :
      (text input : List ℕ)
      → put_text call (some text) (b'+' ∷ input) m ≡ returned m (packet (b'O' ∷ text)) input
  unfolding gdb_send
  put_text-sent text input = ap (λ l. returned m l input) (append-nil (packet (b'O' ∷ text)))

  -- In system call 2, a string of at most 255 characters is sent to the debugger, which
  -- acknowledges it at once, as its hexadecimal text behind an `O`, and nothing else changes.
  pub gdb_syscall-put_string :
      (input : List ℕ)
      → sys_num m ≡ 2
      → IsString m.memory (arg0 m) bs
      → length bs ≤ 255
      → gdb_syscall call (b'+' ∷ input) m ≡ returned m (packet (b'O' ∷ gdb_mem2hex bs)) input
  gdb_syscall-put_string input e s h =
      syscall_two (b'+' ∷ input) e
      ∙ rw (put_string-mem2hex m.memory 255 (arg0 m) bs s h) (put_text-sent (gdb_mem2hex bs) input)

  -- In system call 2, a string of more than 255 characters is written beyond the end of
  -- `_outbuffer`.
  pub gdb_syscall-put_string_overflow :
      (input : List ℕ)
      → sys_num m ≡ 2
      → IsString m.memory (arg0 m) bs
      → 255 < length bs
      → gdb_syscall call input m ≡ out_of_bounds
  gdb_syscall-put_string_overflow input e s h =
      syscall_two input e ∙ rw (put_string-overflow m.memory 255 (arg0 m) bs s h) refl
