-- ===== src/Tests/Commands.antt =====
-- The debugger's commands on a concrete machine.
use or1k_spartan6_platform_x.Base.{
  ℕ, inl, inr, ◌≡◌, ◌≢◌, refl, arith, [], ◌∷◌, ◌++◌, replicate, true, false, zero, suc, ◌+◌, ◌≤◌,
  u32, ltb, ◌==◌, if◌then◌else◌,
}
use or1k_spartan6_platform_x.Gdb.{hex_char, gdb_mem2hex}
use or1k_spartan6_platform_x.Gdb.Hex.{word_of}
use or1k_spartan6_platform_x.Gdb.Stub.{
  Stub, answer, ok_text, with_register, set_register, get_register, write_memory, read_memory,
  write_bytes,
}
use or1k_spartan6_platform_x.Gdb.Session.{no_fuel, gdb_exception}
use or1k_spartan6_platform_x.Gdb.Number.{IsNumeral}
use or1k_spartan6_platform_x.Gdb.Commands.{get_register-set_register, read_memory-write_memory}
use or1k_spartan6_platform_x.Gdb.Progress.{gdb_exception-ends}
use or1k_spartan6_platform_x.Gdb.Strings.{IsString}

-- The saved PC is 8, and the instruction before it is `l.sys 2`. The string `hi` stands at 16.
abbrev text_memory : ℕ → ℕ
text_memory a = if a == 7 then 2 else if a == 16 then b'h' else if a == 17 then b'i' else 0

abbrev machine_of : (ℕ → ℕ) → Stub ℕ
machine_of memory = record {
  registers = 0 ∷ 0 ∷ 0 ∷ 16 ∷ (replicate 29 0 ++ 8 ∷ 0 ∷ []);
  memory = memory;
  inbuffer = replicate 512 0;
  initial_trap = false;
  syscall_handler = 0;
  irq_handler = 0;
  flush_caches = false;
  flushes = 0;
  world = 0;
}

abbrev stub : Stub ℕ
stub = machine_of text_memory

-- `A`, and `0a`.
ten-IsNumeral : IsNumeral (b'A' ∷ []) 10
ten-IsNumeral = (omega arith, 10 ∷ [], (omega arith, inr (omega arith, refl), tt), refl)

padded_ten-IsNumeral : IsNumeral (b'0' ∷ b'a' ∷ []) 10
unfolding hex_char
padded_ten-IsNumeral =
    (omega arith, 0 ∷ 10 ∷ [], (omega arith, inl refl, (omega arith, inl refl, tt)), refl)

get_register-set_register_example :
    let m' = with_register 10 (word_of 0 (0xde ∷ 0xad ∷ 0xbe ∷ 0xef ∷ [])) stub in
    (set_register (b'A' ∷ b'=' ∷ (gdb_mem2hex (0xde ∷ 0xad ∷ 0xbe ∷ 0xef ∷ []) ++ 0 ∷ [])) stub
      ≡ answer ok_text m')
    × (get_register (b'0' ∷ b'a' ∷ 0 ∷ []) m'
        ≡ answer (gdb_mem2hex (0xde ∷ 0xad ∷ 0xbe ∷ 0xef ∷ [])) m')
get_register-set_register_example =
    get_register-set_register stub 10 (b'A' ∷ []) (b'0' ∷ b'a' ∷ []) [] [] 0xde 0xad 0xbe 0xef
      ten-IsNumeral padded_ten-IsNumeral (ground arith) (omega arith) (omega arith) refl

-- `100`, and `2`.
address-IsNumeral : IsNumeral (b'1' ∷ b'0' ∷ b'0' ∷ []) 256
unfolding hex_char
address-IsNumeral = (
  omega arith,
  1 ∷ 0 ∷ 0 ∷ [],
  (omega arith, inl refl, (omega arith, inl refl, (omega arith, inl refl, tt))),
  refl,
)

two-IsNumeral : IsNumeral (b'2' ∷ []) 2
unfolding hex_char
two-IsNumeral = (omega arith, 2 ∷ [], (omega arith, inl refl, tt), refl)

read_memory-write_memory_example :
    let m' = record stub {
      memory = write_bytes text_memory 256 (1 ∷ 2 ∷ []);
      flush_caches = true;
    } in
    (write_memory
        (b'1' ∷ b'0' ∷ b'0' ∷ b',' ∷ b'2' ∷ b':' ∷ (gdb_mem2hex (1 ∷ 2 ∷ []) ++ 0 ∷ []))
        stub
      ≡ answer ok_text m')
    × (read_memory (b'1' ∷ b'0' ∷ b'0' ∷ b',' ∷ b'2' ∷ 0 ∷ []) m'
        ≡ answer (gdb_mem2hex (1 ∷ 2 ∷ [])) m')
read_memory-write_memory_example =
    read_memory-write_memory stub 256 (b'1' ∷ b'0' ∷ b'0' ∷ []) (b'1' ∷ b'0' ∷ b'0' ∷ [])
      (b'2' ∷ []) (b'2' ∷ []) (1 ∷ 2 ∷ []) (0 ∷ []) [] address-IsNumeral address-IsNumeral
      two-IsNumeral two-IsNumeral (ground arith) (omega arith) (omega arith) (omega arith)

gdb_exception-ends_example : gdb_exception (λ h m. m) 3 4 (b'+' ∷ b'$' ∷ []) stub ≢ no_fuel
gdb_exception-ends_example = gdb_exception-ends (λ h m. m) 3 4 (b'+' ∷ b'$' ∷ []) stub (omega arith)

-- The same program with 256 characters at 16.
abbrev long_memory : ℕ → ℕ
long_memory a = if a == 7 then 2 else if ltb a 16 then 0 else if ltb a 272 then b'x' else 0

long-IsString : (n a : ℕ) → a + n ≡ 272 → 16 ≤ a → IsString long_memory a (replicate n b'x')
long-IsString zero a e h = ground arith
long-IsString (suc n) a e h =
    (ground arith, omega arith, rw (wrap e) (long-IsString n (a + 1) (omega arith) (omega arith)))
  where
    wrap : a + suc n ≡ 272 → u32 (a + 1) ≡ a + 1
    wrap e' = omega arith
