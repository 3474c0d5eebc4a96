-- ===== src/Gdb/Commands.antt =====
-- The debugger's commands on registers and memory (application/gdb_stub/gdb.c).

use or1k_spartan6_platform_x.Base.{
  AllBytes, ℕ, ◌+◌, ◌*◌, ◌%◌, ◌^◌, ◌<◌, ◌≡◌, ◌≢◌, List, [], ◌∷◌, ◌++◌, some, refl, arith, length,
  u32, ◌∙◌, get_or, get_or-set_self, true, ◌==◌, ==-ne, ==-refl, if◌then◌else◌,
}
use or1k_spartan6_platform_x.Gdb.{gdb_atoi_hex, gdb_mem2hex, gdb_hex2mem, gdb_gethexword}
use or1k_spartan6_platform_x.Gdb.Hex.{
  Stops, word_of, gdb_gethexword-gdb_mem2hex, gdb_hex2mem-gdb_mem2hex,
}
use or1k_spartan6_platform_x.Gdb.Number.{IsNumeral, word_at-IsNumeral}
use or1k_spartan6_platform_x.Gdb.Stub.{
  Stub, answer, ok_text, word_at, bytes_of, read_bytes, write_bytes, with_register, reg_num, reg_sr,
  set_register, get_register, write_memory, read_memory,
}

no_digit_at : (c : ℕ) (rest : List ℕ) → c < b'0' → Stops (c ∷ rest)
unfolding gdb_atoi_hex
no_digit_at c rest h = ground arith

no_digit_equals : (rest : List ℕ) → Stops (b'=' ∷ rest)
unfolding gdb_atoi_hex
no_digit_equals rest = refl

no_digit_colon : (rest : List ℕ) → Stops (b':' ∷ rest)
unfolding gdb_atoi_hex
no_digit_colon rest = refl

bytes_of-word_of :
    (a b c d : ℕ)
    → AllBytes (a ∷ b ∷ c ∷ d ∷ [])
    → bytes_of (word_of 0 (a ∷ b ∷ c ∷ d ∷ [])) ≡ a ∷ b ∷ c ∷ d ∷ []
bytes_of-word_of a b c d h =
    let w : word_of 0 (a ∷ b ∷ c ∷ d ∷ []) ≡ a * 2 ^ 24 + b * 2 ^ 16 + c * 2 ^ 8 + d = small in
    rw w (ground arith)
  where
    small :
        ((((0 + a) % 2 ^ 32 * 256 + b) % 2 ^ 32 * 256 + c) % 2 ^ 32 * 256 + d) % 2 ^ 32
        ≡ a * 2 ^ 24 + b * 2 ^ 16 + c * 2 ^ 8 + d
    small = omega (arith, h.0, h.1.0, h.1.1.0, h.1.1.1.0)

next : (a : ℕ) → a + 1 < 2 ^ 32 → u32 (a + 1) ≡ a + 1
next a h = omega arith

write_bytes-outside :
    (memory : ℕ → ℕ) (bs : List ℕ) (a x : ℕ)
    → x < a
    → a + length bs < 2 ^ 32
    → write_bytes memory a bs x ≡ memory x
unfolding write_bytes
write_bytes-outside memory [] a x h e = refl
write_bytes-outside memory (b ∷ bs) a x h e = rw (next a (omega arith)) (
    write_bytes-outside (λ y. if y == a then b else memory y) bs (a + 1) x (omega arith)
      (omega arith)
    ∙ rw (==-ne x a (omega arith)) refl)

read_bytes-write_bytes :
    (memory : ℕ → ℕ) (bs : List ℕ) (a : ℕ)
    → a + length bs < 2 ^ 32
    → read_bytes (write_bytes memory a bs) a (length bs) ≡ bs
unfolding write_bytes read_bytes
read_bytes-write_bytes memory [] a e = refl
read_bytes-write_bytes memory (b ∷ bs) a e =
    let after : ℕ → ℕ = λ x. if x == a then b else memory x in
    let fits : a + 1 < 2 ^ 32 = omega arith in
    let head : write_bytes after (u32 (a + 1)) bs a ≡ b =
      rw (next a fits) (
        write_bytes-outside after bs (a + 1) a (omega arith) (omega arith) ∙ rw (==-refl a) refl) in
    let tail : read_bytes (write_bytes after (u32 (a + 1)) bs) (u32 (a + 1)) (length bs) ≡ bs =
      rw (next a fits) (read_bytes-write_bytes after bs (a + 1) (omega arith)) in
    rw (head, tail) refl

module _ {W : Type 0} (m : Stub W) where
  set_register-parsed :
      (ptr rest end : List ℕ) (n count v : ℕ)
      → word_at ptr ≡ some (n, b'=' ∷ rest)
      → gdb_gethexword rest ≡ (end, count, v)
      → n < reg_num
      → n ≢ reg_sr
      → set_register ptr m ≡ answer ok_text (with_register n v m)
  unfolding set_register
  set_register-parsed ptr rest end n count v h g lt ne = ground arith

  get_register-parsed :
      (ptr rest : List ℕ) (n : ℕ)
      → word_at ptr ≡ some (n, rest)
      → n < reg_num
      → get_register ptr m ≡ answer (gdb_mem2hex (bytes_of (get_or m.registers n 0))) m
  unfolding get_register
  get_register-parsed ptr rest n h lt = ground arith

  write_memory-parsed :
      (ptr rest rest' bytes : List ℕ) (a l : ℕ)
      → word_at ptr ≡ some (a, b',' ∷ rest)
      → word_at rest ≡ some (l, b':' ∷ rest')
      → gdb_hex2mem l rest' ≡ some bytes
      → 0 < a + l
      → a + l < 2 ^ 32
      → write_memory ptr m
        ≡ answer ok_text (record m { memory = write_bytes m.memory a bytes; flush_caches = true })
  unfolding write_memory
  write_memory-parsed ptr rest rest' bytes a l h g x pos top = ground arith

  read_memory-parsed :
      (ptr rest rest' : List ℕ) (a l : ℕ)
      → word_at ptr ≡ some (a, b',' ∷ rest)
      → word_at rest ≡ some (l, rest')
      → l < 255
      → read_memory ptr m ≡ answer (gdb_mem2hex (read_bytes m.memory a l)) m
  unfolding read_memory
  read_memory-parsed ptr rest rest' a l h g lt = ground arith

-- The command `P` with the number of a register other than the status register, in any number of
-- digits, and four bytes is answered with `OK`, and a `p` with the same number, in any number of
-- digits, is answered with these bytes.
pub get_register-set_register :
    {W : Type 0} (m : Stub W) (n : ℕ) (name name' rest rest' : List ℕ) (a b c d : ℕ)
    → IsNumeral name n
    → IsNumeral name' n
    → AllBytes (a ∷ b ∷ c ∷ d ∷ [])
    → n < reg_num
    → n ≢ reg_sr
    → length m.registers ≡ reg_num
    → let m' = with_register n (word_of 0 (a ∷ b ∷ c ∷ d ∷ [])) m in
      (set_register (name ++ b'=' ∷ (gdb_mem2hex (a ∷ b ∷ c ∷ d ∷ []) ++ 0 ∷ rest)) m
        ≡ answer ok_text m')
      × (get_register (name' ++ 0 ∷ rest') m' ≡ answer (gdb_mem2hex (a ∷ b ∷ c ∷ d ∷ [])) m')
get_register-set_register m n name name' rest rest' a b c d hn hn' hv lt ne e = (
  set_register-parsed m _ _ (0 ∷ rest) n _ _
      (word_at-IsNumeral name (b'=' ∷ (gdb_mem2hex bytes ++ 0 ∷ rest)) n hn (no_digit_equals []))
      (gdb_gethexword-gdb_mem2hex bytes (0 ∷ rest) hv (no_digit_at 0 rest (omega arith))) lt ne,
  get_register-parsed (with_register n (word_of 0 bytes) m) _ (0 ∷ rest') n
        (word_at-IsNumeral name' (0 ∷ rest') n hn' (no_digit_at 0 rest' (omega arith))) lt
      ∙ rw
          (
            get_or-set_self m.registers n (word_of 0 bytes) 0 (omega arith),
            bytes_of-word_of a b c d hv,
          )
          refl,
)
  where
    bytes : List ℕ
    bytes = a ∷ b ∷ c ∷ d ∷ []

-- The command `M` with an address, a length and as many bytes, where the block has less than 255
-- bytes and its end is neither 0 nor beyond the address space, is answered with `OK`, and an `m`
-- with the same address and length is answered with these bytes. Both numbers have any number of
-- digits.
pub read_memory-write_memory :
    {W : Type 0} (m : Stub W) (at : ℕ) (addr addr' size size' bytes rest rest' : List ℕ)
    → IsNumeral addr at
    → IsNumeral addr' at
    → IsNumeral size (length bytes)
    → IsNumeral size' (length bytes)
    → AllBytes bytes
    → length bytes < 255
    → at + length bytes < 2 ^ 32
    → 0 < at + length bytes
    → let m' = record m { memory = write_bytes m.memory at bytes; flush_caches = true } in
      (write_memory (addr ++ b',' ∷ (size ++ b':' ∷ (gdb_mem2hex bytes ++ rest))) m
        ≡ answer ok_text m')
      × (read_memory (addr' ++ b',' ∷ (size' ++ 0 ∷ rest')) m' ≡ answer (gdb_mem2hex bytes) m')
read_memory-write_memory m at addr addr' size size' bytes rest rest' ha ha' hs hs' hd lt top pos = (
  write_memory-parsed m _ _ (gdb_mem2hex bytes ++ rest) bytes at (length bytes)
      (word_at-IsNumeral addr (b',' ∷ (size ++ b':' ∷ (gdb_mem2hex bytes ++ rest))) at ha
        (no_digit_at b',' [] (omega arith)))
      (word_at-IsNumeral size (b':' ∷ (gdb_mem2hex bytes ++ rest)) (length bytes) hs
        (no_digit_colon []))
      (gdb_hex2mem-gdb_mem2hex bytes rest hd) pos top,
  read_memory-parsed (record m { memory = write_bytes m.memory at bytes; flush_caches = true }) _ _
        (0 ∷ rest') at (length bytes)
        (word_at-IsNumeral addr' (b',' ∷ (size' ++ 0 ∷ rest')) at ha'
          (no_digit_at b',' [] (omega arith)))
        (word_at-IsNumeral size' (0 ∷ rest') (length bytes) hs' (no_digit_at 0 rest' (omega arith)))
        lt
      ∙ rw (read_bytes-write_bytes m.memory bytes at top) refl,
)
