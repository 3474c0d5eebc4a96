-- ===== src/Gdb/Hex.antt =====
-- Hexadecimal text of application/gdb_stub/gdb.c.
use or1k_spartan6_platform_x.Base.{
  AllBytes, ℕ, ◌+◌, ◌*◌, ◌/◌, ◌%◌, ◌^◌, ◌≡◌, List, [], ◌∷◌, ◌++◌, none, some, refl, arith, length,
  u32, ap, ◌∙◌,
}
use or1k_spartan6_platform_x.Gdb.{
  hex_char, gdb_atoi_hex, gdb_mem2hex, gdb_hex2mem, hexword_loop, gdb_gethexword,
}

-- A digit's character is read as that digit.
pub gdb_atoi_hex-hex_char : (v : ℕ) → gdb_atoi_hex (hex_char v) ≡ some (v % 16)
unfolding gdb_atoi_hex hex_char
gdb_atoi_hex-hex_char v = ground arith

-- Bytes written as hexadecimal text are read back from it, whatever follows them.
pub gdb_hex2mem-gdb_mem2hex :
    (mem rest : List ℕ)
    → AllBytes mem
    → gdb_hex2mem (length mem) (gdb_mem2hex mem ++ rest) ≡ some mem
unfolding gdb_hex2mem gdb_mem2hex
gdb_hex2mem-gdb_mem2hex [] rest a = refl
gdb_hex2mem-gdb_mem2hex (b ∷ mem) rest a =
    rw
      (
        gdb_hex2mem-gdb_mem2hex mem rest a.1,
        gdb_atoi_hex-hex_char (b / 16),
        gdb_atoi_hex-hex_char b,
      )
      (ap (λ x. some (x ∷ mem)) (omega arith))

-- The 32-bit word that bytes stand for, the first one the highest.
abbrev pub word_of : ℕ → List ℕ → ℕ
word_of val [] = val
word_of val (b ∷ bs) = word_of ((val * 256 + b) % 2 ^ 32) bs

-- A text at which the reading of a word stops.
abbrev pub Stops : List ℕ → Type 0
Stops [] = Unit {0}
Stops (c ∷ s) = gdb_atoi_hex c ≡ none

hexword_loop-digit :
    (v : ℕ) (s : List ℕ) (count val : ℕ)
    → hexword_loop (hex_char v ∷ s) count val ≡ hexword_loop s (count + 1) (u32 (val * 16) + v % 16)
unfolding hexword_loop
hexword_loop-digit v s count val = ground (arith, gdb_atoi_hex-hex_char v)

hexword_loop-mem2hex :
    (mem rest : List ℕ) (count val : ℕ)
    → AllBytes mem
    → Stops rest
    → hexword_loop (gdb_mem2hex mem ++ rest) count val
      ≡ (rest, count + 2 * length mem, word_of val mem)
unfolding hexword_loop gdb_mem2hex
hexword_loop-mem2hex [] [] count val a h = ground arith
hexword_loop-mem2hex [] (c ∷ rest) count val a h = ground arith
hexword_loop-mem2hex (b ∷ mem) rest count val a h =
    rw
      (
        hexword_loop-digit,
        hexword_loop-digit,
        step,
        hexword_loop-mem2hex mem rest (count + 1 + 1) ((val * 256 + b) % 2 ^ 32) a.1 h,
      )
      (ground arith)
  where
    step : u32 ((u32 (val * 16) + b / 16 % 16) * 16) + b % 16 ≡ (val * 256 + b) % 2 ^ 32
    step = omega arith

-- The 32-bit word of bytes is read back from their hexadecimal text up to the end or the first
-- character that is no digit, the number of digits is twice that of the bytes, and the rest is
-- left.
pub gdb_gethexword-gdb_mem2hex :
    (mem rest : List ℕ)
    → AllBytes mem
    → Stops rest
    → gdb_gethexword (gdb_mem2hex mem ++ rest) ≡ (rest, 2 * length mem, word_of 0 mem)
unfolding gdb_gethexword
gdb_gethexword-gdb_mem2hex mem rest a h = hexword_loop-mem2hex mem rest 0 0 a h ∙ ground arith
