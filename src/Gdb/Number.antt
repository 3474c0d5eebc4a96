-- ===== src/Gdb/Number.antt =====
-- The numbers in the debugger's commands (application/gdb_stub/gdb.c), of any number of digits.
use or1k_spartan6_platform_x.Base.{
  ℕ, ◌+◌, ◌-◌, ◌*◌, ◌%◌, ◌^◌, ◌<◌, ◌≤◌, ◌≡◌, ◌⊎◌, List, [], ◌∷◌, ◌++◌, some, arith, length, u32, ap,
  ◌∙◌,
}
use or1k_spartan6_platform_x.Gdb.{hex_char, gdb_atoi_hex, hexword_loop, gdb_gethexword}
use or1k_spartan6_platform_x.Gdb.Hex.{Stops}
use or1k_spartan6_platform_x.Gdb.Stub.{word_at}

-- A text writes digits, each of them in either case.
abbrev pub Spells : List ℕ → List ℕ → Type 0
Spells [] [] = Unit {0}
Spells [] (v ∷ vs) = ⊥
Spells (c ∷ cs) [] = ⊥
Spells (c ∷ cs) (v ∷ vs) =
    (v < 16) × ((c ≡ hex_char v) ⊎ ((10 ≤ v) × (c ≡ b'A' + (v - 10)))) × Spells cs vs

-- The 32-bit word that digits stand for behind `val`.
abbrev pub number_of : ℕ → List ℕ → ℕ
number_of val [] = val
number_of val (v ∷ vs) = number_of ((val * 16 + v) % 2 ^ 32) vs

gdb_atoi_hex-digit :
    (c v : ℕ)
    → v < 16
    → (c ≡ hex_char v) ⊎ ((10 ≤ v) × (c ≡ b'A' + (v - 10)))
    → gdb_atoi_hex c ≡ some v
unfolding gdb_atoi_hex hex_char
gdb_atoi_hex-digit c v lt h = ground arith

hexword_loop-digit :
    (c v : ℕ) (s : List ℕ) (count val : ℕ)
    → gdb_atoi_hex c ≡ some v
    → hexword_loop (c ∷ s) count val ≡ hexword_loop s (count + 1) (u32 (val * 16) + v)
unfolding hexword_loop
hexword_loop-digit c v s count val e = ground (arith, e)

hexword_loop-number :
    (cs vs rest : List ℕ) (count val : ℕ)
    → Spells cs vs
    → Stops rest
    → hexword_loop (cs ++ rest) count val ≡ (rest, count + length cs, number_of val vs)
unfolding hexword_loop
hexword_loop-number [] [] [] count val s h = ground arith
hexword_loop-number [] [] (c ∷ rest) count val s h = ground arith
hexword_loop-number [] (v ∷ vs) rest count val s h = absurd s
hexword_loop-number (c ∷ cs) [] rest count val s h = absurd s
hexword_loop-number (c ∷ cs) (v ∷ vs) rest count val (lt, way, s) h =
    hexword_loop-digit c v (cs ++ rest) count val (gdb_atoi_hex-digit c v lt way)
    ∙ ap (λ n. hexword_loop (cs ++ rest) (count + 1) n) step
    ∙ hexword_loop-number cs vs rest (count + 1) ((val * 16 + v) % 2 ^ 32) s h
    ∙ ap (λ n. (rest, n, number_of ((val * 16 + v) % 2 ^ 32) vs)) (omega arith)
  where
    step : u32 (val * 16) + v ≡ (val * 16 + v) % 2 ^ 32
    step = omega arith

-- A text with at least one digit writes a number.
abbrev pub IsNumeral : List ℕ → ℕ → Type 0
IsNumeral cs n = (0 < length cs) × (vs : List ℕ) × Spells cs vs × (number_of 0 vs ≡ n)

-- A condition that reads a word takes the number of all of its digits, and leaves the rest.
pub word_at-IsNumeral :
    (cs rest : List ℕ) (n : ℕ) → IsNumeral cs n → Stops rest → word_at (cs ++ rest) ≡ some (n, rest)
unfolding word_at gdb_gethexword
word_at-IsNumeral cs rest n (pos, vs, s, e) h =
    rw (hexword_loop-number cs vs rest 0 0 s h, e) (ground arith)
