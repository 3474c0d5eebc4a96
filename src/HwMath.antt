-- ===== src/HwMath.antt =====
-- hdl/soc/hw_math.v: the arithmetic unit beside the processor, and the two routines that feed it: the
-- variant of crc32 with CRC32_HW in application/libhw/crc32.c, and application/libhw/__mulsi3.c.
pub mod Linear
pub mod Checksum
pub mod Product
use or1k_spartan6_platform_x.Base.{
  ℕ, zero, suc, ◌+◌, ◌-◌, ◌*◌, ◌/◌, ◌%◌, ◌^◌, List, [], ◌∷◌, Option, none, some, u32, ◌==◌,
  if◌then◌else◌,
}

-- A digit of a number, and the sum of digits modulo 2.
abbrev pub digit : ℕ → ℕ → ℕ
digit k x = x / 2 ^ k % 2

unfoldable pub parity : List ℕ → ℕ → ℕ
parity [] x = 0
parity (k ∷ ks) x = (digit k x + parity ks x) % 2

-- A line of `nextCRC32_D8`: the digits of the data and of the register that it adds.
pub record Tap : Type 0 where
  pub d : List ℕ
  pub c : List ℕ

abbrev pub tap : List ℕ → List ℕ → Tap
tap d c = record { d = d; c = c }

-- The lines of `nextCRC32_D8`, that of `newcrc[0]` first.
abbrev pub taps : List Tap
taps =
    tap (6 ∷ 0 ∷ []) (24 ∷ 30 ∷ [])
    ∷ tap (7 ∷ 6 ∷ 1 ∷ 0 ∷ []) (24 ∷ 25 ∷ 30 ∷ 31 ∷ [])
    ∷ tap (7 ∷ 6 ∷ 2 ∷ 1 ∷ 0 ∷ []) (24 ∷ 25 ∷ 26 ∷ 30 ∷ 31 ∷ [])
    ∷ tap (7 ∷ 3 ∷ 2 ∷ 1 ∷ []) (25 ∷ 26 ∷ 27 ∷ 31 ∷ [])
    ∷ tap (6 ∷ 4 ∷ 3 ∷ 2 ∷ 0 ∷ []) (24 ∷ 26 ∷ 27 ∷ 28 ∷ 30 ∷ [])
    ∷ tap (7 ∷ 6 ∷ 5 ∷ 4 ∷ 3 ∷ 1 ∷ 0 ∷ []) (24 ∷ 25 ∷ 27 ∷ 28 ∷ 29 ∷ 30 ∷ 31 ∷ [])
    ∷ tap (7 ∷ 6 ∷ 5 ∷ 4 ∷ 2 ∷ 1 ∷ []) (25 ∷ 26 ∷ 28 ∷ 29 ∷ 30 ∷ 31 ∷ [])
    ∷ tap (7 ∷ 5 ∷ 3 ∷ 2 ∷ 0 ∷ []) (24 ∷ 26 ∷ 27 ∷ 29 ∷ 31 ∷ [])
    ∷ tap (4 ∷ 3 ∷ 1 ∷ 0 ∷ []) (0 ∷ 24 ∷ 25 ∷ 27 ∷ 28 ∷ [])
    ∷ tap (5 ∷ 4 ∷ 2 ∷ 1 ∷ []) (1 ∷ 25 ∷ 26 ∷ 28 ∷ 29 ∷ [])
    ∷ tap (5 ∷ 3 ∷ 2 ∷ 0 ∷ []) (2 ∷ 24 ∷ 26 ∷ 27 ∷ 29 ∷ [])
    ∷ tap (4 ∷ 3 ∷ 1 ∷ 0 ∷ []) (3 ∷ 24 ∷ 25 ∷ 27 ∷ 28 ∷ [])
    ∷ tap (6 ∷ 5 ∷ 4 ∷ 2 ∷ 1 ∷ 0 ∷ []) (4 ∷ 24 ∷ 25 ∷ 26 ∷ 28 ∷ 29 ∷ 30 ∷ [])
    ∷ tap (7 ∷ 6 ∷ 5 ∷ 3 ∷ 2 ∷ 1 ∷ []) (5 ∷ 25 ∷ 26 ∷ 27 ∷ 29 ∷ 30 ∷ 31 ∷ [])
    ∷ tap (7 ∷ 6 ∷ 4 ∷ 3 ∷ 2 ∷ []) (6 ∷ 26 ∷ 27 ∷ 28 ∷ 30 ∷ 31 ∷ [])
    ∷ tap (7 ∷ 5 ∷ 4 ∷ 3 ∷ []) (7 ∷ 27 ∷ 28 ∷ 29 ∷ 31 ∷ [])
    ∷ tap (5 ∷ 4 ∷ 0 ∷ []) (8 ∷ 24 ∷ 28 ∷ 29 ∷ [])
    ∷ tap (6 ∷ 5 ∷ 1 ∷ []) (9 ∷ 25 ∷ 29 ∷ 30 ∷ [])
    ∷ tap (7 ∷ 6 ∷ 2 ∷ []) (10 ∷ 26 ∷ 30 ∷ 31 ∷ [])
    ∷ tap (7 ∷ 3 ∷ []) (11 ∷ 27 ∷ 31 ∷ [])
    ∷ tap (4 ∷ []) (12 ∷ 28 ∷ [])
    ∷ tap (5 ∷ []) (13 ∷ 29 ∷ [])
    ∷ tap (0 ∷ []) (14 ∷ 24 ∷ [])
    ∷ tap (6 ∷ 1 ∷ 0 ∷ []) (15 ∷ 24 ∷ 25 ∷ 30 ∷ [])
    ∷ tap (7 ∷ 2 ∷ 1 ∷ []) (16 ∷ 25 ∷ 26 ∷ 31 ∷ [])
    ∷ tap (3 ∷ 2 ∷ []) (17 ∷ 26 ∷ 27 ∷ [])
    ∷ tap (6 ∷ 4 ∷ 3 ∷ 0 ∷ []) (18 ∷ 24 ∷ 27 ∷ 28 ∷ 30 ∷ [])
    ∷ tap (7 ∷ 5 ∷ 4 ∷ 1 ∷ []) (19 ∷ 25 ∷ 28 ∷ 29 ∷ 31 ∷ [])
    ∷ tap (6 ∷ 5 ∷ 2 ∷ []) (20 ∷ 26 ∷ 29 ∷ 30 ∷ [])
    ∷ tap (7 ∷ 6 ∷ 3 ∷ []) (21 ∷ 27 ∷ 30 ∷ 31 ∷ [])
    ∷ tap (7 ∷ 4 ∷ []) (22 ∷ 28 ∷ 31 ∷ [])
    ∷ tap (5 ∷ []) (23 ∷ 29 ∷ [])
    ∷ []

-- The number that the lines give, the lowest digit first.
unfoldable pub assemble : List Tap → ℕ → ℕ → ℕ
assemble [] d c = 0
assemble (t ∷ ts) d c = (parity t.d d + parity t.c c) % 2 + assemble ts d c * 2

unfoldable pub next_crc32_d8 : ℕ → ℕ → ℕ
next_crc32_d8 d c = assemble taps d c

-- A concatenation of single digits, the lowest one first.
unfoldable pub wires : List ℕ → ℕ → ℕ
wires [] x = 0
wires (k ∷ ks) x = digit k x + wires ks x * 2

abbrev pub down_from_7 : List ℕ
down_from_7 = 7 ∷ 6 ∷ 5 ∷ 4 ∷ 3 ∷ 2 ∷ 1 ∷ 0 ∷ []

abbrev pub down_from_31 : List ℕ
down_from_31 =
    31 ∷ 30 ∷ 29 ∷ 28 ∷ 27 ∷ 26 ∷ 25 ∷ 24 ∷ 23 ∷ 22 ∷ 21 ∷ 20 ∷ 19 ∷ 18 ∷ 17 ∷ 16 ∷ 15 ∷ 14 ∷ 13
    ∷ 12 ∷ 11 ∷ 10 ∷ 9 ∷ 8 ∷ 7 ∷ 6 ∷ 5 ∷ 4 ∷ 3 ∷ 2 ∷ 1 ∷ 0 ∷ []

-- The registers `crc32_`, `a`, `b` and `product`. Signed words are their bit patterns.
pub record Unit32 : Type 0 where
  pub crc : ℕ
  pub a : ℕ
  pub b : ℕ
  pub product : ℕ

-- A clock edge, with a write to one of the four registers or without.
unfoldable pub clock : Option (ℕ × ℕ) → Unit32 → Unit32
clock none u = record u { product = u32 (u.a * u.b) }
clock (some (reg, dat)) u = record {
  crc =
      (if reg == 0
        then next_crc32_d8 (wires down_from_7 dat) u.crc
        else if reg == 1
        then 0xffffffff
        else u.crc);
  a = (if reg == 2 then dat else u.a);
  b = (if reg == 2 then u.a else u.b);
  product = u32 (u.a * u.b);
}

-- `dat_o` for the registers 0 and 1, and for 2 and 3.
unfoldable pub crc32_res : Unit32 → ℕ
crc32_res u = 0xffffffff - wires down_from_31 u.crc

-- Clock edges without an access.
unfoldable pub idle : ℕ → Unit32 → Unit32
idle zero u = u
idle (suc n) u = idle n (clock none u)

-- `crc32` with the unit, with `n` clock edges behind each access.
unfoldable pub feed : ℕ → List ℕ → Unit32 → Unit32
feed n [] u = u
feed n (x ∷ xs) u = feed n xs (idle n (clock (some (0, x)) u))

unfoldable pub crc32_hw : ℕ → List ℕ → Unit32 → ℕ
crc32_hw n bytes u = crc32_res (feed n bytes (idle n (clock (some (1, 1)) u)))

-- `__mulsi3`, the same.
unfoldable pub mulsi3 : ℕ → ℕ → ℕ → Unit32 → ℕ
mulsi3 n a b u = (idle n (clock (some (2, b)) (idle n (clock (some (2, a)) u)))).product
