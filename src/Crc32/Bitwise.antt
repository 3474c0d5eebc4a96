-- ===== src/Crc32/Bitwise.antt =====
-- The table-driven checksum of application/libhw/crc32.c against the division of polynomials, one
-- binary digit at a time.
use or1k_spartan6_platform_x.Base.{
  AllBytes, ℕ, zero, suc, ◌+◌, ◌-◌, ◌*◌, ◌/◌, ◌%◌, ◌<◌, ◌≡◌, refl, ap, sym, ◌∙◌, arith, List, [],
  ◌∷◌, get_or, ◌==◌, true, if◌then◌else◌, bit_xor,
}
use or1k_spartan6_platform_x.Base.Xor.{
  bit_xor-div, bit_xor-mod, bit_xor_swap, bit_xor_split, bit_xor_assoc, bit_xor_comm, bit_xor_self,
  bit_xor-zero, bit_xor_shift,
}
use or1k_spartan6_platform_x.Base.Below.{same_below, same_below_lem}
use or1k_spartan6_platform_x.Crc32.{crc32_lookup16, crc_nibble, crc_loop, crc32}

-- A digit leaves the register at its low end, and the reflected polynomial is subtracted if it is 1.
unfoldable pub crc_bit : ℕ → ℕ
crc_bit c = if c % 2 == 1 then bit_xor (c / 2) 0xEDB88320 else c / 2

unfoldable pub crc_bits : ℕ → ℕ → ℕ
crc_bits zero c = c
crc_bits (suc n) c = crc_bits n (crc_bit c)

-- The register behind a message.
unfoldable pub crc_register : List ℕ → ℕ → ℕ
crc_register [] c = c
crc_register (b ∷ bs) c = crc_register bs (crc_bits 8 (bit_xor c b))

-- The polynomial as often as a digit says.
abbrev poly : ℕ → ℕ
poly d = if d == 1 then 0xEDB88320 else 0

crc_bit-poly : (c : ℕ) → crc_bit c ≡ bit_xor (c / 2) (poly (c % 2))
unfolding crc_bit
crc_bit-poly c = ground (arith, bit_xor-zero (c / 2))

poly_add : (x y : ℕ) → x < 2 → y < 2 → poly ((x + y) % 2) ≡ bit_xor (poly x) (poly y)
poly_add zero zero hx hy = refl
poly_add zero (suc zero) hx hy = refl
poly_add (suc zero) zero hx hy = refl
poly_add (suc zero) (suc zero) hx hy = refl
poly_add (suc (suc x)) y hx hy = absurd (omega arith)
poly_add x (suc (suc y)) hx hy = absurd (omega arith)

crc_bit-bit_xor : (a b : ℕ) → crc_bit (bit_xor a b) ≡ bit_xor (crc_bit a) (crc_bit b)
crc_bit-bit_xor a b =
    rw
      (
        crc_bit-poly (bit_xor a b),
        bit_xor-div a b,
        bit_xor-mod a b,
        poly_add (a % 2) (b % 2) (omega arith) (omega arith),
        crc_bit-poly a,
        crc_bit-poly b,
      )
      (bit_xor_swap (a / 2) (b / 2) (poly (a % 2)) (poly (b % 2)))

pub crc_bits-bit_xor :
    (n a b : ℕ) → crc_bits n (bit_xor a b) ≡ bit_xor (crc_bits n a) (crc_bits n b)
unfolding crc_bits
crc_bits-bit_xor zero a b = refl
crc_bits-bit_xor (suc n) a b =
    ap (λ x. crc_bits n x) (crc_bit-bit_xor a b) ∙ crc_bits-bit_xor n (crc_bit a) (crc_bit b)

crc_bit-double : (a : ℕ) → crc_bit (a * 2) ≡ a
unfolding crc_bit
crc_bit-double a = ground arith

low_table : same_below 16 (λ k. crc_bits 4 k) (λ k. get_or crc32_lookup16 k 0) ≡ true
unfolding same_below crc_bits crc_bit
low_table = refl

crc_bits-low : (k : ℕ) → k < 16 → crc_bits 4 k ≡ get_or crc32_lookup16 k 0
crc_bits-low k h =
    same_below_lem 16 (λ k. crc_bits 4 k) (λ k. get_or crc32_lookup16 k 0) k low_table h

crc_bits-quad : (a : ℕ) → crc_bits 4 (a * 2 * 2 * 2 * 2) ≡ a
unfolding crc_bits
crc_bits-quad a =
    rw (crc_bit-double (a * 2 * 2 * 2), crc_bit-double (a * 2 * 2), crc_bit-double (a * 2))
      (crc_bit-double a)

crc_bits-four : (c : ℕ) → crc_bits 4 c ≡ bit_xor (get_or crc32_lookup16 (c % 16) 0) (c / 16)
crc_bits-four c =
    ap (λ x. crc_bits 4 x) (sym (bit_xor_split c))
    ∙ crc_bits-bit_xor 4 (c / 16 * 2 * 2 * 2 * 2) (c % 16)
    ∙ rw (crc_bits-quad (c / 16), crc_bits-low (c % 16) (omega arith))
        (bit_xor_comm (c / 16) (get_or crc32_lookup16 (c % 16) 0))

crc_bits-eight : (c : ℕ) → crc_bits 8 c ≡ crc_bits 4 (crc_bits 4 c)
unfolding crc_bits
crc_bits-eight c = refl

-- A line of the loop takes the low half of a byte.
crc_nibble-crc_bits : (c b : ℕ) → crc_nibble c b ≡ bit_xor (crc_bits 4 (bit_xor c b)) (b / 16)
unfolding crc_nibble
crc_nibble-crc_bits c b =
    let t = get_or crc32_lookup16 (bit_xor c b % 16) 0 in
    sym (
      rw (crc_bits-four (bit_xor c b), bit_xor_shift 4 c b)
        (bit_xor_assoc t (bit_xor (c / 16) (b / 16)) (b / 16)
          ∙ ap (λ x. bit_xor t x)
              (bit_xor_assoc (c / 16) (b / 16) (b / 16)
                ∙ rw (bit_xor_self (b / 16)) (bit_xor-zero (c / 16)))))

crc_byte : (c b : ℕ) → b < 256 → crc_nibble (crc_nibble c b) (b / 16) ≡ crc_bits 8 (bit_xor c b)
crc_byte c b h =
    crc_nibble-crc_bits (crc_nibble c b) (b / 16)
    ∙ rw
        (
          high b h,
          crc_nibble-crc_bits c b,
          bit_xor_assoc (crc_bits 4 (bit_xor c b)) (b / 16) (b / 16),
          bit_xor_self (b / 16),
          bit_xor-zero (crc_bits 4 (bit_xor c b)),
          bit_xor-zero (crc_bits 4 (crc_bits 4 (bit_xor c b))),
        )
        (sym (crc_bits-eight (bit_xor c b)))
  where
    high : (x : ℕ) → x < 256 → x / 16 / 16 ≡ 0
    high x lt = omega arith

crc_loop-crc_register :
    (bytes : List ℕ) (c : ℕ) → AllBytes bytes → crc_loop bytes c ≡ crc_register bytes c
unfolding crc_loop crc_register
crc_loop-crc_register [] c h = refl
crc_loop-crc_register (b ∷ bytes) c h =
    ap (λ x. crc_loop bytes x) (crc_byte c b h.0)
    ∙ crc_loop-crc_register bytes (crc_bits 8 (bit_xor c b)) h.1

-- The checksum of bytes is the complement of the register that the division of polynomials, one
-- digit at a time, leaves from a register of ones.
pub crc32-crc_register :
    (bytes : List ℕ) → AllBytes bytes → crc32 bytes ≡ 0xffffffff - crc_register bytes 0xffffffff
unfolding crc32
crc32-crc_register bytes h = ap (λ c. 0xffffffff - c) (crc_loop-crc_register bytes 0xffffffff h)
