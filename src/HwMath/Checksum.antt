-- ===== src/HwMath/Checksum.antt =====
-- The checksum of the unit of hdl/soc/hw_math.v is that of the table in application/libhw/crc32.c.
use or1k_spartan6_platform_x.Base.{
  ℕ, zero, suc, ◌-◌, ◌<◌, ◌≡◌, refl, ap, sym, ◌∙◌, arith, true, none, some, List, [], ◌∷◌, AllBytes,
  bit_xor,
}
use or1k_spartan6_platform_x.Base.Xor.{zero-bit_xor, bit_xor-zero, bit_xor_comm}
use or1k_spartan6_platform_x.Crc32.{crc32}
use or1k_spartan6_platform_x.Crc32.Bitwise.{
  crc_bit, crc_bits, crc_register, crc_bits-bit_xor, crc32-crc_register,
}
use or1k_spartan6_platform_x.HwMath.{
  taps, parity, assemble, next_crc32_d8, wires, down_from_7, down_from_31, Unit32, clock, idle,
  feed, crc32_res, crc32_hw,
}
use or1k_spartan6_platform_x.HwMath.Linear.{
  assemble-bit_xor, assemble-lt, wires-IsAdditive, IsAdditive, agree, agree_lem,
}

-- The register of the unit has the digits of the checksum's register in the opposite order.
abbrev mirror : ℕ → ℕ
mirror c = wires down_from_31 c

abbrev from_register : ℕ → ℕ
from_register c = mirror (assemble taps 0 c)

abbrev from_byte : ℕ → ℕ
from_byte b = mirror (assemble taps (wires down_from_7 b) 0)

from_register-IsAdditive : IsAdditive from_register
from_register-IsAdditive a b =
    ap mirror (assemble-bit_xor taps 0 0 a b)
    ∙ wires-IsAdditive down_from_31 (assemble taps 0 a) (assemble taps 0 b)

from_byte-IsAdditive : IsAdditive from_byte
from_byte-IsAdditive a b =
    ap (λ x. mirror (assemble taps x 0)) (wires-IsAdditive down_from_7 a b)
    ∙ ap mirror (assemble-bit_xor taps (wires down_from_7 a) (wires down_from_7 b) 0 0)
    ∙ wires-IsAdditive down_from_31 (assemble taps (wires down_from_7 a) 0)
        (assemble taps (wires down_from_7 b) 0)

mirror_bits-IsAdditive : IsAdditive (λ c. crc_bits 8 (mirror c))
mirror_bits-IsAdditive a b =
    ap (λ x. crc_bits 8 x) (wires-IsAdditive down_from_31 a b)
    ∙ crc_bits-bit_xor 8 (mirror a) (mirror b)

register_table : agree 32 from_register (λ c. crc_bits 8 (mirror c)) ≡ true
unfolding agree assemble parity wires crc_bits crc_bit
register_table = refl

byte_table : agree 8 from_byte (crc_bits 8) ≡ true
unfolding agree assemble parity wires crc_bits crc_bit
byte_table = refl

from_register-eq : (c : ℕ) → c < 4294967296 → from_register c ≡ crc_bits 8 (mirror c)
from_register-eq c h =
    agree_lem 32 from_register (λ x. crc_bits 8 (mirror x)) c from_register-IsAdditive
      mirror_bits-IsAdditive register_table (omega arith)

from_byte-eq : (b : ℕ) → b < 256 → from_byte b ≡ crc_bits 8 b
from_byte-eq b h =
    agree_lem 8 from_byte (crc_bits 8) b from_byte-IsAdditive (crc_bits-bit_xor 8) byte_table
      (omega arith)

-- A byte that the unit takes is eight steps of the division.
next_crc32_d8-crc_bits :
    (b c : ℕ)
    → b < 256
    → c < 4294967296
    → mirror (next_crc32_d8 (wires down_from_7 b) c) ≡ crc_bits 8 (bit_xor (mirror c) b)
unfolding next_crc32_d8
next_crc32_d8-crc_bits b c hb hc =
    let d = wires down_from_7 b in
    ap (λ x. mirror (assemble taps x c)) (sym (bit_xor-zero d))
    ∙ ap (λ x. mirror (assemble taps (bit_xor d 0) x)) (sym (zero-bit_xor c))
    ∙ ap mirror (assemble-bit_xor taps d 0 0 c)
    ∙ wires-IsAdditive down_from_31 (assemble taps d 0) (assemble taps 0 c)
    ∙ bit_xor_comm (from_byte b) (from_register c)
    ∙ ap (λ x. bit_xor x (from_byte b)) (from_register-eq c hc)
    ∙ ap (λ x. bit_xor (crc_bits 8 (mirror c)) x) (from_byte-eq b hb)
    ∙ sym (crc_bits-bit_xor 8 (mirror c) b)

next_crc32_d8-lt : (d c : ℕ) → next_crc32_d8 d c < 4294967296
unfolding next_crc32_d8
next_crc32_d8-lt d c = assemble-lt taps d c

idle-crc : (n : ℕ) (u : Unit32) → (idle n u).crc ≡ u.crc
unfolding idle clock
idle-crc zero u = refl
idle-crc (suc n) u = idle-crc n (clock none u)

written :
    (b : ℕ) (u : Unit32) → (clock (some (0, b)) u).crc ≡ next_crc32_d8 (wires down_from_7 b) u.crc
unfolding clock
written b u = refl

restarted : (u : Unit32) → (clock (some (1, 1)) u).crc ≡ 0xffffffff
unfolding clock
restarted u = refl

ones : mirror 0xffffffff ≡ 0xffffffff
unfolding wires
ones = refl

feed-crc_register :
    (n : ℕ) (bytes : List ℕ) (u : Unit32)
    → AllBytes bytes
    → u.crc < 4294967296
    → mirror (feed n bytes u).crc ≡ crc_register bytes (mirror u.crc)
unfolding feed crc_register
feed-crc_register n [] u h small = refl
feed-crc_register n (b ∷ bytes) u h small =
    let v = clock (some (0, b)) u in
    let e : (idle n v).crc ≡ next_crc32_d8 (wires down_from_7 b) u.crc =
      idle-crc n v ∙ written b u in
    feed-crc_register n bytes (idle n v) h.1
      (omega (arith, e, next_crc32_d8-lt (wires down_from_7 b) u.crc))
    ∙ ap (λ x. crc_register bytes (mirror x)) e
    ∙ ap (λ x. crc_register bytes x) (next_crc32_d8-crc_bits b u.crc h.0 small)

-- The variant of crc32 that feeds the unit gives the checksum of the table-driven function, whatever
-- the unit held and however many clock edges lie between the accesses, for bytes.
pub crc32_hw-crc32 :
    (n : ℕ) (bytes : List ℕ) (u : Unit32) → AllBytes bytes → crc32_hw n bytes u ≡ crc32 bytes
unfolding crc32_hw crc32_res
crc32_hw-crc32 n bytes u h =
    let e : (idle n (clock (some (1, 1)) u)).crc ≡ 0xffffffff =
      idle-crc n (clock (some (1, 1)) u) ∙ restarted u in
    ap (λ x. 0xffffffff - x)
      (feed-crc_register n bytes (idle n (clock (some (1, 1)) u)) h (omega (arith, e))
        ∙ ap (λ x. crc_register bytes (mirror x)) e
        ∙ ap (λ x. crc_register bytes x) ones)
    ∙ sym (crc32-crc_register bytes h)
