-- ===== src/Bcd/Laws.antt =====
-- application/libbase/bcd.c: the two conversions against the digits of a number.
use or1k_spartan6_platform_x.Base.{ℕ, ◌/◌, ◌%◌, ◌<◌, ◌≡◌, arith}
use or1k_spartan6_platform_x.Bcd.{u8_dec2bcd, u8_bcd2dec}

-- For `v` below 100, the encoded byte has the tens digit of `v` in its high half and the units
-- digit in its low half, and decoding that byte gives `v` back.
pub u8_bcd2dec-u8_dec2bcd :
    (v : ℕ)
    → v < 100
    → (u8_dec2bcd v / 16 ≡ v / 10) × (u8_dec2bcd v % 16 ≡ v % 10) × (u8_bcd2dec (u8_dec2bcd v) ≡ v)
unfolding u8_dec2bcd u8_bcd2dec
u8_bcd2dec-u8_dec2bcd v h = omega arith

-- Encoding the decoded value of a byte whose two halves are decimal digits gives the byte back.
pub u8_dec2bcd-u8_bcd2dec : (b : ℕ) → b / 16 < 10 → b % 16 < 10 → u8_dec2bcd (u8_bcd2dec b) ≡ b
unfolding u8_dec2bcd u8_bcd2dec
u8_dec2bcd-u8_bcd2dec b hi lo = omega arith
