-- ===== src/Bcd.antt =====
-- application/libbase/bcd.c: two decimal digits in one byte.
pub mod Laws
use or1k_spartan6_platform_x.Base.{ℕ, ◌+◌, ◌-◌, ◌*◌, ◌/◌, u8, ◌>>>◌}

-- The product and the sum are of type `int`; the return casts to `uint8_t`.
unfoldable pub u8_dec2bcd : ℕ → ℕ
u8_dec2bcd val = u8 (val + 6 * (val / 10))

-- For a byte, `6 * (val >> 4)` is at most `val`'s own range, so 256 covers the wrap of the cast.
unfoldable pub u8_bcd2dec : ℕ → ℕ
u8_bcd2dec val = u8 (val + 256 - 6 * (val >>> 4))
