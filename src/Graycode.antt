-- ===== src/Graycode.antt =====
-- application/libbase/graycode.c: Gray code of 32-bit words.
pub mod Code
use or1k_spartan6_platform_x.Base.{
  ℕ, zero, suc, ◌/◌, Bool, true, false, Option, none, some, ◌==◌, if◌then◌else◌, bit_xor,
}

unfoldable pub bin2gray : ℕ → ℕ
bin2gray g = bit_xor g (g / 2)

-- The loop of `gray2bin`, with fuel.
unfoldable pub gray_loop : ℕ → ℕ → ℕ → Option ℕ
gray_loop zero gray bin = if gray == 0 then some bin else none
gray_loop (suc fuel) gray bin =
    let rest = gray_loop fuel (gray / 2) (bit_xor bin gray) in if gray == 0 then some bin else rest

unfoldable pub gray2bin : ℕ → Option ℕ
gray2bin gray = gray_loop 32 gray 0
