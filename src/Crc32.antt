-- ===== src/Crc32.antt =====
-- application/libhw/crc32.c: the checksum of frames and settings by a table of half bytes, which
-- `crc32` is where the hardware unit is not built in.
pub mod Bitwise
use or1k_spartan6_platform_x.Base.{ℕ, ◌-◌, ◌/◌, ◌%◌, List, [], ◌∷◌, get_or, bit_xor}

abbrev pub crc32_lookup16 : List ℕ
crc32_lookup16 =
    0x00000000 ∷ 0x1DB71064 ∷ 0x3B6E20C8 ∷ 0x26D930AC ∷ 0x76DC4190 ∷ 0x6B6B51F4 ∷ 0x4DB26158
    ∷ 0x5005713C ∷ 0xEDB88320 ∷ 0xF00F9344 ∷ 0xD6D6A3E8 ∷ 0xCB61B38C ∷ 0x9B64C2B0 ∷ 0x86D3D2D4
    ∷ 0xA00AE278 ∷ 0xBDBDF21C ∷ []

-- One line of the loop: `Crc32Lookup16[(crc ^ b) & 0x0F] ^ (crc >> 4)`.
unfoldable pub crc_nibble : ℕ → ℕ → ℕ
crc_nibble crc b = bit_xor (get_or crc32_lookup16 (bit_xor crc b % 16) 0) (crc / 16)

unfoldable pub crc_loop : List ℕ → ℕ → ℕ
crc_loop [] crc = crc
crc_loop (b ∷ bs) crc = crc_loop bs (crc_nibble (crc_nibble crc b) (b / 16))

-- `~crc` of a 32-bit word is its difference to the word of ones.
unfoldable pub crc32 : List ℕ → ℕ
crc32 bytes = 0xffffffff - crc_loop bytes 0xffffffff
