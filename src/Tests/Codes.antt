-- ===== src/Tests/Codes.antt =====
-- Checksums and Gray codes of concrete words.
use or1k_spartan6_platform_x.Base.{◌-◌, ◌≡◌, arith, some, [], ◌∷◌}
use or1k_spartan6_platform_x.Crc32.{crc32}
use or1k_spartan6_platform_x.Crc32.Bitwise.{crc_register, crc32-crc_register}
use or1k_spartan6_platform_x.Graycode.{bin2gray, gray2bin}
use or1k_spartan6_platform_x.Graycode.Code.{gray2bin-bin2gray}

-- The bytes of "abc".
crc32-crc_register_example :
    crc32 (97 ∷ 98 ∷ 99 ∷ []) ≡ 0xffffffff - crc_register (97 ∷ 98 ∷ 99 ∷ []) 0xffffffff
crc32-crc_register_example =
    crc32-crc_register (97 ∷ 98 ∷ 99 ∷ []) (omega arith, (omega arith, (omega arith, tt)))

gray2bin-bin2gray_example : gray2bin (bin2gray 1000) ≡ some 1000
gray2bin-bin2gray_example = gray2bin-bin2gray 1000 (omega arith)
