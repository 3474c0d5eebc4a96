-- ===== src/Seg7.antt =====
-- application/libhw/seg7_display.c: the seven-segment display. Its registers are a function from
-- addresses to bytes, and the address of the first one comes from the memory map of the build.
pub mod Digits
use or1k_spartan6_platform_x.Base.{
  ℕ, zero, suc, ◌+◌, ◌-◌, ◌*◌, ◌/◌, ◌%◌, ◌^◌, Bool, true, false, ◌&&◌, List, [], ◌∷◌, ltb, leb,
  ◌==◌, if◌then◌else◌, get_or,
}

-- `sA` to `sG`, and `sDP`.
abbrev pub s_a : ℕ
s_a = 1

abbrev pub s_b : ℕ
s_b = 2

abbrev pub s_c : ℕ
s_c = 4

abbrev pub s_d : ℕ
s_d = 8

abbrev pub s_e : ℕ
s_e = 16

abbrev pub s_f : ℕ
s_f = 32

abbrev pub s_g : ℕ
s_g = 64

abbrev pub s_dp : ℕ
s_dp = 128

abbrev pub segment_count : ℕ
segment_count = 4

abbrev pub digit2seg7_code : List ℕ
digit2seg7_code =
    (s_a + s_b + s_c + s_d + s_e + s_f)
    ∷ (s_b + s_c)
    ∷ (s_a + s_b + s_d + s_e + s_g)
    ∷ (s_a + s_b + s_c + s_d + s_g)
    ∷ (s_b + s_c + s_f + s_g)
    ∷ (s_a + s_c + s_d + s_f + s_g)
    ∷ (s_a + s_c + s_d + s_e + s_f + s_g)
    ∷ (s_a + s_b + s_c)
    ∷ (s_a + s_b + s_c + s_d + s_e + s_f + s_g)
    ∷ (s_a + s_b + s_c + s_d + s_f + s_g)
    ∷ []

-- The cases of the `switch`.
abbrev pub letters : List (ℕ × ℕ)
letters =
    (b'A', s_a + s_b + s_c + s_e + s_f + s_g)
    ∷ (b'a', s_a + s_b + s_c + s_e + s_f + s_g)
    ∷ (b'B', s_c + s_d + s_e + s_f + s_g)
    ∷ (b'b', s_c + s_d + s_e + s_f + s_g)
    ∷ (b'C', s_a + s_d + s_e + s_f + s_g)
    ∷ (b'c', s_d + s_e + s_g)
    ∷ (b'D', s_b + s_c + s_d + s_e + s_g)
    ∷ (b'd', s_b + s_c + s_d + s_e + s_g)
    ∷ (b'E', s_a + s_d + s_e + s_f + s_g)
    ∷ (b'e', s_a + s_d + s_e + s_f + s_g)
    ∷ (b'F', s_a + s_e + s_f + s_g)
    ∷ (b'f', s_a + s_e + s_f + s_g)
    ∷ (b'G', get_or digit2seg7_code 9 0)
    ∷ (b'g', get_or digit2seg7_code 9 0)
    ∷ (b'H', s_b + s_c + s_e + s_f + s_g)
    ∷ (b'h', s_c + s_e + s_f + s_g)
    ∷ (b'I', get_or digit2seg7_code 1 0)
    ∷ (b'i', get_or digit2seg7_code 1 0)
    ∷ (b'J', s_b + s_c + s_d)
    ∷ (b'j', s_b + s_c + s_d)
    ∷ (b'L', s_d + s_e + s_f)
    ∷ (b'l', s_d + s_e + s_f)
    ∷ (b'N', s_c + s_e + s_g)
    ∷ (b'n', s_c + s_e + s_g)
    ∷ (b'O', get_or digit2seg7_code 0 0)
    ∷ (b'o', s_c + s_d + s_e + s_f)
    ∷ (b'P', s_a + s_b + s_e + s_f + s_g)
    ∷ (b'p', s_a + s_b + s_e + s_f + s_g)
    ∷ (b'Q', s_a + s_b + s_c + s_f + s_g)
    ∷ (b'q', s_a + s_b + s_c + s_f + s_g)
    ∷ (b'S', get_or digit2seg7_code 5 0)
    ∷ (b's', get_or digit2seg7_code 5 0)
    ∷ (b'T', s_d + s_e + s_f + s_g)
    ∷ (b't', s_d + s_e + s_f + s_g)
    ∷ (b'U', s_b + s_c + s_d + s_e + s_f)
    ∷ (b'u', s_c + s_d + s_e)
    ∷ (b'_', s_d)
    ∷ (b'-', s_g)
    ∷ []

unfoldable pub find_letter : ℕ → List (ℕ × ℕ) → ℕ
find_letter c [] = 0
find_letter c ((x, code) ∷ ls) = let rest = find_letter c ls in if c == x then code else rest

unfoldable pub seg7_char2seg7code : ℕ → ℕ
seg7_char2seg7code c =
    if leb b'0' c && leb c b'9'
    then get_or digit2seg7_code (c - b'0') 0
    else if leb c 9
    then get_or digit2seg7_code c 0
    else find_letter c letters

-- `_hex_char`.
unfoldable pub hex_digit : ℕ → ℕ
hex_digit d = if ltb d 10 then b'0' + d else b'a' + (d - 10)

abbrev pub Registers : Type 0
Registers = ℕ → ℕ

unfoldable pub seg7_set_segment_data : ℕ → ℕ → Registers → Registers
seg7_set_segment_data segment code r a = if a == segment then code else r a

unfoldable pub seg7_get_segment_data : ℕ → Registers → ℕ
seg7_get_segment_data segment r = r segment % 256

unfoldable pub seg7_dp_get : ℕ → Registers → Bool
seg7_dp_get segment r = r segment / s_dp % 2 == 1

unfoldable pub seg7_dp_set : ℕ → Bool → Registers → Registers
seg7_dp_set segment on r =
    let d = seg7_get_segment_data segment r in
    seg7_set_segment_data segment (if on then d % s_dp + s_dp else d % s_dp) r

module _ (base : ℕ) where
  unfoldable pub seg7_num2segment : ℕ → ℕ
  seg7_num2segment num = base + num * 4

  -- The rounds of `seg7_PutStr` from index `i`, with `left` rounds to go.
  unfoldable pub put_loop : List ℕ → ℕ → ℕ → ℕ → ℕ → Registers → Registers
  put_loop str size space zero i r = r
  put_loop str size space (suc left) i r =
      let c = if ltb i size then get_or str i 0 else space in
      put_loop str size space left (i + 1)
        (seg7_set_segment_data (seg7_num2segment i) (seg7_char2seg7code c) r)

  unfoldable pub seg7_put_str : List ℕ → ℕ → ℕ → Registers → Registers
  seg7_put_str str size space r = put_loop str size space segment_count 0 r

  -- `buf`: its element at `SEGMENT_COUNT - (i + 1)` is the digit at `4 * i`.
  abbrev pub hex_buffer : ℕ → List ℕ
  hex_buffer value =
      hex_digit (value / 2 ^ 12 % 16)
      ∷ hex_digit (value / 2 ^ 8 % 16)
      ∷ hex_digit (value / 2 ^ 4 % 16)
      ∷ hex_digit (value % 16)
      ∷ []

  unfoldable pub seg7_print_hex : ℕ → Registers → Registers
  seg7_print_hex value r = seg7_put_str (hex_buffer value) segment_count b' ' r
