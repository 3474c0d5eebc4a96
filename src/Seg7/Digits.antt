-- ===== src/Seg7/Digits.antt =====
-- What the display of application/libhw/seg7_display.c shows of a number.
use or1k_spartan6_platform_x.Base.{
  ℕ, zero, suc, ◌+◌, ◌*◌, ◌/◌, ◌%◌, ◌^◌, ◌<◌, ◌≡◌, ◌≢◌, refl, arith, Bool, true, false, ◌==◌,
  if◌then◌else◌,
}
use or1k_spartan6_platform_x.Seg7.{
  seg7_char2seg7code, find_letter, hex_digit, seg7_num2segment, seg7_set_segment_data,
  seg7_get_segment_data, put_loop, seg7_put_str, seg7_dp_get, seg7_dp_set, seg7_print_hex,
  Registers,
}

-- The code of a hexadecimal digit.
abbrev pub code : ℕ → ℕ
code d = seg7_char2seg7code (hex_digit d)

-- The digit that a pattern shows.
abbrev pub digit_of : ℕ → ℕ
digit_of c =
    if c == 63
    then 0
    else if c == 6
    then 1
    else if c == 91
    then 2
    else if c == 79
    then 3
    else if c == 102
    then 4
    else if c == 109
    then 5
    else if c == 125
    then 6
    else if c == 7
    then 7
    else if c == 127
    then 8
    else if c == 111
    then 9
    else if c == 119
    then 10
    else if c == 124
    then 11
    else if c == 88
    then 12
    else if c == 94
    then 13
    else if c == 121
    then 14
    else 15

digit_of-code : (d : ℕ) → d < 16 → digit_of (code d) ≡ d
unfolding seg7_char2seg7code hex_digit find_letter
digit_of-code zero h = refl
digit_of-code (suc zero) h = refl
digit_of-code (suc (suc zero)) h = refl
digit_of-code (suc (suc (suc zero))) h = refl
digit_of-code (suc (suc (suc (suc zero)))) h = refl
digit_of-code (suc (suc (suc (suc (suc zero))))) h = refl
digit_of-code (suc (suc (suc (suc (suc (suc zero)))))) h = refl
digit_of-code (suc (suc (suc (suc (suc (suc (suc zero))))))) h = refl
digit_of-code (suc (suc (suc (suc (suc (suc (suc (suc zero)))))))) h = refl
digit_of-code (suc (suc (suc (suc (suc (suc (suc (suc (suc zero))))))))) h = refl
digit_of-code (suc (suc (suc (suc (suc (suc (suc (suc (suc (suc zero)))))))))) h = refl
digit_of-code (suc (suc (suc (suc (suc (suc (suc (suc (suc (suc (suc zero))))))))))) h = refl
digit_of-code (suc (suc (suc (suc (suc (suc (suc (suc (suc (suc (suc (suc zero)))))))))))) h = refl
digit_of-code (suc (suc (suc (suc (suc (suc (suc (suc (suc (suc (suc (suc (suc zero))))))))))))) h =
    refl
digit_of-code
      (suc (suc (suc (suc (suc (suc (suc (suc (suc (suc (suc (suc (suc (suc zero)))))))))))))) h =
    refl
digit_of-code
      (suc (suc (suc (suc (suc (suc (suc (suc (suc (suc (suc (suc (suc (suc (suc zero)))))))))))))))
      h =
    refl
digit_of-code
      (suc
        (suc (suc (suc (suc (suc (suc (suc (suc (suc (suc (suc (suc (suc (suc (suc d))))))))))))))))
      h =
    absurd (omega arith)

-- The register of segment `i` behind `seg7_printHex`.
abbrev pub shown : ℕ → ℕ → ℕ → Registers → ℕ
shown base i value r = seg7_print_hex base value r (seg7_num2segment base i)

print_hex-codes :
    (base value : ℕ) (r : Registers)
    → (shown base 0 value r ≡ code (value / 2 ^ 12 % 16))
      × (shown base 1 value r ≡ code (value / 2 ^ 8 % 16))
      × (shown base 2 value r ≡ code (value / 2 ^ 4 % 16))
      × (shown base 3 value r ≡ code (value % 16))
unfolding seg7_print_hex seg7_put_str put_loop seg7_set_segment_data seg7_num2segment
print_hex-codes base value r = (ground arith, ground arith, ground arith, ground arith)

-- A number below 2^16 is read back from the four patterns that `seg7_printHex` leaves, the first
-- one highest.
pub digit_of-print_hex :
    (base value : ℕ) (r : Registers)
    → value < 2 ^ 16
    → ((digit_of (shown base 0 value r) * 16 + digit_of (shown base 1 value r)) * 16
            + digit_of (shown base 2 value r))
          * 16
        + digit_of (shown base 3 value r)
      ≡ value
digit_of-print_hex base value r h =
    let c = print_hex-codes base value r in
    rw
      (
        c.0,
        c.1,
        c.2,
        c.3,
        digit_of-code (value / 2 ^ 12 % 16) (omega arith),
        digit_of-code (value / 2 ^ 8 % 16) (omega arith),
        digit_of-code (value / 2 ^ 4 % 16) (omega arith),
        digit_of-code (value % 16) (omega arith),
      )
      (omega arith)

-- Setting the decimal point of a segment shows it as asked, keeps the segment's other bits and no
-- other register changes.
pub dp_get-dp_set :
    (segment a : ℕ) (on : Bool) (r : Registers)
    → a ≢ segment
    → (seg7_dp_get segment (seg7_dp_set segment on r) ≡ on)
      × (seg7_dp_set segment on r segment % 128 ≡ r segment % 128)
      × (seg7_dp_set segment on r a ≡ r a)
unfolding seg7_dp_get seg7_dp_set seg7_set_segment_data seg7_get_segment_data
dp_get-dp_set segment a true r ne = (ground arith, ground arith, ground arith)
dp_get-dp_set segment a false r ne = (ground arith, ground arith, ground arith)
