-- ===== src/Graycode/Code.antt =====
-- The code of application/libbase/graycode.c and its inverse.
use or1k_spartan6_platform_x.Base.{
  ℕ, zero, suc, ◌+◌, ◌*◌, ◌/◌, ◌%◌, ◌^◌, ◌<◌, ◌≤◌, ◌≡◌, inl, inr, ap, sym, ◌∙◌, arith, some, ◌==◌,
  ==_iff, bit_xor, Bool-cases,
}
use native.Mathlib.Nat.{pow-suc}
use or1k_spartan6_platform_x.Base.Xor.{
  bit_xor-div, bit_xor-mod, bit_xor_assoc, bit_xor_self, bit_xor_swap, bit_xor-zero, zero-bit_xor,
  bit_xor-lt,
}
use or1k_spartan6_platform_x.Graycode.{bin2gray, gray_loop, gray2bin}

bin2gray-div : (n : ℕ) → bin2gray n / 2 ≡ bin2gray (n / 2)
unfolding bin2gray
bin2gray-div n = bit_xor-div n (n / 2)

-- A pass of the loop takes a code to the code of half the number, and its number back.
bin2gray_back : (n : ℕ) → bit_xor (bin2gray n) (n / 2) ≡ n
unfolding bin2gray
bin2gray_back n =
    bit_xor_assoc n (n / 2) (n / 2) ∙ ap (λ x. bit_xor n x) (bit_xor_self (n / 2)) ∙ bit_xor-zero n

bin2gray-eq-zero : (n : ℕ) → bin2gray n ≡ 0 → n ≡ 0
bin2gray-eq-zero n h =
    let half : n / 2 ≡ n =
      sym (zero-bit_xor (n / 2)) ∙ ap (λ x. bit_xor x (n / 2)) (sym h) ∙ bin2gray_back n in
    omega arith

gray_loop-bin2gray :
    (fuel n bin : ℕ) → n < 2 ^ fuel → gray_loop fuel (bin2gray n) bin ≡ some (bit_xor bin n)
unfolding gray_loop bin2gray
gray_loop-bin2gray zero n bin h =
    let nil : n ≡ 0 = omega arith in rw (nil) (ap some (sym (bit_xor-zero bin)))
gray_loop-bin2gray (suc fuel) n bin h =
    let twice : 2 ^ suc fuel ≡ 2 ^ fuel * 2 = pow-suc 2 fuel in
    elim (Bool-cases (bin2gray n == 0)) [
      | inl e ↦
          let nil = bin2gray-eq-zero n ((==_iff (bin2gray n) 0).0 e) in
          rw (e, nil) (ap some (sym (bit_xor-zero bin)))
      | inr e ↦
          rw
            (
              e,
              bin2gray-div n,
              gray_loop-bin2gray fuel (n / 2) (bit_xor bin (bin2gray n)) (omega (arith, twice)),
            )
            (ap some
              (bit_xor_assoc bin (bin2gray n) (n / 2) ∙ ap (λ x. bit_xor bin x) (bin2gray_back n)))
    ]

-- Decoding a code gives its number back, in 32 passes at most.
pub gray2bin-bin2gray : (n : ℕ) → n < 2 ^ 32 → gray2bin (bin2gray n) ≡ some n
unfolding gray2bin
gray2bin-bin2gray n h = gray_loop-bin2gray 32 n 0 h ∙ ap some (zero-bit_xor n)

gray_loop-found :
    (fuel g bin : ℕ)
    → g < 2 ^ fuel
    → (n : ℕ) × (gray_loop fuel g bin ≡ some (bit_xor bin n)) × (bin2gray n ≡ g) × (n < 2 ^ fuel)
unfolding gray_loop bin2gray
gray_loop-found zero g bin h =
    let nil : g ≡ 0 = omega arith in
    (0, rw (nil) (ap some (sym (bit_xor-zero bin))), omega arith, omega arith)
gray_loop-found (suc fuel) g bin h =
    let twice : 2 ^ suc fuel ≡ 2 ^ fuel * 2 = pow-suc 2 fuel in
    let (m, run, code, small) =
      gray_loop-found fuel (g / 2) (bit_xor bin g) (omega (arith, twice)) in
    elim (Bool-cases (g == 0)) [
      | inl e ↦
          let nil : g ≡ 0 = (==_iff g 0).0 e in
          (0, rw (e) (ap some (sym (bit_xor-zero bin))), omega arith, omega (arith, twice))
      | inr e ↦ (
        bit_xor g m,
        rw (e) (run ∙ ap some (bit_xor_assoc bin g m)),
        whole m code,
        bit_xor-lt (suc fuel) g m h (omega (arith, twice)),
      )
    ]
  where
    whole : (m : ℕ) → bit_xor m (m / 2) ≡ g / 2 → bit_xor (bit_xor g m) (bit_xor g m / 2) ≡ g
    whole m code =
        ap (λ x. bit_xor (bit_xor g m) x) (bit_xor-div g m)
        ∙ bit_xor_swap g m (g / 2) (m / 2)
        ∙ ap (λ x. bit_xor (bit_xor g (g / 2)) x) code
        ∙ bit_xor_assoc g (g / 2) (g / 2)
        ∙ ap (λ x. bit_xor g x) (bit_xor_self (g / 2))
        ∙ bit_xor-zero g

-- Every 32-bit word is the code of the 32-bit number that decoding gives.
pub bin2gray-gray2bin :
    (g : ℕ) → g < 2 ^ 32 → (n : ℕ) × (gray2bin g ≡ some n) × (bin2gray n ≡ g) × (n < 2 ^ 32)
unfolding gray2bin
bin2gray-gray2bin g h =
    let (n, run, code, small) = gray_loop-found 32 g 0 h in
    (n, run ∙ ap some (zero-bit_xor n), code, small)

bin2gray-mod : (n : ℕ) → bin2gray n % 2 ≡ (n % 2 + n / 2 % 2) % 2
unfolding bin2gray
bin2gray-mod n = bit_xor-mod n (n / 2)

bin2gray_same_half : (n : ℕ) → n % 2 ≡ 0 → bit_xor (bin2gray n) (bin2gray (n + 1)) ≡ 1
bin2gray_same_half n even =
    let x = bit_xor (bin2gray n) (bin2gray (n + 1)) in
    let half : (n + 1) / 2 ≡ n / 2 = omega arith in
    let high : x / 2 ≡ 0 =
      bit_xor-div (bin2gray n) (bin2gray (n + 1))
      ∙ rw (bin2gray-div n, bin2gray-div (n + 1), half) (bit_xor_self (bin2gray (n / 2))) in
    let low = bit_xor-mod (bin2gray n) (bin2gray (n + 1)) in
    omega (arith, high, low, bin2gray-mod n, bin2gray-mod (n + 1))

neighbours_fuel :
    (fuel n : ℕ) → n ≤ fuel → (k : ℕ) × (bit_xor (bin2gray n) (bin2gray (n + 1)) ≡ 2 ^ k)
neighbours_fuel zero n h = (0, bin2gray_same_half n (omega arith))
neighbours_fuel (suc fuel) n h = elim (Bool-cases (n % 2 == 0)) [
  | inl e ↦ (0, bin2gray_same_half n ((==_iff (n % 2) 0).0 e))
  | inr e ↦
      let odd : n % 2 ≡ 1 = ground arith in
      let (k, half) = neighbours_fuel fuel (n / 2) (omega arith) in
      let next : (n + 1) / 2 ≡ n / 2 + 1 = omega arith in
      let high =
        bit_xor-div (bin2gray n) (bin2gray (n + 1))
        ∙ ap (λ x. bit_xor x (bin2gray (n + 1) / 2)) (bin2gray-div n)
        ∙ ap (λ x. bit_xor (bin2gray (n / 2)) x) (bin2gray-div (n + 1) ∙ ap bin2gray next)
        ∙ half in
      let low = bit_xor-mod (bin2gray n) (bin2gray (n + 1)) in
      (suc k, omega (arith, high, low, bin2gray-mod n, bin2gray-mod (n + 1), pow-suc 2 k))
]

-- The codes of neighbouring numbers differ in one binary digit.
pub bin2gray-neighbours : (n : ℕ) → (k : ℕ) × (bit_xor (bin2gray n) (bin2gray (n + 1)) ≡ 2 ^ k)
bin2gray-neighbours n = neighbours_fuel n n (omega arith)
