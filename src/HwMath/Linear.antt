-- ===== src/HwMath/Linear.antt =====
-- The digit sums of hdl/soc/hw_math.v are additive, and additive functions that agree on the powers of 2
-- agree.
use or1k_spartan6_platform_x.Base.{
  ℕ, zero, suc, ◌+◌, ◌*◌, ◌/◌, ◌%◌, ◌^◌, ◌<◌, ◌≡◌, refl, ap, sym, ◌∙◌, arith, Bool, true, ◌&&◌,
  List, [], ◌∷◌, length, ◌==◌, ==_iff, bit_xor,
}
use native.Mathlib.Nat.{pow-suc}
use or1k_spartan6_platform_x.Base.Xor.{
  bit_xor-div, bit_xor-mod, bit_xor_shift, bit_xor_self, bit_xor-zero,
}
use or1k_spartan6_platform_x.HwMath.{digit, parity, Tap, assemble, wires}

digit-bit_xor : (k a b : ℕ) → digit k (bit_xor a b) ≡ (digit k a + digit k b) % 2
digit-bit_xor k a b = ap (λ x. x % 2) (bit_xor_shift k a b) ∙ bit_xor-mod (a / 2 ^ k) (b / 2 ^ k)

parity-bit_xor : (ks : List ℕ) (a b : ℕ) → parity ks (bit_xor a b) ≡ (parity ks a + parity ks b) % 2
unfolding parity
parity-bit_xor [] a b = omega arith
parity-bit_xor (k ∷ ks) a b = omega (arith, digit-bit_xor k a b, parity-bit_xor ks a b)

-- Numbers are added digit by digit.
join-bit_xor :
    (x y p q : ℕ) → x < 2 → y < 2 → (x + y) % 2 + bit_xor p q * 2 ≡ bit_xor (x + p * 2) (y + q * 2)
join-bit_xor x y p q hx hy =
    let u = x + p * 2 in
    let v = y + q * 2 in
    let e : u / 2 ≡ p = omega arith in
    let f : v / 2 ≡ q = omega arith in
    omega (
      arith,
      bit_xor-mod u v,
      bit_xor-div u v ∙ ap (λ t. bit_xor t (v / 2)) e ∙ ap (λ t. bit_xor p t) f,
    )

double-bit_xor : (a b : ℕ) → bit_xor a b * 2 ≡ bit_xor (a * 2) (b * 2)
double-bit_xor a b =
    let e : 0 + a * 2 ≡ a * 2 = omega arith in
    let f : 0 + b * 2 ≡ b * 2 = omega arith in
    omega (
      arith,
      join-bit_xor 0 0 a b (omega arith) (omega arith)
          ∙ ap (λ t. bit_xor t (0 + b * 2)) e
          ∙ ap (λ t. bit_xor (a * 2) t) f,
    )

pub assemble-bit_xor :
    (ts : List Tap) (d d' c c' : ℕ)
    → assemble ts (bit_xor d d') (bit_xor c c') ≡ bit_xor (assemble ts d c) (assemble ts d' c')
unfolding assemble
assemble-bit_xor [] d d' c c' = refl
assemble-bit_xor (t ∷ ts) d d' c c' = omega (
  arith,
  parity-bit_xor t.d d d',
  parity-bit_xor t.c c c',
  assemble-bit_xor ts d d' c c',
  join-bit_xor ((parity t.d d + parity t.c c) % 2) ((parity t.d d' + parity t.c c') % 2)
      (assemble ts d c) (assemble ts d' c') (omega arith) (omega arith),
)

pub assemble-lt : (ts : List Tap) (d c : ℕ) → assemble ts d c < 2 ^ length ts
unfolding assemble
assemble-lt [] d c = omega arith
assemble-lt (t ∷ ts) d c = omega (arith, assemble-lt ts d c, pow-suc 2 (length ts))

abbrev pub IsAdditive : (ℕ → ℕ) → Type 0
IsAdditive f = (a b : ℕ) → f (bit_xor a b) ≡ bit_xor (f a) (f b)

pub wires-IsAdditive : (ks : List ℕ) → IsAdditive (wires ks)
unfolding wires
wires-IsAdditive [] a b = refl
wires-IsAdditive (k ∷ ks) a b = omega (
  arith,
  digit-bit_xor k a b,
  wires-IsAdditive ks a b,
  join-bit_xor (digit k a) (digit k b) (wires ks a) (wires ks b) (omega arith) (omega arith),
)

-- Whether two functions agree on the first `n` powers of 2.
unfoldable pub agree : ℕ → (ℕ → ℕ) → (ℕ → ℕ) → Bool
agree zero f g = true
agree (suc n) f g = f 1 == g 1 && agree n (λ x. f (x * 2)) (λ x. g (x * 2))

additive_zero : (f : ℕ → ℕ) → IsAdditive f → f 0 ≡ 0
additive_zero f h = h 0 0 ∙ bit_xor_self (f 0)

split_digit : (c : ℕ) → c ≡ bit_xor (c / 2 * 2) (c % 2)
split_digit c =
    let e : c / 2 * 2 / 2 ≡ c / 2 = omega arith in
    let f : c % 2 / 2 ≡ 0 = omega arith in
    omega (
      arith,
      bit_xor-mod (c / 2 * 2) (c % 2),
      bit_xor-div (c / 2 * 2) (c % 2)
          ∙ ap (λ t. bit_xor t (c % 2 / 2)) e
          ∙ ap (λ t. bit_xor (c / 2) t) f
          ∙ bit_xor-zero (c / 2),
    )

pub agree_lem :
    (n : ℕ) (f g : ℕ → ℕ) (c : ℕ)
    → IsAdditive f
    → IsAdditive g
    → agree n f g ≡ true
    → c < 2 ^ n
    → f c ≡ g c
unfolding agree
agree_lem zero f g c af ag same small =
    let e : c ≡ 0 = omega arith in rw (e, additive_zero f af, additive_zero g ag) refl
agree_lem (suc n) f g c af ag same small =
    let pw = pow-suc 2 n in
    let rest =
      agree_lem n (λ x. f (x * 2)) (λ x. g (x * 2)) (c / 2)
        (λ a b. ap f (double-bit_xor a b) ∙ af (a * 2) (b * 2))
        (λ a b. ap g (double-bit_xor a b) ∙ ag (a * 2) (b * 2)) (both (f 1 == g 1) _ same).1
        (omega (arith, pw)) in
    let low = lowest (c % 2) (omega arith) ((==_iff (f 1) (g 1)).0 (both (f 1 == g 1) _ same).0) in
    ap f (split_digit c)
    ∙ af (c / 2 * 2) (c % 2)
    ∙ rw (rest, low) refl
    ∙ sym (ag (c / 2 * 2) (c % 2))
    ∙ ap g (sym (split_digit c))
  where
    both : (p q : Bool) → (p && q) ≡ true → (p ≡ true) × (q ≡ true)
    both p q h = ground arith

    lowest : (b : ℕ) → b < 2 → f 1 ≡ g 1 → f b ≡ g b
    lowest zero lt e = additive_zero f af ∙ sym (additive_zero g ag)
    lowest (suc zero) lt e = e
    lowest (suc (suc b)) lt e = absurd (omega arith)
