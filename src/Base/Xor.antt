-- ===== src/Base/Xor.antt =====
-- Laws of the exclusive or of binary digits, which the native operation computes at numerals only.
use Prim.Native.Nat.{
  ℕ, zero, suc, ◌+◌, ◌*◌, ◌/◌, ◌%◌, ◌^◌, ◌≤◌, ◌<◌, bit_xor, digits, differ, bit_xor-bitwise,
}
use mathlib.Core.Path.{◌≡◌, refl, sym, ap, ◌∙◌}
use native.Mathlib.Omega.{arith}
use native.Mathlib.Nat.{pow-suc, div-div-eq-div-mul}

abbrev xor_digits : ℕ → ℕ → ℕ → ℕ
xor_digits n a b = digits (λ b. b) differ n a b

xor_digits_fuel : (n m a b : ℕ) → a ≤ n → a ≤ m → xor_digits n a b ≡ xor_digits m a b
xor_digits_fuel zero zero a b p q = refl
xor_digits_fuel zero (suc m) zero b p q = refl
xor_digits_fuel zero (suc m) (suc a) b p q = absurd (omega arith)
xor_digits_fuel (suc n) zero zero b p q = refl
xor_digits_fuel (suc n) zero (suc a) b p q = absurd (omega arith)
xor_digits_fuel (suc n) (suc m) zero b p q = refl
xor_digits_fuel (suc n) (suc m) (suc a) b p q =
    omega (arith, xor_digits_fuel n m (suc a / 2) (b / 2) (omega arith) (omega arith))

pub zero-bit_xor : (b : ℕ) → bit_xor 0 b ≡ b
zero-bit_xor b = bit_xor-bitwise 0 b

differ_digits : (x y : ℕ) → x < 2 → y < 2 → differ x y ≡ (x + y) % 2
differ_digits zero y hx hy = omega arith
differ_digits (suc zero) zero hx hy = refl
differ_digits (suc zero) (suc zero) hx hy = refl
differ_digits (suc zero) (suc (suc y)) hx hy = absurd (omega arith)
differ_digits (suc (suc x)) y hx hy = absurd (omega arith)

bit_xor_step : (a b : ℕ) → bit_xor a b ≡ bit_xor (a / 2) (b / 2) * 2 + (a % 2 + b % 2) % 2
bit_xor_step zero b = omega (arith, zero-bit_xor b, zero-bit_xor (b / 2))
bit_xor_step (suc a) b = omega (
  arith,
  bit_xor-bitwise (suc a) b,
  bit_xor-bitwise (suc a / 2) (b / 2),
  xor_digits_fuel a (suc a / 2) (suc a / 2) (b / 2) (omega arith) (omega arith),
  differ_digits (suc a % 2) (b % 2) (omega arith) (omega arith),
)

pub bit_xor-div : (a b : ℕ) → bit_xor a b / 2 ≡ bit_xor (a / 2) (b / 2)
bit_xor-div a b = omega (arith, bit_xor_step a b)

pub bit_xor-mod : (a b : ℕ) → bit_xor a b % 2 ≡ (a % 2 + b % 2) % 2
bit_xor-mod a b = omega (arith, bit_xor_step a b)

-- Numbers with the same lowest digit and the same other digits.
halves : (a b : ℕ) → a / 2 ≡ b / 2 → a % 2 ≡ b % 2 → a ≡ b
halves a b p q = omega arith

xor_comm_fuel : (n a b : ℕ) → a ≤ n → b ≤ n → bit_xor a b ≡ bit_xor b a
xor_comm_fuel zero a b p q =
    let e : a ≡ 0 = omega arith in let f : b ≡ 0 = omega arith in rw (e, f) refl
xor_comm_fuel (suc n) a b p q = omega (
  arith,
  bit_xor_step a b,
  bit_xor_step b a,
  xor_comm_fuel n (a / 2) (b / 2) (omega arith) (omega arith),
)

pub bit_xor_comm : (a b : ℕ) → bit_xor a b ≡ bit_xor b a
bit_xor_comm a b = xor_comm_fuel (a + b) a b (omega arith) (omega arith)

pub bit_xor-zero : (a : ℕ) → bit_xor a 0 ≡ a
bit_xor-zero a = bit_xor_comm a 0 ∙ zero-bit_xor a

xor_assoc_fuel :
    (n a b c : ℕ) → a ≤ n → b ≤ n → c ≤ n → bit_xor (bit_xor a b) c ≡ bit_xor a (bit_xor b c)
xor_assoc_fuel zero a b c p q r =
    let e : a ≡ 0 = omega arith in
    let f : b ≡ 0 = omega arith in let g : c ≡ 0 = omega arith in rw (e, f, g) refl
xor_assoc_fuel (suc n) a b c p q r =
    halves (bit_xor (bit_xor a b) c) (bit_xor a (bit_xor b c))
      (bit_xor-div (bit_xor a b) c
        ∙ ap (λ x. bit_xor x (c / 2)) (bit_xor-div a b)
        ∙ xor_assoc_fuel n (a / 2) (b / 2) (c / 2) (omega arith) (omega arith) (omega arith)
        ∙ ap (λ x. bit_xor (a / 2) x) (sym (bit_xor-div b c))
        ∙ sym (bit_xor-div a (bit_xor b c)))
      (omega (
        arith,
        bit_xor-mod (bit_xor a b) c,
        bit_xor-mod a b,
        bit_xor-mod a (bit_xor b c),
        bit_xor-mod b c,
      ))

pub bit_xor_assoc : (a b c : ℕ) → bit_xor (bit_xor a b) c ≡ bit_xor a (bit_xor b c)
bit_xor_assoc a b c = xor_assoc_fuel (a + b + c) a b c (omega arith) (omega arith) (omega arith)

xor_self_fuel : (n a : ℕ) → a ≤ n → bit_xor a a ≡ 0
xor_self_fuel zero a p = let e : a ≡ 0 = omega arith in rw e refl
xor_self_fuel (suc n) a p = omega (arith, bit_xor_step a a, xor_self_fuel n (a / 2) (omega arith))

pub bit_xor_self : (a : ℕ) → bit_xor a a ≡ 0
bit_xor_self a = xor_self_fuel a a (omega arith)

-- Two sums are added pairwise.
pub bit_xor_swap :
    (a b c d : ℕ) → bit_xor (bit_xor a b) (bit_xor c d) ≡ bit_xor (bit_xor a c) (bit_xor b d)
bit_xor_swap a b c d =
    bit_xor_assoc a b (bit_xor c d)
    ∙ ap (λ x. bit_xor a x)
        (sym (bit_xor_assoc b c d) ∙ ap (λ x. bit_xor x d) (bit_xor_comm b c) ∙ bit_xor_assoc c b d)
    ∙ sym (bit_xor_assoc a c (bit_xor b d))

-- Words of `k` digits stay words of `k` digits.
pub bit_xor-lt : (k a b : ℕ) → a < 2 ^ k → b < 2 ^ k → bit_xor a b < 2 ^ k
bit_xor-lt zero a b p q =
    let e : a ≡ 0 = omega arith in let f : b ≡ 0 = omega arith in rw (e, f) (omega arith)
bit_xor-lt (suc k) a b p q =
    let e : 2 ^ suc k ≡ 2 ^ k * 2 = pow-suc 2 k in
    omega (
      arith,
      e,
      p,
      q,
      bit_xor_step a b,
      bit_xor-lt k (a / 2) (b / 2) (omega (arith, e, p)) (omega (arith, e, q)),
    )

div_pow : (a k : ℕ) → a / 2 ^ suc k ≡ a / 2 ^ k / 2
div_pow a k = rw (pow-suc 2 k) (sym (div-div-eq-div-mul a (2 ^ k) 2))

-- The digits above the lowest `k`.
pub bit_xor_shift : (k a b : ℕ) → bit_xor a b / 2 ^ k ≡ bit_xor (a / 2 ^ k) (b / 2 ^ k)
bit_xor_shift zero a b =
    omega (arith, ap (λ x. bit_xor x (b / 1)) (by_one a) ∙ ap (λ x. bit_xor a x) (by_one b))
  where
    by_one : (x : ℕ) → x / 1 ≡ x
    by_one x = omega arith
bit_xor_shift (suc k) a b =
    div_pow (bit_xor a b) k
    ∙ ap (λ x. x / 2) (bit_xor_shift k a b)
    ∙ bit_xor-div (a / 2 ^ k) (b / 2 ^ k)
    ∙ ap (λ x. bit_xor x (b / 2 ^ k / 2)) (sym (div_pow a k))
    ∙ ap (λ x. bit_xor (a / 2 ^ suc k) x) (sym (div_pow b k))

bit_xor-double : (a b : ℕ) → bit_xor (a * 2) b ≡ bit_xor a (b / 2) * 2 + b % 2
bit_xor-double a b = bit_xor_step (a * 2) b ∙ rw (half a) (omega arith)
  where
    half : (x : ℕ) → x * 2 / 2 ≡ x
    half x = omega arith

-- A number is the exclusive or of its digits above the lowest four and of these.
pub bit_xor_split : (a : ℕ) → bit_xor (a / 16 * 2 * 2 * 2 * 2) (a % 16) ≡ a
bit_xor_split a =
    let q = a / 16 in
    let r = a % 16 in
    omega (
      arith,
      bit_xor-double (q * 2 * 2 * 2) r,
      bit_xor-double (q * 2 * 2) (r / 2),
      bit_xor-double (q * 2) (r / 2 / 2),
      bit_xor-double q (r / 2 / 2 / 2),
      ap (λ x. bit_xor q x) (gone r (omega arith)),
      bit_xor-zero q,
    )
  where
    gone : (x : ℕ) → x < 16 → x / 2 / 2 / 2 / 2 ≡ 0
    gone x h = omega arith
