-- ===== src/HwMath/Product.antt =====
-- The multiplication of application/libhw/__mulsi3.c by the unit of hdl/soc/hw_math.v.
use or1k_spartan6_platform_x.Base.{
  ℕ, zero, suc, ◌*◌, ◌%◌, ◌<◌, ◌≡◌, refl, ap, ◌∙◌, arith, none, some, u32,
}
use native.Mathlib.Nat.{mul_comm}
use or1k_spartan6_platform_x.HwMath.{Unit32, clock, idle, mulsi3}

idle-product :
    (n : ℕ) (u : Unit32)
    → ((idle (suc n) u).product ≡ u32 (u.a * u.b)) × ((idle n u).a ≡ u.a) × ((idle n u).b ≡ u.b)
unfolding idle clock
idle-product zero u = (refl, refl, refl)
idle-product (suc n) u = idle-product n (clock none u)

-- The product of two words, modulo 2^32, is read if a clock edge lies between the second write and
-- the read, whatever the unit held.
pub mulsi3-mul : (n a b : ℕ) (u : Unit32) → 0 < n → mulsi3 n a b u ≡ (a * b) % 4294967296
unfolding mulsi3 clock
mulsi3-mul zero a b u h = absurd (omega arith)
mulsi3-mul (suc n) a b u h =
    let first = clock (some (2, a)) u in
    let second = clock (some (2, b)) (idle (suc n) first) in
    (idle-product n second).0
    ∙ ap (λ x. u32 (b * x)) (idle-product (suc n) first).1
    ∙ ap u32 (mul_comm b a)
