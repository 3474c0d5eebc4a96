-- ===== src/Base/Below.antt =====
-- A finite table is checked by evaluation, and a number below its size is looked up in it.
use Prim.Native.Nat.{ℕ, zero, suc, ◌<◌}
use mathlib.Core.Path.{◌≡◌}
use mathlib.Core.Bool.{Bool, true, ◌&&◌}
use native.Mathlib.Omega.{arith}
use or1k_spartan6_platform_x.Base.Tests.{◌==◌}

unfoldable pub same_below : ℕ → (ℕ → ℕ) → (ℕ → ℕ) → Bool
same_below zero f g = true
same_below (suc n) f g = f n == g n && same_below n f g

pub same_below_lem : (n : ℕ) (f g : ℕ → ℕ) (k : ℕ) → same_below n f g ≡ true → k < n → f k ≡ g k
unfolding same_below
same_below_lem zero f g k h lt = absurd (omega arith)
same_below_lem (suc n) f g k h lt = ground (arith, same_below_lem n f g k)
