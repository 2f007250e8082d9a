-- ===== src/Prelude/Tables.antt =====
-- Two functions that agree on all numbers of a small range, checked by evaluation.
use Prim.Native.Nat.{ℕ, zero, suc, ◌<◌}
use mathlib.Core.Path.{◌≡◌}
use mathlib.Core.Bool.{Bool, true, ◌&&◌}
use native.Mathlib.Omega.{arith}
use libpgf.Prelude.Tests.{◌==◌, ==_iff}

unfoldable pub agree : (ℕ → ℕ) → (ℕ → ℕ) → ℕ → Bool
agree f g zero = true
agree f g (suc n) = agree f g n && f n == g n

pub eq_below : (n : ℕ) (f g : ℕ → ℕ) (x : ℕ) → agree f g n ≡ true → x < n → f x ≡ g x
unfolding agree
eq_below zero f g x table below = absurd (omega (arith, below))
eq_below (suc n) f g x table below = grind (arith, eq_below n f g x, ==_iff (f n) (g n))
