-- ===== src/Prelude/Bits.antt =====
-- `bit_and` and `bit_or` against arithmetic, for every width, by recursion on the binary digits.
use Prim.Native.Nat.{
  ℕ, zero, suc, ◌+◌, ◌-◌, ◌*◌, ◌/◌, ◌%◌, ◌^◌, ◌≤◌, ◌<◌, min, max, bit_and, bit_or, digits,
  bit_and-bitwise, bit_or-bitwise,
}
use mathlib.Core.Path.{◌≡◌, refl, ◌∙◌, ap}
use native.Mathlib.Nat.{
  two-pow-succ, one-le-pow, add-mul-mod_self_left, mod-eq_of_lt, mod-lt, div-add-mod,
}
use native.Mathlib.Omega.{arith}

-- One more round than the number's size does not change a digit-wise operation, hence no more do.
module _ (z : ℕ → ℕ) (f : ℕ → ℕ → ℕ) where
  deeper : (n : ℕ) (a b : ℕ) → a ≤ n → digits z f (suc n) a b ≡ digits z f n a b
  deeper n zero b small = elim n as (λ n. digits z f (suc n) 0 b ≡ digits z f n 0 b) [
    | zero ↦ refl
    | suc _ ↦ refl
  ]
  deeper zero (suc a) b small = absurd (omega (arith, small))
  deeper (suc n) (suc a) b small =
      ap (λ low. low * 2 + f (suc a % 2) (b % 2)) (deeper n (suc a / 2) (b / 2) (omega arith))

  settled : (d n m : ℕ) → m ≡ d + n → (a b : ℕ) → a ≤ n → digits z f m a b ≡ digits z f n a b
  settled zero n m e a b small = ap (λ rounds. digits z f rounds a b) (omega (arith, e))
  settled (suc d) n zero e a b small = absurd (omega (arith, e))
  settled (suc d) n (suc m) e a b small =
      deeper m a b (omega (arith, e)) ∙ settled d n m (omega (arith, e)) a b small

  module _ (out : (b : ℕ) → z b ≡ z (b / 2) * 2 + f 0 (b % 2)) where
    digits_step :
        (a b : ℕ) → digits z f a a b ≡ digits z f (a / 2) (a / 2) (b / 2) * 2 + f (a % 2) (b % 2)
    digits_step zero b = out b
    digits_step (suc a) b =
        let h = suc a / 2 in
        let same = settled (a - h) h a (omega arith) h (b / 2) (omega arith) in
        ap (λ low. low * 2 + f (suc a % 2) (b % 2)) same

bit_and_step : (a b : ℕ) → bit_and a b ≡ bit_and (a / 2) (b / 2) * 2 + min (a % 2) (b % 2)
bit_and_step a b = omega (
  arith,
  bit_and-bitwise a b,
  bit_and-bitwise (a / 2) (b / 2),
  digits_step (λ b. zero) min (λ b. omega arith) a b,
)

bit_or_step : (a b : ℕ) → bit_or a b ≡ bit_or (a / 2) (b / 2) * 2 + max (a % 2) (b % 2)
bit_or_step a b = omega (
  arith,
  bit_or-bitwise a b,
  bit_or-bitwise (a / 2) (b / 2),
  digits_step (λ b. b) max (λ b. omega arith) a b,
)

zero-bit_or : (b : ℕ) → bit_or 0 b ≡ b
zero-bit_or b = bit_or-bitwise 0 b

bit_and-zero : (n a : ℕ) → a ≤ n → bit_and a 0 ≡ 0
bit_and-zero n zero h = refl
bit_and-zero zero (suc a) h = absurd (omega arith)
bit_and-zero (suc n) (suc a) h =
    omega (arith, bit_and_step (suc a) 0, bit_and-zero n (suc a / 2) (omega arith))

bit_or-zero : (n a : ℕ) → a ≤ n → bit_or a 0 ≡ a
bit_or-zero n zero h = refl
bit_or-zero zero (suc a) h = absurd (omega arith)
bit_or-zero (suc n) (suc a) h =
    omega (arith, bit_or_step (suc a) 0, bit_or-zero n (suc a / 2) (omega arith))

mod_double : (a p : ℕ) → 0 < p → a % (p + p) ≡ a / 2 % p * 2 + a % 2
mod_double a p h =
    ap (λ t. t % (p + p)) split
    ∙ add-mul-mod_self_left (a / 2 % p * 2 + a % 2) (p + p) (a / 2 / p)
    ∙ mod-eq_of_lt (omega (arith, mod-lt (a / 2) h))
  where
    split : a ≡ a / 2 % p * 2 + a % 2 + (p + p) * (a / 2 / p)
    split = omega (arith, div-add-mod (a / 2) p)

-- `x & (2^k - 1)` is `x % 2^k`.
pub bit_and-mask : (k a : ℕ) → bit_and a (2 ^ k - 1) ≡ a % 2 ^ k
bit_and-mask zero a = omega (arith, bit_and-zero a a (omega arith))
bit_and-mask (suc k) a =
    let p = 2 ^ k in
    let one_le : 1 ≤ p = one-le-pow k 2 (omega arith) in
    let half : (2 ^ suc k - 1) / 2 ≡ p - 1 = omega (arith, two-pow-succ k) in
    let odd : (2 ^ suc k - 1) % 2 ≡ 1 = omega (arith, two-pow-succ k) in
    bit_and_step a (2 ^ suc k - 1)
    ∙ rw (half, odd, bit_and-mask k (a / 2), two-pow-succ k, mod_double a p one_le) (omega arith)

-- `a << k | b` for a `b` below `2^k` is a sum.
pub bit_or-disjoint : (k a b : ℕ) → b < 2 ^ k → bit_or (a * 2 ^ k) b ≡ a * 2 ^ k + b
bit_or-disjoint zero a b h =
    let none_left : b ≡ 0 = omega arith in
    let once : a * 2 ^ 0 ≡ a = omega arith in
    rw (none_left, once) (omega (arith, bit_or-zero a a (omega arith)))
bit_or-disjoint (suc k) a b h =
    let double : a * 2 ^ suc k ≡ a * 2 ^ k * 2 = omega (arith, ap (λ t. a * t) (two-pow-succ k)) in
    let half : a * 2 ^ suc k / 2 ≡ a * 2 ^ k = omega arith in
    let even : a * 2 ^ suc k % 2 ≡ 0 = omega arith in
    bit_or_step (a * 2 ^ suc k) b
    ∙ rw (half, even, bit_or-disjoint k a (b / 2) (omega (arith, two-pow-succ k))) (omega arith)

-- `a | 1` is the odd one of `a` and the next.
pub bit_or-one : (a : ℕ) → bit_or a 1 ≡ a / 2 * 2 + 1
bit_or-one a = omega (arith, bit_or_step a 1, bit_or-zero (a / 2) (a / 2) (omega arith))
