-- ===== src/Prime/Wheel.antt =====
-- Trial division on the wheel of gu/prime.c.
use libpgf.Prelude.{
  ℕ, zero, suc, ◌+◌, ◌-◌, ◌*◌, ◌/◌, ◌%◌, ◌≤◌, ◌<◌, ◌≡◌, ◌≢◌, refl, sym, ap, ◌∙◌, arith, Bool, true,
  false, ◌&&◌, ◌||◌, ◌==◌, Bool-cases, inl, inr, agree, eq_below, not,
}
use native.Mathlib.Nat.{dvd_trans, mod-eq-zero_of_dvd, dvd_of_mod-eq-zero}
use libpgf.Prime.{wheel_mask, in_mask, wheel_round}

-- A round that finds a divisor has one among its numbers.
pub round-divides :
    (n u d i : ℕ)
    → wheel_round n u d i ≡ true
    → (k : ℕ) × (d + i ≤ k) × (k < d + i + 2 * n) × (u % k ≡ 0)
unfolding wheel_round
round-divides zero u d i h = absurd (cc (h))
round-divides (suc n) u d i h = elim (Bool-cases (in_mask wheel_mask i && u % (d + i) == 0)) [
  | inl here ↦ (d + i, omega arith, omega arith, ground arith)
  | inr there ↦
      let (k, lo, hi, divides) = round-divides n u d (i + 2) (ground arith) in
      (k, omega (arith, lo), omega (arith, hi), divides)
]

left_false : (w t r : Bool) → (w && t) || r ≡ false → w ≡ true → t ≡ false
left_false true true r h w = absurd (cc (h))
left_false true false r h w = refl
left_false false t r h w = absurd (cc (w))

right_false : (x r : Bool) → x || r ≡ false → r ≡ false
right_false true r h = absurd (cc (h))
right_false false r h = h

-- A round that finds none has no divisor among its numbers on the wheel.
round-misses :
    (n u d i j m : ℕ)
    → wheel_round n u d i ≡ false
    → j < n
    → m ≡ i + 2 * j
    → in_mask wheel_mask m ≡ true
    → u % (d + m) ≢ 0
unfolding wheel_round
round-misses zero u d i j m h lt e w = absurd (omega (arith, lt))
round-misses (suc n) u d i zero m h lt e w =
    let same : i ≡ m = omega (arith, e) in
    let no : u % (d + i) == 0 ≡ false =
      left_false (in_mask wheel_mask i) (u % (d + i) == 0) (wheel_round n u d (i + 2)) h
        (rw same w) in
    rw (sym same) (ground (arith, no))
round-misses (suc n) u d i (suc j) m h lt e w =
    round-misses n u d (i + 2) j m (right_false (in_mask wheel_mask i && u % (d + i) == 0) _ h)
      (omega (arith, lt)) (omega (arith, e)) w

-- The remainders by 30 of the numbers that 2, 3 and 5 do not divide are on the wheel.
abbrev pub bit : Bool → ℕ
bit true = 1
bit false = 0

abbrev pub coprime : ℕ → Bool
coprime r = not (r % 2 == 0) && not (r % 3 == 0) && not (r % 5 == 0)

pub coprime_wheel : (r : ℕ) → r < 30 → bit (in_mask wheel_mask r) ≡ bit (coprime r)
unfolding in_mask agree
coprime_wheel r lt = eq_below 30 (λ r. bit (in_mask wheel_mask r)) (λ r. bit (coprime r)) r refl lt

pub set_bit : (b : Bool) → bit b ≡ 1 → b ≡ true
set_bit true h = refl
set_bit false h = absurd (omega (arith, h))

divides-divides : (p k u : ℕ) → u % k ≡ 0 → k % p ≡ 0 → u % p ≡ 0
divides-divides p k u a b =
    mod-eq-zero_of_dvd p (dvd_trans p (dvd_of_mod-eq-zero p b) (dvd_of_mod-eq-zero k a))

-- A divisor of a number that 2, 3 and 5 do not divide is on the wheel.
divisor-on_wheel :
    (u q r : ℕ)
    → u % 2 ≢ 0
    → u % 3 ≢ 0
    → u % 5 ≢ 0
    → r < 30
    → u % (30 * q + r) ≡ 0
    → (in_mask wheel_mask r ≡ true) × (r % 2 ≡ 1)
divisor-on_wheel u q r two three five lt d =
    let k = 30 * q + r in
    let a : k % 2 ≢ 0 = λ z. two (divides-divides 2 k u d z) in
    let b : k % 3 ≢ 0 = λ z. three (divides-divides 3 k u d z) in
    let c : k % 5 ≢ 0 = λ z. five (divides-divides 5 k u d z) in
    let a' : r % 2 ≢ 0 = omega (arith, a) in
    let b' : r % 3 ≢ 0 = omega (arith, b) in
    let c' : r % 5 ≢ 0 = omega (arith, c) in
    let one : coprime r ≡ true = ground (arith, a', b', c') in
    (set_bit (in_mask wheel_mask r) (coprime_wheel r lt ∙ ap bit one), omega (arith, a'))

-- Past a round that finds none, no number up to the next is a divisor.
pub round-covers :
    (u q k : ℕ)
    → u % 2 ≢ 0
    → u % 3 ≢ 0
    → u % 5 ≢ 0
    → wheel_round 15 u (30 * q) 1 ≡ false
    → 30 * q ≤ k
    → k < 30 * q + 30
    → u % k ≢ 0
round-covers u q k two three five h lo hi d =
    let r = k - 30 * q in
    let whole : k ≡ 30 * q + r = omega (arith, lo) in
    let at : u % (30 * q + r) ≡ 0 = ap (λ n. u % n) (sym whole) ∙ d in
    let (w, odd) = divisor-on_wheel u q r two three five (omega (arith, lo, hi)) at in
    round-misses 15 u (30 * q) 1 (r / 2) r h (omega (arith, lo, hi)) (omega (arith, odd)) w at

-- The first round does so from 2 on.
pub first-covers :
    (u k : ℕ)
    → u % 2 ≢ 0
    → u % 3 ≢ 0
    → u % 5 ≢ 0
    → wheel_round 12 u 0 7 ≡ false
    → 1 < k
    → k < 30
    → u % k ≢ 0
first-covers u k two three five h lo hi d =
    let at : u % (30 * 0 + k) ≡ 0 = ap (λ n. u % n) {x = 30 * 0 + k} {y = k} (omega arith) ∙ d in
    let (w, odd) = divisor-on_wheel u 0 k two three five hi at in
    let a : k % 3 ≢ 0 = λ z. three (divides-divides 3 k u d z) in
    let b : k % 5 ≢ 0 = λ z. five (divides-divides 5 k u d z) in
    round-misses 12 u 0 7 ((k - 7) / 2) k h (omega (arith, hi)) (omega (arith, odd, lo, a, b)) w
      (ap (λ n. u % n) {x = 0 + k} {y = k} (omega arith) ∙ d)
