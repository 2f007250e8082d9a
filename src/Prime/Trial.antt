-- ===== src/Prime/Trial.antt =====
-- The answer of gu_is_wheel_prime of gu/prime.c.
use libpgf.Prelude.{
  ℕ, zero, suc, ◌+◌, ◌*◌, ◌/◌, ◌%◌, ◌^◌, ◌≤◌, ◌<◌, ◌≡◌, ◌≢◌, refl, ap, ◌∙◌, arith, Bool, true,
  false, ◌&&◌, ltb, leb, ◌==◌, Run, ok, Bool-cases, inl, inr, ◌⊎◌, not,
}
use native.Mathlib.Nat.{
  mul-le-mul, mul-le-mul_right, div-add-mod, mul-mod_left, lt_of_mul-lt-mul_left,
}
use libpgf.Prime.{wheel_round, wheel_loop, after_first, is_wheel_prime}
use libpgf.Prime.Wheel.{round-divides, round-covers, first-covers}

-- No number of two or more with a square up to `u` divides `u`.
abbrev NoRoot : ℕ → Type 0
NoRoot u = (k : ℕ) → 1 < k → k * k ≤ u → u % k ≢ 0

abbrev pub Divisor : ℕ → Type 0
Divisor u = (k : ℕ) × (1 < k) × (k < u) × (u % k ≡ 0)

abbrev IsCoprime : ℕ → Type 0
IsCoprime u = (u % 2 ≢ 0) × (u % 3 ≢ 0) × (u % 5 ≢ 0)

loop_over :
    (n u d : ℕ)
    → ltb (d * d) (2 ^ 31) ≡ true
    → leb (d * d) u ≡ false
    → wheel_loop (suc n) u d ≡ ok true
unfolding wheel_loop
loop_over n u d a b = rw (a, b)

loop_hit :
    (n u d : ℕ)
    → ltb (d * d) (2 ^ 31) ≡ true
    → leb (d * d) u ≡ true
    → wheel_round 15 u d 1 ≡ true
    → wheel_loop (suc n) u d ≡ ok false
unfolding wheel_loop
loop_hit n u d a b c = rw (a, b, c)

loop_miss :
    (n u d : ℕ)
    → ltb (d * d) (2 ^ 31) ≡ true
    → leb (d * d) u ≡ true
    → wheel_round 15 u d 1 ≡ false
    → wheel_loop (suc n) u d ≡ wheel_loop n u (d + 30)
unfolding wheel_loop
loop_miss n u d a b c = rw (a, b, c)

no_overflow : (d : ℕ) → d ≤ 46320 → ltb (d * d) (2 ^ 31) ≡ true
no_overflow d h = ground (arith, mul-le-mul h h)

below_square : (d : ℕ) → 30 ≤ d → 30 * d ≤ d * d
below_square d h = mul-le-mul_right d h

square_below : (a b : ℕ) → a * a < b * b → a < b
square_below a b h = elim (Bool-cases (ltb a b)) [
  | inl less ↦ ground arith
  | inr more ↦ let ge : b ≤ a = ground arith in absurd (omega (arith, mul-le-mul ge ge))
]

-- The two answers, each with its reason.
abbrev Decides : Run Bool → ℕ → Type 0
Decides r u = ((r ≡ ok true) × NoRoot u) ⊎ ((r ≡ ok false) × Divisor u)

-- One round of the loop, where no number before it divides.
round-Decides :
    (n q u : ℕ)
    → 1 ≤ q
    → q ≤ 1544
    → ((k : ℕ) → 1 < k → k < 30 * q → u % k ≢ 0)
    → (leb (30 * q * (30 * q)) u ≡ true
        → wheel_round 15 u (30 * q) 1 ≡ false
        → Decides (wheel_loop n u (30 * q + 30)) u)
    → Decides (wheel_loop (suc n) u (30 * q)) u
round-Decides n q u lo hi before next =
    let d = 30 * q in
    let fits = no_overflow d (omega (arith, hi)) in
    let far = below_square d (omega (arith, lo)) in
    elim (Bool-cases (leb (d * d) u)) [
      | inr over ↦
          inl (
            loop_over n u d fits over,
            λ k one root. before k one (square_below k d (ground arith)),
          )
      | inl inside ↦ elim (Bool-cases (wheel_round 15 u d 1)) [
        | inl hit ↦
            let (k, above, below, divides) = round-divides 15 u d 1 hit in
            inr (
              loop_hit n u d fits inside hit,
              (k, omega (arith, above, lo), ground (arith, above, below, lo), divides),
            )
        | inr miss ↦ rw (loop_miss n u d fits inside miss) (next inside miss)
      ]
    ]

longer :
    (q u : ℕ)
    → IsCoprime u
    → wheel_round 15 u (30 * q) 1 ≡ false
    → ((k : ℕ) → 1 < k → k < 30 * q → u % k ≢ 0)
    → (k : ℕ) → 1 < k
    → k < 30 * suc q
    → u % k ≢ 0
longer q u co miss before k one lt = elim (Bool-cases (ltb k (30 * q))) [
  | inl less ↦ before k one (ground arith)
  | inr more ↦ round-covers u q k co.0 co.1 co.2 miss (ground arith) (omega (arith, lt))
]

-- A square up to `u` is that of less than 46320.
few : (q u : ℕ) → q ≤ 1544 → u < 2145542400 → leb (30 * q * (30 * q)) u ≡ true → suc q ≤ 1544
few q u hi small inside = elim (Bool-cases (ltb q 1544)) [
  | inl less ↦ ground arith
  | inr more ↦
      let last : q ≡ 1544 = ground arith in
      let top : 1544 ≤ q = omega (arith, last) in
      let wide : 30 * 1544 ≤ 30 * q = omega (arith, top) in
      absurd (ground (arith, mul-le-mul wide wide))
]

-- Enough rounds.
loop-Decides :
    (n q u : ℕ)
    → IsCoprime u
    → 1 ≤ q
    → q ≤ 1544
    → u < 2145542400
    → u < 30 * q + 30 * n
    → ((k : ℕ) → 1 < k → k < 30 * q → u % k ≢ 0)
    → Decides (wheel_loop (suc n) u (30 * q)) u
loop-Decides zero q u co lo hi small room before =
    round-Decides zero q u lo hi before
      (λ inside miss. absurd (ground (arith, below_square (30 * q) (omega (arith, lo)))))
loop-Decides (suc n) q u co lo hi small room before =
    round-Decides (suc n) q u lo hi before (λ inside miss.
      let count : 30 * q + 30 ≡ 30 * suc q = omega arith in
      rw count (
        loop-Decides n (suc q) u co (omega arith) (few q u hi small inside) small
          (omega (arith, room)) (longer q u co miss before)))

cofactor : (k m u : ℕ) → 0 < u → k < u → u ≡ k * m → 1 < m
cofactor k zero u pos lt e = absurd (omega (arith, e))
cofactor k (suc zero) u pos lt e = absurd (omega (arith, e))
cofactor k (suc (suc m)) u pos lt e = omega arith

entered :
    (u : ℕ)
    → ltb 30 u && not (u % 2 == 0) && not (u % 3 == 0) && not (u % 5 == 0) ≡ true
    → is_wheel_prime u ≡ after_first u (wheel_round 12 u 0 7)
unfolding is_wheel_prime
entered u guard = rw guard

-- The cofactor of a divisor with a large square has a small one.
no_divisor : (u : ℕ) → 0 < u → NoRoot u → (k : ℕ) → 1 < k → k < u → u % k ≢ 0
no_divisor u pos none_below k one lt d = elim (Bool-cases (leb (k * k) u)) [
  | inl root ↦ none_below k one (ground arith) d
  | inr large ↦
      let m = u / k in
      let whole : u ≡ k * m = omega (arith, div-add-mod u k, d) in
      let square : k * m < k * k = ground (arith, whole, large) in
      let less : m < k = lt_of_mul-lt-mul_left k square in
      let at_most : m ≤ k = omega (arith, less) in
      none_below m (cofactor k m u pos lt whole) (omega (arith, whole, mul-le-mul_right m at_most))
        (ap (λ n. n % m) whole ∙ mul-mod_left k m)
]

first-Decides :
    (u : ℕ)
    → 30 < u
    → u < 2145542400
    → IsCoprime u
    → (found : Bool) → wheel_round 12 u 0 7 ≡ found
    → Decides (after_first u found) u
unfolding after_first
first-Decides u lo small co true hit =
    let (k, above, below, divides) = round-divides 12 u 0 7 hit in
    inr (refl, (k, omega (arith, above), omega (arith, below, lo), divides))
first-Decides u lo small co false miss =
    loop-Decides u 1 u co (omega arith) (omega arith) small (omega arith)
      (λ k one below. first-covers u k co.0 co.1 co.2 miss one (omega (arith, below)))

-- For a number above 30 and below 46320 * 46320 that 2, 3 and 5 do not divide, gu_is_wheel_prime
-- ends without an assertion or an overflow, and tells whether the number is prime: either it returns
-- true and no number between 1 and it divides it, or it returns false and one does.
pub is_wheel_prime-divisors :
    (u : ℕ)
    → 30 < u
    → u < 2145542400
    → (u % 2 ≢ 0) × (u % 3 ≢ 0) × (u % 5 ≢ 0)
    → ((is_wheel_prime u ≡ ok true) × ((k : ℕ) → 1 < k → k < u → u % k ≢ 0))
      ⊎ ((is_wheel_prime u ≡ ok false) × ((k : ℕ) × (1 < k) × (k < u) × (u % k ≡ 0)))
is_wheel_prime-divisors u lo small co =
    let guard : ltb 30 u && not (u % 2 == 0) && not (u % 3 == 0) && not (u % 5 == 0) ≡ true =
      ground (arith, co.0, co.1, co.2) in
    let start = entered u guard in
    elim (first-Decides u lo small co (wheel_round 12 u 0 7) refl) [
      | inl (answer, root) ↦ inl (start ∙ answer, no_divisor u (omega (arith, lo)) root)
      | inr (answer, divisor) ↦ inr (start ∙ answer, divisor)
    ]
