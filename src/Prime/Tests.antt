-- ===== src/Prime/Tests.antt =====
-- Runs of the functions of gu/prime.c.
use libpgf.Prelude.{inl, inr, ℕ, ◌<◌, ◌%◌, ◌≡◌, ◌≢◌, ◌⊎◌, arith, true, false, ok, refl, ◌≤◌}
use libpgf.Prime.Trial.{is_wheel_prime-divisors}
use libpgf.Prime.Primality.{IsPrime, is_prime-Prime}
use libpgf.Prime.Twins.{
  IsTwin, GreatestTwin, LeastTwin, twin_prime_inf-GreatestTwin, twin_prime_sup-LeastTwin,
}
use libpgf.Prime.{is_prime, is_wheel_prime, prime_inf, prime_sup, twin_prime_inf, twin_prime_sup}

-- 961 is 31 times 31.
square : is_prime 961 ≡ ok false
unfolding is_prime
square = refl

above : prime_sup 40 110 ≡ ok 113
unfolding prime_sup
above = refl

below : prime_inf 40 126 ≡ ok 113
unfolding prime_inf
below = refl

twin_above : twin_prime_sup 40 100 ≡ ok 103
unfolding twin_prime_sup
twin_above = refl

twin_below : twin_prime_inf 40 100 ≡ ok 73
unfolding twin_prime_inf
twin_below = refl

is_wheel_prime-divisors_example :
    ((is_wheel_prime 97 ≡ ok true) × ((k : ℕ) → 1 < k → k < 97 → 97 % k ≢ 0))
    ⊎ ((is_wheel_prime 97 ≡ ok false) × ((k : ℕ) × (1 < k) × (k < 97) × (97 % k ≡ 0)))
is_wheel_prime-divisors_example =
    is_wheel_prime-divisors 97 (omega arith) (omega arith) (omega arith, omega arith, omega arith)

is_prime-Prime_example :
    ((is_prime 91 ≡ ok true) × IsPrime 91) ⊎ ((is_prime 91 ≡ ok false) × ¬ IsPrime 91)
is_prime-Prime_example = is_prime-Prime 91 (omega arith)

-- 101 and 103 are primes.
IsPrime-103 : IsPrime 103
unfolding is_prime
IsPrime-103 = elim (is_prime-Prime 103 (omega arith)) [ inl h ↦ h.1 | inr h ↦ absurd (cc (h.0)) ]

IsPrime-101 : IsPrime 101
unfolding is_prime
IsPrime-101 = elim (is_prime-Prime 101 (omega arith)) [ inl h ↦ h.1 | inr h ↦ absurd (cc (h.0)) ]

twin_prime_inf-GreatestTwin_example :
    ((twin_prime_inf 101 100 ≡ ok 0) × ((q : ℕ) → q ≤ 100 → ¬ IsTwin q))
    ⊎ ((p : ℕ) × (twin_prime_inf 101 100 ≡ ok p) × GreatestTwin 100 p)
twin_prime_inf-GreatestTwin_example =
    twin_prime_inf-GreatestTwin 100 100 (omega arith) (omega arith)

twin_prime_sup-LeastTwin_example : (p : ℕ) × (twin_prime_sup 10 98 ≡ ok p) × LeastTwin 98 p
twin_prime_sup-LeastTwin_example =
    twin_prime_sup-LeastTwin 10 98 103 (IsPrime-103, IsPrime-101) (omega arith) (omega arith)
      (omega arith)
