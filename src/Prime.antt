-- ===== src/Prime.antt =====
-- Primes for the sizes of hash tables: gu/prime.c. An `int` is a number below 2^31; where the
-- program's would be negative the model has 0, and says so.
pub mod Wheel
pub mod Trial
pub mod Primality
pub mod Search
pub mod Ascent
pub mod Twins
mod Tests
use libpgf.Prelude.{
  ℕ, zero, suc, ◌+◌, ◌-◌, ◌*◌, ◌/◌, ◌%◌, ◌^◌, bit_and, bit_or, Bool, true, false, ◌&&◌, ◌||◌, not,
  ltb, leb, ◌==◌, if◌then◌else◌, Run, ok, abort, stuck, ◌>>=◌, ◌>>◌, require,
}

-- Bits 1, 7, 11, 13, 17, 19, 23 and 29.
abbrev pub wheel_mask : ℕ
wheel_mask = 2 ^ 1 + 2 ^ 7 + 2 ^ 11 + 2 ^ 13 + 2 ^ 17 + 2 ^ 19 + 2 ^ 23 + 2 ^ 29

abbrev pub small_prime_mask : ℕ
small_prime_mask =
    2 ^ 2 + 2 ^ 3 + 2 ^ 5 + 2 ^ 7 + 2 ^ 11 + 2 ^ 13 + 2 ^ 17 + 2 ^ 19 + 2 ^ 23 + 2 ^ 29 + 2 ^ 31

unfoldable pub in_mask : ℕ → ℕ → Bool
in_mask mask i = not (bit_and mask (2 ^ i) == 0)

unfoldable pub prime_wheel : ℕ → Run Bool
unfolding in_mask
prime_wheel i = do require (ltb i 30); ok (in_mask wheel_mask i)

-- Whether one of `n` numbers from `d + i` on, by steps of 2, is on the wheel and divides `u`.
unfoldable pub wheel_round : ℕ → ℕ → ℕ → ℕ → Bool
unfolding in_mask
wheel_round zero u d i = false
wheel_round (suc n) u d i = (in_mask wheel_mask i && u % (d + i) == 0) || wheel_round n u d (i + 2)

-- `while (d * d <= u)`. A product beyond an `int` is undefined: `abort` here.
unfoldable pub wheel_loop : ℕ → ℕ → ℕ → Run Bool
unfolding wheel_round
wheel_loop zero u d = stuck
wheel_loop (suc fuel) u d =
    let rest = wheel_loop fuel u (d + 30) in
    require (ltb (d * d) (2 ^ 31))
    >> (if leb (d * d) u then (if wheel_round 15 u d 1 then ok false else rest) else ok true)

-- What follows the first round, which may have found a divisor.
unfoldable pub after_first : ℕ → Bool → Run Bool
unfolding wheel_loop
after_first u true = ok false
after_first u false = wheel_loop (suc u) u 30

-- The first round starts at 7, without the test of the loop.
unfoldable pub is_wheel_prime : ℕ → Run Bool
unfolding wheel_round after_first
is_wheel_prime u = do
  require (ltb 30 u && not (u % 2 == 0) && not (u % 3 == 0) && not (u % 5 == 0))
  after_first u (wheel_round 12 u 0 7)

-- `i--` and `i++` to a small prime.
unfoldable pub small_down : ℕ → ℕ → Run ℕ
unfolding in_mask
small_down zero i = stuck
small_down (suc fuel) i =
    let rest = small_down fuel (i - 1) in if in_mask small_prime_mask i then ok i else rest

unfoldable pub small_up : ℕ → ℕ → Run ℕ
unfolding in_mask
small_up zero i = stuck
small_up (suc fuel) i =
    let rest = small_up fuel (i + 1) in if in_mask small_prime_mask i then ok i else rest

-- `gu_prime_wheel(r) && gu_is_wheel_prime(d)`
unfoldable pub on_wheel : ℕ → ℕ → Run Bool
unfolding prime_wheel is_wheel_prime
on_wheel r d = prime_wheel r >>= λ w. if w then is_wheel_prime d else ok false

-- The remainder `r` goes down by 2, and up by 30 where it is negative.
unfoldable pub down_loop : ℕ → ℕ → ℕ → Run ℕ
unfolding on_wheel
down_loop zero d r = stuck
down_loop (suc fuel) d r =
    let rest = down_loop fuel (d - 2) (if ltb r 2 then r + 28 else r - 2) in
    on_wheel r d >>= λ p. if p then ok d else rest

unfoldable pub up_loop : ℕ → ℕ → ℕ → Run ℕ
unfolding on_wheel
up_loop zero d r = stuck
up_loop (suc fuel) d r =
    let rest = up_loop fuel (d + 2) (if ltb 30 (r + 2) then r + 2 - 30 else r + 2) in
    on_wheel r d >>= λ p. if p then ok d else rest

unfoldable pub prime_inf : ℕ → ℕ → Run ℕ
unfolding small_down down_loop
prime_inf fuel i =
    if ltb i 2
    then ok 0
    else if ltb i 32
    then small_down fuel i
    else down_loop fuel (bit_or (i - 1) 1) (bit_or (i - 1) 1 % 30)

unfoldable pub prime_sup : ℕ → ℕ → Run ℕ
unfolding small_up up_loop
prime_sup fuel i =
    if leb i 2
    then ok 2
    else if ltb i 32
    then small_up fuel i
    else up_loop fuel (bit_or i 1) (bit_or i 1 % 30)

unfoldable pub is_prime : ℕ → Run Bool
unfolding in_mask on_wheel
is_prime i =
    if ltb i 2
    then ok false
    else if ltb i 30
    then ok (in_mask small_prime_mask i)
    else on_wheel (i % 30) i

-- A number below 2 has no twin: `i - 2` is negative, and no prime.
unfoldable pub is_twin_prime : ℕ → Run Bool
unfolding is_prime
is_twin_prime i = is_prime i >>= λ p. if p then is_prime (i - 2) else ok false

unfoldable pub twin_prime_inf : ℕ → ℕ → Run ℕ
unfolding prime_inf is_prime
twin_prime_inf zero i = stuck
twin_prime_inf (suc fuel) i = prime_inf (suc fuel) i >>= λ p.
    if p == 0
    then ok 0
    else (is_prime (p - 2) >>= λ twin. elim (twin) [
      | true ↦ ok p
      | false ↦ twin_prime_inf fuel (p - 4)
    ])

unfoldable pub twin_sup_loop : ℕ → ℕ → Run ℕ
unfolding prime_sup is_prime
twin_sup_loop zero i = stuck
twin_sup_loop (suc fuel) i = prime_sup (suc fuel) i >>= λ p. is_prime (p + 2) >>= λ twin.
    elim (twin) [ true ↦ ok (p + 2) | false ↦ twin_sup_loop fuel (p + 4) ]

unfoldable pub twin_prime_sup : ℕ → ℕ → Run ℕ
unfolding twin_sup_loop
twin_prime_sup fuel i = if leb i 5 then ok 5 else twin_sup_loop fuel (i - 2)
