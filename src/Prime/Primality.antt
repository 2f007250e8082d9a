-- ===== src/Prime/Primality.antt =====
-- gu_is_prime of gu/prime.c: primality in the whole range.
use libpgf.Prelude.{
  ℕ, zero, suc, ◌%◌, ◌≤◌, ◌<◌, ◌≡◌, ◌≢◌, refl, ap, ◌∙◌, arith, Bool, true, false, ◌&&◌, ◌||◌, not,
  ltb, ◌==◌, ok, Bool-cases, inl, inr, ◌⊎◌, agree, eq_below, lt→ltb, ltb→lt, ltb→le,
}
use libpgf.Prime.{
  wheel_mask, small_prime_mask, in_mask, prime_wheel, is_wheel_prime, on_wheel, is_prime,
}
use libpgf.Prime.Wheel.{bit, coprime, coprime_wheel}
use libpgf.Prime.Trial.{is_wheel_prime-divisors}

abbrev pub IsPrime : ℕ → Type 0
IsPrime p = (1 < p) × ((k : ℕ) → 1 < k → k < p → p % k ≢ 0)

-- The first number for which gu_is_wheel_prime may overflow: 46320 * 46320.
abbrev pub limit : ℕ
limit = 2145542400

-- No number from 2 to below `k` divides `i`.
abbrev tried : ℕ → ℕ → Bool
tried i zero = true
tried i (suc k) = (ltb k 2 || not (i % k == 0)) && tried i k

tried_sound : (i n k : ℕ) → tried i n ≡ true → 1 < k → k < n → i % k ≢ 0
tried_sound i zero k h one lt = absurd (omega (arith, lt))
tried_sound i (suc n) k h one lt = ground (arith, tried_sound i n k)

tried_complete : (i n : ℕ) → ((k : ℕ) → 1 < k → k < n → i % k ≢ 0) → tried i n ≡ true
tried_complete i zero h = refl
tried_complete i (suc n) h =
    ground (arith, tried_complete i n (λ k one lt. h k one (omega (arith, lt))), h n)

small_table : (i : ℕ) → i < 32 → bit (in_mask small_prime_mask i) ≡ bit (ltb 1 i && tried i i)
unfolding in_mask agree
small_table i lt =
    eq_below 32 (λ i. bit (in_mask small_prime_mask i)) (λ i. bit (ltb 1 i && tried i i)) i refl lt

both : (a b : Bool) → a && b ≡ true → (a ≡ true) × (b ≡ true)
both true true h = (refl, refl)
both true false h = absurd (cc (h))
both false b h = absurd (cc (h))

bit_inj : (a b : Bool) → bit a ≡ bit b → a ≡ b
bit_inj true true h = refl
bit_inj false false h = refl
bit_inj true false h = absurd (omega (arith, h))
bit_inj false true h = absurd (omega (arith, h))

-- The small primes are those of the mask.
pub small-Prime :
    (i : ℕ)
    → i < 32
    → ((in_mask small_prime_mask i ≡ true) × IsPrime i)
      ⊎ ((in_mask small_prime_mask i ≡ false) × ¬ IsPrime i)
small-Prime i lt =
    let table = bit_inj (in_mask small_prime_mask i) (ltb 1 i && tried i i) (small_table i lt) in
    elim (Bool-cases (ltb 1 i && tried i i)) [
      | inl yes' ↦
          let (one, rest) = both (ltb 1 i) (tried i i) yes' in
          inl (table ∙ yes', (ltb→lt 1 i one, λ k a b. tried_sound i i k rest a b))
      | inr no' ↦ inr (table ∙ no', λ p. prime_not i p no')
    ]
  where
    prime_not : (i : ℕ) → IsPrime i → ltb 1 i && tried i i ≡ false → ⊥
    prime_not i p h = cc (h, lt→ltb 1 i p.0, tried_complete i i p.1)

module _ (d : ℕ) (lo : 30 ≤ d) (hi : d < limit) where
  on_wheel_in : in_mask wheel_mask (d % 30) ≡ true → on_wheel (d % 30) d ≡ is_wheel_prime d
  unfolding on_wheel prime_wheel
  on_wheel_in w = rw (lt→ltb (d % 30) 30 (omega arith), w)

  on_wheel_out : in_mask wheel_mask (d % 30) ≡ false → on_wheel (d % 30) d ≡ ok false
  unfolding on_wheel prime_wheel
  on_wheel_out w = rw (lt→ltb (d % 30) 30 (omega arith), w)

  composite_out : coprime (d % 30) ≡ false → ¬ IsPrime d
  composite_out h p =
      let two : d % 2 ≢ 0 = p.1 2 (omega arith) (omega (arith, lo)) in
      let three : d % 3 ≢ 0 = p.1 3 (omega arith) (omega (arith, lo)) in
      let five : d % 5 ≢ 0 = p.1 5 (omega arith) (omega (arith, lo)) in
      let a : d % 30 % 2 ≢ 0 = omega (arith, two) in
      let b : d % 30 % 3 ≢ 0 = omega (arith, three) in
      let c : d % 30 % 5 ≢ 0 = omega (arith, five) in ground (arith, a, b, c, h)

  pub on_wheel-Prime :
      ((on_wheel (d % 30) d ≡ ok true) × IsPrime d)
      ⊎ ((on_wheel (d % 30) d ≡ ok false) × ¬ IsPrime d)
  on_wheel-Prime =
      let r = d % 30 in
      let table = bit_inj (in_mask wheel_mask r) (coprime r) (coprime_wheel r (omega arith)) in
      elim (Bool-cases (coprime r)) [
        | inr out ↦ inr (on_wheel_out (table ∙ out), composite_out out)
        | inl inside ↦
            let a : d % 2 ≢ 0 = ground (arith, inside) in
            let b : d % 3 ≢ 0 = ground (arith, inside) in
            let c : d % 5 ≢ 0 = ground (arith, inside) in
            let run = on_wheel_in (table ∙ inside) in
            elim (is_wheel_prime-divisors d (omega (arith, lo, a)) hi (a, b, c)) [
              | inl (answer, none_below) ↦ inl (run ∙ answer, (omega (arith, lo), none_below))
              | inr (answer, (k, one, lt, divides)) ↦ inr (run ∙ answer, λ p. p.1 k one lt divides)
            ]
      ]

-- Below the limit gu_is_prime ends, without an assertion or an overflow, and tells whether its
-- argument is prime.
pub is_prime-Prime :
    (i : ℕ)
    → i < limit
    → ((is_prime i ≡ ok true) × IsPrime i) ⊎ ((is_prime i ≡ ok false) × ¬ IsPrime i)
unfolding is_prime
is_prime-Prime i hi = elim (Bool-cases (ltb i 2)) [
  | inl low ↦ inr (rw low, λ p. omega (arith, p.0, ltb→lt i 2 low))
  | inr two ↦ rw two elim (Bool-cases (ltb i 30)) [
    | inl small ↦ rw small elim (small-Prime i (omega (arith, ltb→lt i 30 small))) [
      | inl (m, p) ↦ inl (ap ok m, p)
      | inr (m, p) ↦ inr (ap ok m, p)
    ]
    | inr large ↦ rw large (on_wheel-Prime i (ltb→le i 30 large) hi)
  ]
]
