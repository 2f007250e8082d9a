-- ===== src/Prime/Ascent.antt =====
-- The upward search of gu/prime.c, which ends where a prime is to come.
use libpgf.Prelude.{
  ℕ, zero, suc, ◌+◌, ◌-◌, ◌%◌, ◌≤◌, ◌<◌, ◌≡◌, sym, arith, ltb, leb, ◌==◌, ok, Bool-cases, inl, inr,
  ◌⊎◌, bit_or, if◌then◌else◌, ltb→lt, ltb→le,
}
use libpgf.Prelude.Bits.{bit_or-one}
use libpgf.Prime.{small_up, up_loop, prime_sup}
use libpgf.Prime.Primality.{IsPrime, limit, small-Prime, on_wheel-Prime}
use libpgf.Prime.Search.{even_not, IsPrime-31}

-- The least prime from `i` on.
abbrev pub Least : ℕ → ℕ → Type 0
Least i p = IsPrime p × (i ≤ p) × ((q : ℕ) → i ≤ q → q < p → ¬ IsPrime q)

pub prime_odd : (p : ℕ) → 2 < p → IsPrime p → p % 2 ≡ 1
prime_odd p lt h = elim (Bool-cases (p % 2 == 0)) [
  | inl even ↦ absurd (even_not p lt (ground (arith, even)) h)
  | inr odd ↦ ground (arith, odd)
]

itself : (i : ℕ) → IsPrime i → Least i i
itself i p = (p, omega arith, λ q ge lt. absurd (omega (arith, ge, lt)))

-- What is least from `j` on is so from `i` on where no prime lies between.
widen : (i j p : ℕ) → i ≤ j → ((q : ℕ) → i ≤ q → q < j → ¬ IsPrime q) → Least j p → Least i p
widen i j p le gap l = (
  l.0,
  omega (arith, le, l.1),
  λ q ge lt. elim (Bool-cases (ltb q j)) [
    | inl before ↦ gap q ge (ltb→lt q j before)
    | inr past ↦ l.2 q (ltb→le q j past) lt
  ],
)

-- Past a number that is not prime, a prime from it on is still to come.
still : (i q : ℕ) → ¬ IsPrime i → IsPrime q → i ≤ q → i < q
still i q np p le = elim (Bool-cases (ltb i q)) [
  | inl lt ↦ ltb→lt i q lt
  | inr ge ↦ (let same : q ≡ i = omega (arith, le, ltb→le i q ge) in absurd (np (rw (sym same) p)))
]

-- The primes of the mask, where one below 32 is to come.
small_up-Least :
    (fuel i q : ℕ)
    → IsPrime q
    → i ≤ q
    → q < 32
    → q < i + fuel
    → (p : ℕ) × (small_up fuel i ≡ ok p) × Least i p
unfolding small_up
small_up-Least zero i q pq le hi enough = absurd (omega (arith, le, enough))
small_up-Least (suc fuel) i q pq le hi enough = elim (small-Prime i (omega (arith, le, hi))) [
  | inl (m, p) ↦ (i, rw m, itself i p)
  | inr (m, np) ↦
      let lt = still i q np pq le in
      let (p, run, l) =
        small_up-Least fuel (i + 1) q pq (omega (arith, lt)) hi (omega (arith, enough)) in
      (
        p,
        rw m run,
        widen i (i + 1) p (omega arith)
            (λ r ge lt'. let same : r ≡ i = omega (arith, ge, lt') in λ h. np (rw (sym same) h)) l,
      )
]

next_up :
    (d : ℕ)
    → d % 2 ≡ 1
    → (if ltb 30 (d % 30 + 2) then d % 30 + 2 - 30 else d % 30 + 2) ≡ (d + 2) % 30
next_up d odd = elim (Bool-cases (ltb 30 (d % 30 + 2))) [
  | inl over ↦ rw over (omega (arith, odd, ltb→lt 30 (d % 30 + 2) over))
  | inr under ↦ rw under (omega (arith, odd, ltb→le 30 (d % 30 + 2) under))
]

up_loop-Least :
    (fuel d q : ℕ)
    → 31 ≤ d
    → d % 2 ≡ 1
    → IsPrime q
    → d ≤ q
    → q < limit
    → q < d + fuel
    → (p : ℕ) × (up_loop fuel d (d % 30) ≡ ok p) × Least d p
unfolding up_loop
up_loop-Least zero d q lo odd pq le hi enough = absurd (omega (arith, le, enough))
up_loop-Least (suc fuel) d q lo odd pq le hi enough =
    elim (on_wheel-Prime d (omega (arith, lo)) (omega (arith, le, hi))) [
      | inl (run, p) ↦ (d, rw run, itself d p)
      | inr (run, np) ↦
          let lt = still d q np pq le in
          let more : d + 2 ≤ q = omega (arith, lt, odd, prime_odd q (omega (arith, lo, lt)) pq) in
          let (p, next, l) =
            up_loop-Least fuel (d + 2) q (omega (arith, lo)) (omega (arith, odd)) pq more hi
              (omega (arith, enough)) in
          (p, rw (run, next_up d odd) next, widen d (d + 2) p (omega arith) (gap d lo odd np) l)
    ]
  where
    gap : (d : ℕ) → 31 ≤ d → d % 2 ≡ 1 → ¬ IsPrime d → (r : ℕ) → d ≤ r → r < d + 2 → ¬ IsPrime r
    gap d lo odd np r ge lt h = elim (Bool-cases (r == d)) [
      | inl e ↦ (let same : r ≡ d = ground (arith, e) in np (rw (sym same) h))
      | inr ne ↦
          let after : r ≡ d + 1 = ground (arith, ne, ge, lt) in
          even_not r (omega (arith, after, lo)) (omega (arith, after, odd)) h
    ]

two-IsPrime : IsPrime 2
two-IsPrime = (omega arith, λ k one lt d. absurd (omega (arith, one, lt)))

-- Where a prime below the limit is to come, and with fuel to reach it, gu_prime_sup ends, and
-- returns the least prime from its argument on.
pub prime_sup-Least :
    (fuel i q : ℕ)
    → IsPrime q
    → i ≤ q
    → q < limit
    → q < i + fuel
    → (p : ℕ) × (prime_sup fuel i ≡ ok p) × Least i p
unfolding prime_sup
prime_sup-Least fuel i q pq le hi enough = elim (Bool-cases (leb i 2)) [
  | inl low ↦ (2, rw low, (two-IsPrime, ground (arith, low), λ r ge lt h. omega (arith, lt, h.0)))
  | inr two ↦ rw two elim (Bool-cases (ltb i 32)) [
    | inl small ↦ rw small elim (Bool-cases (ltb q 32)) [
      | inl inside ↦ small_up-Least fuel i q pq le (ltb→lt q 32 inside) enough
      | inr beyond ↦
          small_up-Least fuel i 31 IsPrime-31 (omega (arith, ltb→lt i 32 small)) (omega arith)
            (omega (arith, enough, ltb→le q 32 beyond))
    ]
    | inr large ↦
        let lo = ltb→le i 32 large in
        let d = bit_or i 1 in
        let odd : d % 2 ≡ 1 = omega (arith, bit_or-one i) in
        let near : (d ≡ i) ⊎ ((d ≡ i + 1) × (i % 2 ≡ 0)) = omega (arith, bit_or-one i) in
        let up : d ≤ q = omega (arith, near, le, prime_odd q (omega (arith, lo, le)) pq) in
        let (p, run, l) =
          up_loop-Least fuel d q (omega (arith, near, lo)) odd pq up hi
            (omega (arith, near, enough)) in
        rw large (
          p,
          run,
          widen i d p (omega (arith, near))
              (λ r ge lt. even_not r (omega (arith, ge, lo)) (omega (arith, near, ge, lt))) l,
        )
  ]
]
