-- ===== src/Prime/Twins.antt =====
-- The twin primes of gu/prime.c, which are the sizes of the hash tables.
use libpgf.Prelude.{
  ℕ, zero, suc, ◌+◌, ◌-◌, ◌≤◌, ◌<◌, ◌≡◌, ◌≢◌, arith, false, ltb, leb, ◌==◌, Run, ok, Bool-cases,
  inl, inr, ◌⊎◌, ltb→lt, ltb→le,
}
use libpgf.Prime.{prime_inf, is_prime, twin_prime_inf, twin_sup_loop, twin_prime_sup, in_mask}
use libpgf.Prime.Primality.{IsPrime, limit, is_prime-Prime, small-Prime}
use libpgf.Prime.Search.{even_not, Greatest, prime_inf-Greatest}
use libpgf.Prime.Ascent.{prime_odd, Least, prime_sup-Least}

-- The upper one of two primes at a distance of two.
abbrev pub IsTwin : ℕ → Type 0
IsTwin p = IsPrime p × IsPrime (p - 2)

abbrev pub GreatestTwin : ℕ → ℕ → Type 0
GreatestTwin i p = IsTwin p × (p ≤ i) × ((q : ℕ) → p < q → q ≤ i → ¬ IsTwin q)

abbrev pub LeastTwin : ℕ → ℕ → Type 0
LeastTwin i p = IsTwin p × (i ≤ p) × ((q : ℕ) → i ≤ q → q < p → ¬ IsTwin q)

-- The least twin is 5.
pub twin_five : (q : ℕ) → IsTwin q → 5 ≤ q
twin_five q t = elim (Bool-cases (ltb q 5)) [
  | inl low ↦
      let lt = ltb→lt q 5 low in
      let three : 3 < q = omega (arith, t.1.0) in
      absurd (even_not q (omega (arith, three)) (omega (arith, lt, three)) t.0)
  | inr high ↦ ltb→le q 5 high
]

-- A twin up to `i`, where `p` is the greatest prime up to `i` and nt twin, is at least 4 below it.
skipped : (i p q : ℕ) → Greatest i p → ¬ IsPrime (p - 2) → IsTwin q → q ≤ i → q ≤ p - 4
skipped i p q g nt t le =
    let five = twin_five q t in
    let at_most : q ≤ p = elim (Bool-cases (ltb p q)) [
      | inl past ↦ absurd (g.2 q (ltb→lt p q past) le t.0)
      | inr in_reach ↦ ltb→le p q in_reach
    ] in
    let odd = prime_odd p (omega (arith, five, at_most)) g.0 in
    let odd' = prime_odd q (omega (arith, five)) t.0 in
    let a : p ≢ q = λ e. nt (rw e t.1) in
    let b : p ≢ q + 2 = λ e. (let same : p - 2 ≡ q = omega (arith, e) in nt (rw same t.0)) in
    omega (arith, at_most, odd, odd', a, b)

-- What the downward search finds up to `i`.
abbrev Descent : Run ℕ → ℕ → Type 0
Descent r i =
    ((r ≡ ok 0) × ((q : ℕ) → q ≤ i → ¬ IsTwin q)) ⊎ ((p : ℕ) × (r ≡ ok p) × GreatestTwin i p)

further :
    (fuel i p : ℕ)
    → prime_inf (suc fuel) i ≡ ok p
    → is_prime (p - 2) ≡ ok false
    → ¬ IsPrime (p - 2)
    → Greatest i p
    → Descent (twin_prime_inf fuel (p - 4)) (p - 4)
    → Descent (twin_prime_inf (suc fuel) i) i
unfolding twin_prime_inf
further fuel i p run single nt g next =
    let positive : p == 0 ≡ false = ground (arith, g.0.0) in
    elim next [
      | inl (rest, none) ↦
          inl (rw (run, positive, single) rest, λ q le t. none q (skipped i p q g nt t le) t)
      | inr (r, rest, t) ↦ inr (
        r,
        rw (run, positive, single) rest,
        (t.0, omega (arith, t.1, g.1), λ q gt le tq. t.2 q gt (skipped i p q g nt tq le) tq),
      )
    ]

twin_round :
    (fuel i : ℕ)
    → i < limit
    → i ≤ fuel
    → ((p : ℕ) → Greatest i p → Descent (twin_prime_inf fuel (p - 4)) (p - 4))
    → Descent (twin_prime_inf (suc fuel) i) i
unfolding twin_prime_inf
twin_round fuel i hi enough next =
    elim (prime_inf-Greatest (suc fuel) i hi (omega (arith, enough))) [
      | inl (low, run) ↦ inl (rw run, λ q le t. omega (arith, low, le, twin_five q t))
      | inr (p, run, g) ↦
          let positive : p == 0 ≡ false = ground (arith, g.0.0) in
          elim (is_prime-Prime (p - 2) (omega (arith, g.1, hi))) [
            | inl (twin, prime) ↦
                inr (p, rw (run, positive, twin), ((g.0, prime), g.1, λ q gt le t. g.2 q gt le t.0))
            | inr (single, nt) ↦ further fuel i p run single nt g (next p g)
          ]
    ]

-- Below the limit gu_twin_prime_inf ends, and returns the greatest twin up to its argument, or 0
-- where there is none.
pub twin_prime_inf-GreatestTwin :
    (fuel i : ℕ)
    → i < limit
    → i ≤ fuel
    → ((twin_prime_inf (suc fuel) i ≡ ok 0) × ((q : ℕ) → q ≤ i → ¬ IsTwin q))
      ⊎ ((p : ℕ) × (twin_prime_inf (suc fuel) i ≡ ok p) × GreatestTwin i p)
twin_prime_inf-GreatestTwin zero i hi enough =
    twin_round zero i hi enough (λ p g. absurd (omega (arith, enough, g.0.0, g.1)))
twin_prime_inf-GreatestTwin (suc fuel) i hi enough = twin_round (suc fuel) i hi enough (λ p g.
    twin_prime_inf-GreatestTwin fuel (p - 4) (omega (arith, hi, g.1))
      (omega (arith, enough, g.1, g.0.0)))

-- A twin to come, where `p` is the least prime from `j` on and the number two above is none.
ahead :
    (j p t : ℕ)
    → 4 ≤ j
    → Least j p
    → ¬ IsPrime (p + 2)
    → IsPrime t
    → IsPrime (t + 2)
    → j ≤ t
    → p + 4 ≤ t
ahead j p t lo l nt pt pt2 le =
    let at_least : p ≤ t = elim (Bool-cases (ltb t p)) [
      | inl before ↦ absurd (l.2 t le (ltb→lt t p before) pt)
      | inr past ↦ ltb→le t p past
    ] in
    let odd = prime_odd p (omega (arith, lo, l.1)) l.0 in
    let odd' = prime_odd t (omega (arith, lo, le)) pt in
    let a : p ≢ t = λ e. nt (rw e pt2) in
    let b : p + 2 ≢ t = λ e. nt (rw e pt) in omega (arith, at_least, odd, odd', a, b)

twin_sup_loop-Least :
    (fuel j t : ℕ)
    → 4 ≤ j
    → IsPrime t
    → IsPrime (t + 2)
    → j ≤ t
    → t + 2 < limit
    → t < j + fuel
    → (p : ℕ) × (twin_sup_loop fuel j ≡ ok (p + 2))
      × IsPrime p
      × IsPrime (p + 2)
      × (j ≤ p)
      × ((q : ℕ) → j ≤ q → q < p → IsPrime q → ¬ IsPrime (q + 2))
unfolding twin_sup_loop
twin_sup_loop-Least zero j t lo pt pt2 le hi enough = absurd (omega (arith, le, enough))
twin_sup_loop-Least (suc fuel) j t lo pt pt2 le hi enough =
    let (p, run, l) = prime_sup-Least (suc fuel) j t pt le (omega (arith, hi)) enough in
    let before : p ≤ t = elim (Bool-cases (ltb t p)) [
      | inl past ↦ absurd (l.2 t le (ltb→lt t p past) pt)
      | inr in_reach ↦ ltb→le t p in_reach
    ] in
    elim (is_prime-Prime (p + 2) (omega (arith, before, hi))) [
      | inl (twin, prime) ↦ (p, rw (run, twin), l.0, prime, l.1, λ q ge lt pq pq2. l.2 q ge lt pq)
      | inr (single, nt) ↦
          let (r, rest, pr, pr2, low, none) =
            twin_sup_loop-Least fuel (p + 4) t (omega arith) pt pt2 (ahead j p t lo l nt pt pt2 le)
              hi (omega (arith, enough, l.1)) in
          (
            r,
            rw (run, single) rest,
            pr,
            pr2,
            omega (arith, low, l.1),
            λ q ge lt pq pq2. elim (Bool-cases (ltb q (p + 4))) [
              | inl near ↦
                  absurd (omega (arith, ahead j p q lo l nt pq pq2 ge, ltb→lt q (p + 4) near))
              | inr far ↦ none q (ltb→le q (p + 4) far) lt pq pq2
            ],
          )
    ]

five-IsTwin : IsTwin 5
unfolding in_mask
five-IsTwin = (
  elim (small-Prime 5 (omega arith)) [ inl h ↦ h.1 | inr h ↦ absurd (cc (h.0)) ],
  elim (small-Prime 3 (omega arith)) [ inl h ↦ h.1 | inr h ↦ absurd (cc (h.0)) ],
)

twin_above : (t : ℕ) → 5 ≤ t → IsPrime t → IsPrime (t - 2 + 2)
twin_above t lo p = (let same : t - 2 + 2 ≡ t = omega (arith, lo) in rw same p)

-- Where a twin below the limit is to come, and with fuel to reach it, gu_twin_prime_sup ends, and
-- returns the least twin from its argument on.
pub twin_prime_sup-LeastTwin :
    (fuel i t : ℕ)
    → IsTwin t
    → i ≤ t
    → t < limit
    → t < i + fuel
    → (p : ℕ) × (twin_prime_sup fuel i ≡ ok p) × LeastTwin i p
unfolding twin_prime_sup
twin_prime_sup-LeastTwin fuel i t tw le hi enough = elim (Bool-cases (leb i 5)) [
  | inl low ↦
      (5, rw low, (five-IsTwin, ground (arith, low), λ q ge lt t. omega (arith, lt, twin_five q t)))
  | inr high ↦
      let six : 6 ≤ i = ground (arith, high) in
      let five = twin_five t tw in
      let back : t - 2 + 2 ≡ t = omega (arith, five) in
      let (p, run, pr, pr2, low, none) =
        twin_sup_loop-Least fuel (i - 2) (t - 2) (omega (arith, six)) tw.1 (twin_above t five tw.0)
          (omega (arith, le)) (rw back hi) (omega (arith, enough, six, five)) in
      let down : p + 2 - 2 ≡ p = omega arith in
      (
        p + 2,
        rw (high, run),
        (
          (pr2, rw down pr),
          omega (arith, low, six),
          λ q ge lt t.
              none (q - 2) (omega (arith, ge)) (omega (arith, lt, ge, six)) t.1
                (twin_above q (twin_five q t) t.0),
        ),
      )
]
