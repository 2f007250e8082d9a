-- ===== src/Prime/Search.antt =====
-- The searches of gu/prime.c: the next prime, or twin prime, on one side of a number.
use libpgf.Prelude.{
  ℕ, zero, suc, ◌+◌, ◌-◌, ◌*◌, ◌%◌, ◌≤◌, ◌<◌, ◌≡◌, sym, arith, ltb, ◌==◌, ok, Bool-cases, inl, inr,
  ◌⊎◌, bit_or, if◌then◌else◌, ltb→lt, ltb→le,
}
use libpgf.Prelude.Bits.{bit_or-one}
use libpgf.Prime.{in_mask, small_down, down_loop, prime_inf}
use libpgf.Prime.Primality.{IsPrime, limit, small-Prime, on_wheel-Prime}

-- The greatest prime up to `i`.
abbrev pub Greatest : ℕ → ℕ → Type 0
Greatest i p = IsPrime p × (p ≤ i) × ((q : ℕ) → p < q → q ≤ i → ¬ IsPrime q)

pub even_not : (q : ℕ) → 2 < q → q % 2 ≡ 0 → ¬ IsPrime q
even_not q lt even p = p.1 2 (omega arith) lt even

-- What is greatest up to `j` is so up to `i` where no prime lies between.
widen : (j i p : ℕ) → j ≤ i → ((q : ℕ) → j < q → q ≤ i → ¬ IsPrime q) → Greatest j p → Greatest i p
widen j i p le gap g = (
  g.0,
  omega (arith, le, g.1),
  λ q gt top. elim (Bool-cases (ltb j q)) [
    | inl past ↦ gap q (ltb→lt j q past) top
    | inr before ↦ g.2 q gt (ltb→le j q before)
  ],
)

-- A prime is its own greatest.
itself : (i : ℕ) → IsPrime i → Greatest i i
itself i p = (p, omega arith, λ q gt le. absurd (omega (arith, gt, le)))

-- No prime is in a gap of one number that is none.
gap_of_one : (i q : ℕ) → ¬ IsPrime i → i - 1 < q → q ≤ i → ¬ IsPrime q
gap_of_one i q np gt le h =
    let same : q ≡ i ⊎ q < i = omega (arith, le) in
    elim same [ inl e ↦ np (rw (sym e) h) | inr lt ↦ absurd (omega (arith, gt, lt)) ]

-- Nor in one of an odd number that is none and the even one before.
gap_of_two : (d q : ℕ) → 31 < d → d % 2 ≡ 1 → ¬ IsPrime d → d - 2 < q → q ≤ d → ¬ IsPrime q
gap_of_two d q lo odd np gt le h = elim (Bool-cases (q == d)) [
  | inl e ↦ (let same : q ≡ d = ground (arith, e) in np (rw (sym same) h))
  | inr ne ↦
      let before : q ≡ d - 1 = ground (arith, ne, gt, le) in
      even_not q (omega (arith, before, lo)) (omega (arith, before, odd, lo)) h
]

two-IsPrime : (i : ℕ) → i ≡ 2 → IsPrime i
two-IsPrime i e = (omega (arith, e), λ k one lt d. absurd (omega (arith, e, one, lt)))

pub IsPrime-31 : IsPrime 31
unfolding in_mask
IsPrime-31 = elim (small-Prime 31 (omega arith)) [ inl h ↦ h.1 | inr h ↦ absurd (cc (h.0)) ]

small_down-Greatest :
    (fuel i : ℕ) → 2 ≤ i → i < 32 → i ≤ fuel → (p : ℕ) × (small_down fuel i ≡ ok p) × Greatest i p
unfolding small_down
small_down-Greatest zero i lo hi enough = absurd (omega (arith, lo, enough))
small_down-Greatest (suc fuel) i lo hi enough = elim (small-Prime i hi) [
  | inl (m, p) ↦ (i, rw m, itself i p)
  | inr (m, np) ↦ elim (Bool-cases (ltb 2 i)) [
    | inl more ↦
        let (p, run, g) =
          small_down-Greatest fuel (i - 1) (omega (arith, ltb→lt 2 i more)) (omega (arith, hi))
            (omega (arith, enough, lo)) in
        (p, rw m run, widen (i - 1) i p (omega arith) (λ q gt le. gap_of_one i q np gt le) g)
    | inr two ↦ absurd (np (two-IsPrime i (omega (arith, lo, ltb→le 2 i two))))
  ]
]

next_down : (d : ℕ) → 31 < d → (if ltb (d % 30) 2 then d % 30 + 28 else d % 30 - 2) ≡ (d - 2) % 30
next_down d lo = elim (Bool-cases (ltb (d % 30) 2)) [
  | inl low ↦ rw low (omega (arith, lo, ltb→lt (d % 30) 2 low))
  | inr high ↦ rw high (omega (arith, lo, ltb→le (d % 30) 2 high))
]

-- The loop on the wheel, from an odd number.
down_loop-Greatest :
    (fuel d : ℕ)
    → 31 ≤ d
    → d < limit
    → d % 2 ≡ 1
    → d < 31 + 2 * fuel
    → (p : ℕ) × (down_loop fuel d (d % 30) ≡ ok p) × Greatest d p
unfolding down_loop
down_loop-Greatest zero d lo hi odd enough = absurd (omega (arith, lo, enough))
down_loop-Greatest (suc fuel) d lo hi odd enough = elim (on_wheel-Prime d (omega (arith, lo)) hi) [
  | inl (run, p) ↦ (d, rw run, itself d p)
  | inr (run, np) ↦ elim (Bool-cases (ltb 31 d)) [
    | inl past ↦
        let more = ltb→lt 31 d past in
        let (p, next, g) =
          down_loop-Greatest fuel (d - 2) (omega (arith, more, odd)) (omega (arith, hi))
            (omega (arith, odd, lo)) (omega (arith, enough, lo)) in
        (
          p,
          rw (run, next_down d more) next,
          widen (d - 2) d p (omega arith) (λ q gt le. gap_of_two d q more odd np gt le) g,
        )
    | inr last ↦
        let end : 31 ≡ d = omega (arith, lo, ltb→le 31 d last) in
        absurd (np (rw (sym end) IsPrime-31))
  ]
]

-- Below the limit gu_prime_inf ends, and returns 0 below 2, else the greatest prime up to its
-- argument.
pub prime_inf-Greatest :
    (fuel i : ℕ)
    → i < limit
    → i ≤ fuel
    → ((i < 2) × (prime_inf fuel i ≡ ok 0)) ⊎ ((p : ℕ) × (prime_inf fuel i ≡ ok p) × Greatest i p)
unfolding prime_inf
prime_inf-Greatest fuel i hi enough = elim (Bool-cases (ltb i 2)) [
  | inl low ↦ inl (ltb→lt i 2 low, rw low)
  | inr two ↦ rw two elim (Bool-cases (ltb i 32)) [
    | inl small ↦
        rw small (inr (small_down-Greatest fuel i (ltb→le i 2 two) (ltb→lt i 32 small) enough))
    | inr large ↦
        let lo = ltb→le i 32 large in
        let d = bit_or (i - 1) 1 in
        let odd : d % 2 ≡ 1 = omega (arith, bit_or-one (i - 1)) in
        let near : (d ≡ i) ⊎ ((d ≡ i - 1) × (i % 2 ≡ 0)) = omega (arith, bit_or-one (i - 1), lo) in
        let floor : 31 ≤ d = omega (arith, bit_or-one (i - 1), lo) in
        let top : d ≤ i = omega (arith, bit_or-one (i - 1), lo) in
        let (p, run, g) =
          down_loop-Greatest fuel d floor (omega (arith, top, hi)) odd
            (omega (arith, top, enough, lo)) in
        rw large (
          inr (
            p,
            run,
            widen d i p top
                (λ q gt le.
                  even_not q (omega (arith, gt, floor)) (omega (arith, near, gt, le, odd)))
                g,
          ))
  ]
]
