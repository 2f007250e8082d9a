-- ===== src/Map/Cycle.antt =====
-- The sequence of entries that gu_map_lookup of gu/map.c tries.
use libpgf.Prelude.{ℕ, zero, suc, ◌+◌, ◌-◌, ◌*◌, ◌/◌, ◌%◌, ◌≤◌, ◌<◌, ◌≡◌, ◌≢◌, sym, ap, ◌∙◌, arith}
use native.Mathlib.Nat.{
  mod-lt, mod-eq_of_lt, add-mod-mod, div-add-mod, add-mul-mod_self_left, mul_assoc, mul_comm,
  mul-add, add-mul, add-mod_right,
}
use libpgf.Prime.Primality.{IsPrime}

mod_times : (a b n : ℕ) → a % n * b % n ≡ a * b % n
mod_times a b n = sym (ap (λ t. t % n) whole ∙ add-mul-mod_self_left (a % n * b) n (a / n * b))
  where
    whole : a * b ≡ a % n * b + n * (a / n * b)
    whole =
        ap (λ t. t * b) (sym (div-add-mod a n))
        ∙ add-mul (n * (a / n)) (a % n) b
        ∙ omega (arith, mul_assoc n (a / n) b)

times_mod : (a b n : ℕ) → a * (b % n) % n ≡ a * b % n
times_mod a b n =
    ap (λ t. t % n) (mul_comm a (b % n)) ∙ mod_times b a n ∙ ap (λ t. t % n) (mul_comm b a)

-- The step that the inverse takes from `n % c` to `c`.
cofactor : (n c q r : ℕ) → n ≡ suc c * q + r → (n - q) * suc c ≡ n * c + r
cofactor n c q r e =
    let below : q ≤ n = omega (arith, e, mul-add q c 1, mul_comm q (suc c), small) in
    let parts = add-mul (n - q) q (suc c) in
    let whole : (n - q + q) * suc c ≡ n * suc c = ap (λ t. t * suc c) (omega (arith, below)) in
    let more : n * suc c ≡ n * c + n = omega (arith, mul-add n c 1, same) in
    omega (arith, parts, whole, more, e, mul_comm q (suc c))
  where
    small : q * c + q * 1 ≡ q * (c + 1)
    small = sym (mul-add q c 1)

    same : n * suc c ≡ n * (c + 1)
    same = ap (λ t. n * t) {x = suc c} {y = c + 1} (omega arith)

order : (y n k r : ℕ) → y * (n * k) + y * r ≡ y * r + n * (y * k)
order y n k r = omega (arith, mul_assoc y n k, mul_assoc n y k, ap (λ t. t * k) (mul_comm y n))

-- Every step below a prime has an inverse.
inverse : (n : ℕ) → IsPrime n → (fuel c : ℕ) → 0 < c → c < n → c ≤ fuel → (x : ℕ) × (x * c % n ≡ 1)
inverse n p zero c pos lt enough = absurd (omega (arith, pos, enough))
inverse n p (suc fuel) zero pos lt enough = absurd (omega (arith, pos))
inverse n p (suc fuel) (suc zero) pos lt enough = (1, mod-eq_of_lt p.0)
inverse n p (suc fuel) (suc (suc c)) pos lt enough =
    let d = suc (suc c) in
    let r = n % d in
    let proper : r ≢ 0 = p.1 d (omega arith) lt in
    let less : r < d = mod-lt n (omega arith) in
    let (y, one) =
      inverse n p fuel r (omega (arith, proper)) (omega (arith, less, lt))
        (omega (arith, less, enough)) in
    let back = cofactor n (suc c) (n / d) r (sym (div-add-mod n d)) in
    (
      y * (n - n / d),
      ap (λ t. t % n)
            (mul_assoc y (n - n / d) d
              ∙ ap (λ t. y * t) back
              ∙ mul-add y (n * suc c) r
              ∙ order y n (suc c) r)
          ∙ add-mul-mod_self_left (y * r) n (y * suc c)
          ∙ one,
    )

-- The slot that the `t`-th step meets.
abbrev pub slot : ℕ → ℕ → ℕ → ℕ → ℕ
slot n c i t = (i + t * c) % n

-- Each slot is met within as many steps as there are slots.
pub slot-meets :
    (n c i j : ℕ)
    → IsPrime n
    → 0 < c
    → c < n
    → i < n
    → j < n
    → (t : ℕ) × (t < n) × (slot n c i t ≡ j)
slot-meets n c i j p pos lt hi hj =
    let (x, one) = inverse n p c c pos lt (omega arith) in
    let g = j + n - i in
    let t = g * x % n in
    let back : t * c % n ≡ g % n =
      mod_times (g * x) c n
      ∙ ap (λ u. u % n) (mul_assoc g x c)
      ∙ sym (times_mod g (x * c) n)
      ∙ ap (λ u. g * u % n) one
      ∙ ap (λ u. u % n) (omega arith) in
    (
      t,
      mod-lt (g * x) (omega (arith, hi)),
      sym (add-mod-mod i (t * c) n)
          ∙ ap (λ u. (i + u) % n) back
          ∙ add-mod-mod i g n
          ∙ ap (λ u. u % n) {x = i + g} {y = j + n} (omega (arith, hi))
          ∙ add-mod_right j n
          ∙ mod-eq_of_lt hj,
    )
