-- ===== src/Map/Slots.antt =====
-- How many entries of a table of gu/map.c are in use.
use libpgf.Prelude.{
  ℕ, zero, suc, ◌≤◌, ◌<◌, ◌≡◌, ◌≢◌, refl, ap, ◌∙◌, arith, Bool, true, false, not, Bool-cases, inl,
  inr, if◌then◌else◌, ◌==◌, ==_iff,
}
use libpgf.Map.{Hasher, Data, entry_is_free}

module _ {ℓ} {K V : Type ℓ} (h : Hasher K) where
  -- An entry in use is one that is not free.
  abbrev pub used : Data K V → ℕ → Bool
  used d i = not (entry_is_free h d i)

-- The numbers below `n` that pass a test.
abbrev pub count : (ℕ → Bool) → ℕ → ℕ
count p zero = 0
count p (suc n) = if p n then suc (count p n) else count p n

pub count_le : (p : ℕ → Bool) (n : ℕ) → count p n ≤ n
count_le p zero = omega arith
count_le p (suc n) = ground (arith, count_le p n)

-- Fewer than `n` leave one out.
pub left_out : (p : ℕ → Bool) (n : ℕ) → count p n < n → (j : ℕ) × (j < n) × (p j ≡ false)
left_out p zero few = absurd (omega (arith, few))
left_out p (suc n) few = elim (Bool-cases (p n)) [
  | inl yes' ↦
      let (j, lt, out) = left_out p n (ground (arith, few, yes')) in (j, omega (arith, lt), out)
  | inr no' ↦ (n, omega arith, no')
]

pub count_same : (p q : ℕ → Bool) (n : ℕ) → ((j : ℕ) → j < n → p j ≡ q j) → count p n ≡ count q n
count_same p q zero same = refl
count_same p q (suc n) same =
    rw (same n (omega arith), count_same p q n (λ j lt. same j (omega (arith, lt)))) refl

-- One more number passes.
pub count_more :
    (p q : ℕ → Bool) (n i : ℕ)
    → i < n
    → p i ≡ false
    → q i ≡ true
    → ((j : ℕ) → j < n → j ≢ i → q j ≡ p j)
    → count q n ≡ suc (count p n)
count_more p q zero i lt out into same = absurd (omega (arith, lt))
count_more p q (suc n) i lt out into same = elim (Bool-cases (n == i)) [
  | inl here ↦
      let e : n ≡ i = (==_iff n i).0 here in
      let below =
        count_same q p n (λ j less. same j (omega (arith, less)) (omega (arith, e, less))) in
      rw (ap q e ∙ into, ap p e ∙ out, below) refl
  | inr there ↦
      let apart : n ≢ i = ground (arith, there) in
      let below =
        count_more p q n i (omega (arith, lt, apart)) out into
          (λ j less ne. same j (omega (arith, less)) ne) in
      rw (same n (omega arith) apart, below)
        (elim (p n)
          as (λ b.
            (if b then suc (suc (count p n)) else suc (count p n))
            ≡ suc (if b then suc (count p n) else count p n)) [ true ↦ refl | false ↦ refl ])
]
