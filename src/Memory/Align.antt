-- ===== src/Memory/Align.antt =====
-- gu_align_forward of gu/bits.h, and gu_mem_advance of gu/mem.c.
use libpgf.Prelude.{
  ℕ, zero, suc, ◌+◌, ◌-◌, ◌*◌, ◌/◌, ◌%◌, ◌^◌, ◌≤◌, ◌<◌, ◌≡◌, refl, sym, ap, ◌∙◌, arith, ==_iff, ok,
  eq_below, agree,
}
use libpgf.Prelude.Bits.{bit_and-mask}
use native.Mathlib.Nat.{mod-eq_of_lt, mod-lt, div-add-mod, mul-mod_right}
use mathlib.Core.Path.{subst}
use libpgf.Memory.Pool.{ceil2e, align_forward, mem_advance}

-- The alignments of types: powers of two up to 16.
abbrev pub IsAlign : ℕ → Type 0
IsAlign a = (k : ℕ) × (k < 5) × (a ≡ 2 ^ k)

ceil2e_power : (k : ℕ) → k < 5 → ceil2e (2 ^ k) ≡ 2 ^ k
unfolding ceil2e agree
ceil2e_power k lt = eq_below 5 (λ k. ceil2e (2 ^ k)) (λ k. 2 ^ k) k refl lt

power_bounds : (k : ℕ) → k < 5 → (0 < 2 ^ k) × (2 ^ k ≤ 16)
power_bounds zero lt = omega arith
power_bounds (suc zero) lt = omega arith
power_bounds (suc (suc zero)) lt = omega arith
power_bounds (suc (suc (suc zero))) lt = omega arith
power_bounds (suc (suc (suc (suc zero)))) lt = omega arith
power_bounds (suc (suc (suc (suc (suc k))))) lt = absurd (omega (arith, lt))

-- The next multiple of a power of two.
power_forward :
    (x k : ℕ)
    → k < 5
    → x < 4611686018427387904
    → (y : ℕ) × (align_forward x (2 ^ k) ≡ ok y) × (x ≤ y) × (y ≤ x + 15) × (y % 2 ^ k ≡ 0)
unfolding align_forward
power_forward x k lt hi =
    let p = 2 ^ k in
    let (pos, top) = power_bounds k lt in
    let z = x + (p - 1) in
    let low : z % p < p = mod-lt z pos in
    let whole : p * (z / p) ≡ z - z % p = omega (arith, div-add-mod z p) in
    (
      z - z % p,
      rw
          (
            (==_iff p (ceil2e p)).1 (sym (ceil2e_power k lt)),
            mod-eq_of_lt {n = z} {m = 18446744073709551616} (omega (arith, hi, top)),
            bit_and-mask k z,
          )
          refl,
      omega (arith, low, pos),
      omega (arith, top),
      ap (λ t. t % p) (sym whole) ∙ mul-mod_right p (z / p),
    )

pub align_forward-bounds :
    (x a : ℕ)
    → IsAlign a
    → x < 4611686018427387904
    → (y : ℕ) × (align_forward x a ≡ ok y) × (x ≤ y) × (y ≤ x + 15) × (y % a ≡ 0)
align_forward-bounds x a (k, lt, e) hi =
    subst (λ a. (y : ℕ) × (align_forward x a ≡ ok y) × (x ≤ y) × (y ≤ x + 15) × (y % a ≡ 0)) (sym e)
      (power_forward x k lt hi)

advanced :
    (old a n b size p q : ℕ)
    → align_forward old a ≡ ok p
    → align_forward (p + n) b ≡ ok q
    → p + n < 18446744073709551616
    → q + size < 18446744073709551616
    → mem_advance old a n b size ≡ ok (q + size)
unfolding mem_advance
advanced old a n b size p q e e' small small' =
    rw (e, mod-eq_of_lt small, e') (ap ok (mod-eq_of_lt small'))

-- An object at the next aligned place, with room in front of it.
pub mem_advance-bounds :
    (old a n b size : ℕ)
    → IsAlign a
    → IsAlign b
    → old < 65536
    → n + size < 1152921504606846976
    → (q : ℕ) × (mem_advance old a n b size ≡ ok (q + size))
      × (old + n ≤ q)
      × (q ≤ old + n + 30)
      × (q % b ≡ 0)
mem_advance-bounds old a n b size ia ib lo hi =
    let (p, e, p1, p2, p3) = align_forward-bounds old a ia (omega (arith, lo)) in
    let (q, e', q1, q2, q3) = align_forward-bounds (p + n) b ib (omega (arith, p2, lo, hi)) in
    (
      q,
      advanced old a n b size p q e e' (omega (arith, p2, lo, hi)) (omega (arith, q2, p2, lo, hi)),
      omega (arith, p1, q1),
      omega (arith, p2, q2),
      q3,
    )
