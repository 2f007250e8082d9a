-- ===== src/Memory/Growth.antt =====
-- How gu_mem_padovan and gu_mem_buf_realloc of gu/mem.c round a size up.
use libpgf.Prelude.{
  ℕ, zero, suc, ◌+◌, ◌-◌, ◌*◌, ◌/◌, ◌%◌, ◌≤◌, ◌<◌, ◌≡◌, refl, ap, ◌∙◌, arith, ltb, leb, Bool-cases,
  inl, inr, ltb→lt, ltb→le, ok, Run, le→ltb,
}
use native.Mathlib.Nat.{mod-eq_of_lt}
use libpgf.Memory.{padovan, padovan_loop, buf_size}

-- A size that is enough and at most twice what was asked.
abbrev pub Rounded : ℕ → Run ℕ → Type 0
Rounded least r = (n : ℕ) × (r ≡ ok n) × (least ≤ n) × (n ≤ 2 * least)

padovan_loop-Rounded :
    (fuel least a b c : ℕ)
    → least < 4611686018427387904
    → a < b
    → b < c
    → c ≤ 2 * a
    → a ≤ 2 * least
    → 0 < fuel
    → least < a + fuel
    → Rounded least (padovan_loop fuel least a b c)
unfolding padovan_loop
padovan_loop-Rounded zero least a b c hi ab bc ca al pos enough = absurd (omega (arith, pos))
padovan_loop-Rounded (suc fuel) least a b c hi ab bc ca al pos enough =
    elim (Bool-cases (ltb a least)) [
      | inl more ↦
          let lt = ltb→lt a least more in
          let wrap : (a + b) % 18446744073709551616 ≡ a + b =
            mod-eq_of_lt (omega (arith, hi, lt, bc, ca)) in
          rw (more, le→ltb b a (omega (arith, ab)), wrap)
            (padovan_loop-Rounded fuel least b c (a + b) hi bc (omega (arith, ca, ab))
              (omega (arith, ab)) (omega (arith, bc, ca, lt)) (omega (arith, lt, enough))
              (omega (arith, enough, ab)))
      | inr enough' ↦ rw enough' (a, refl, ltb→le a least enough', al)
    ]

-- gu_mem_padovan ends and returns a number at least the one it is given and at most twice it, as
-- long as that is below 2^62.
pub padovan-Rounded : (least : ℕ) → least < 4611686018427387904 → Rounded least (padovan least)
unfolding padovan
padovan-Rounded least hi = elim (Bool-cases (leb least 5)) [
  | inl small ↦ rw small (least, refl, omega arith, omega arith)
  | inr big ↦ rw big (
      padovan_loop-Rounded (suc least) least 7 9 12 hi (omega arith) (omega arith) (omega arith)
        (ground arith) (omega arith) (omega arith))
]

sized :
    (m n : ℕ)
    → m < 1152921504606846976
    → padovan ((m + 7) / 16 + 1) ≡ ok n
    → (m + 7) / 16 + 1 ≤ n
    → n ≤ 2 * ((m + 7) / 16 + 1)
    → buf_size m ≡ ok (n * 16 - 8)
unfolding buf_size
sized m n hi e lo up =
    let wrap : (m + 8 - 1) % 18446744073709551616 ≡ m + 7 =
      ap (λ t. t % 18446744073709551616) {x = m + 8 - 1} {y = m + 7} (omega arith)
      ∙ mod-eq_of_lt (omega (arith, hi)) in
    let wrap' : (n * 16 + 18446744073709551608) % 18446744073709551616 ≡ n * 16 - 8 =
      omega (arith, lo, up, hi) in
    rw (wrap, e) (ap ok wrap')

-- The buffer that gu_mem_buf_realloc returns has at least the size asked for, as long as that is
-- below 2^60, and at most twice it and 38 bytes.
pub buf_size-bounds :
    (m : ℕ) → m < 1152921504606846976 → (s : ℕ) × (buf_size m ≡ ok s) × (m ≤ s) × (s ≤ 2 * m + 38)
buf_size-bounds m hi =
    let (n, e, lo, up) = padovan-Rounded ((m + 7) / 16 + 1) (omega (arith, hi)) in
    (n * 16 - 8, sized m n hi e lo up, omega (arith, lo), omega (arith, up))
