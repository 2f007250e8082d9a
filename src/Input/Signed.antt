-- ===== src/Input/Signed.antt =====
-- Two's complement: GU_DECODE_2C_ of gu/bits.h.
use libpgf.Prelude.{
  ℕ, ◌-◌, ◌*◌, ◌^◌, ◌≤◌, ◌<◌, ◌≡◌, refl, arith, true, false, leb, Bool-cases, inl, inr, lt→ltb, ok,
}
use native.Mathlib.Nat.{one-le-pow}
use libpgf.Input.{ℤ, pos, negsuc, decode_2c}

-- The unsigned number of `w + 1` bits that stands for an integer.
abbrev pub twos : ℕ → ℤ → ℕ
twos w (pos n) = n
twos w (negsuc n) = 2 ^ w * 2 - 1 - n

abbrev pub magnitude : ℤ → ℕ
magnitude (pos n) = n
magnitude (negsuc n) = n

-- The integers of `w + 1` bits.
abbrev pub IsSigned : ℕ → ℤ → Type 0
IsSigned w z = magnitude z < 2 ^ w

-- Every number of `w + 1` bits is decoded, to the integer that it stands for; the exception is
-- never raised.
pub decode_2c-twos :
    (w u : ℕ) → u < 2 ^ w * 2 → (z : ℤ) × (decode_2c w u ≡ ok z) × IsSigned w z × (twos w z ≡ u)
unfolding decode_2c
decode_2c-twos w u hi =
    let p : 1 ≤ 2 ^ w = one-le-pow w 2 (omega arith) in
    elim (Bool-cases (leb u (2 ^ w - 1))) [
      | inl small ↦ (pos u, rw small refl, ground (arith, small, p), refl)
      | inr large ↦
          let below : 2 ^ w * 2 - 1 - u < 2 ^ w = ground (arith, large, p, hi) in
          (
            negsuc (2 ^ w * 2 - 1 - u),
            rw (large, lt→ltb (2 ^ w * 2 - 1 - u) (2 ^ w) below) refl,
            below,
            omega (arith, hi, p),
          )
    ]

-- An integer is read back from the number that stands for it.
pub twos-decode_2c : (w : ℕ) (z : ℤ) → IsSigned w z → decode_2c w (twos w z) ≡ ok z
unfolding decode_2c
twos-decode_2c w (pos n) h =
    let small : leb n (2 ^ w - 1) ≡ true = ground (arith, h) in rw small refl
twos-decode_2c w (negsuc n) h =
    let large : leb (2 ^ w * 2 - 1 - n) (2 ^ w - 1) ≡ false = ground (arith, h) in
    let same : 2 ^ w * 2 - 1 - (2 ^ w * 2 - 1 - n) ≡ n = omega (arith, h) in
    rw (large, same, lt→ltb n (2 ^ w) h) refl
