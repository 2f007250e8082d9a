-- ===== src/Input/Endian.antt =====
-- The order of bytes in gu_in_be and gu_in_le of gu/in.c.
use libpgf.Prelude.{
  ℕ, zero, suc, ◌+◌, ◌*◌, ◌/◌, ◌%◌, ◌^◌, ◌<◌, ◌≡◌, refl, sym, ap, ◌∙◌, arith, bit_or, le→ltb, List,
  [], ◌∷◌, ◌++◌, length, length-append, take, drop-append, ok,
}
use native.Mathlib.Nat.{mod-eq_of_lt, pow-suc}
use libpgf.Prelude.Bits.{bit_or-disjoint}
use libpgf.Input.{be_loop, in_be, in_le, in_bytes, in_u16le}

-- A number as `n` bytes, the highest first.
abbrev pub be_bytes : ℕ → ℕ → List ℕ
be_bytes zero u = []
be_bytes (suc n) u = be_bytes n (u / 256) ++ u % 256 ∷ []

length-be_bytes : (n u : ℕ) → length (be_bytes n u) ≡ n
length-be_bytes zero u = refl
length-be_bytes (suc n) u =
    length-append (be_bytes n (u / 256)) (u % 256 ∷ []) ∙ omega (arith, length-be_bytes n (u / 256))

take-append {ℓ} : {A : Type ℓ} (xs ys : List A) → take (length xs) (xs ++ ys) ≡ xs
take-append [] ys = elim ys as (λ ys. take 0 ys ≡ []) [ [] ↦ refl | y ∷ ys ↦ refl ]
take-append (x ∷ xs) ys = ap (λ l. x ∷ l) (take-append xs ys)

be_loop-append :
    (xs : List ℕ) (b u : ℕ)
    → be_loop (xs ++ b ∷ []) u ≡ bit_or (be_loop xs u * 2 ^ 8 % 18446744073709551616) b
unfolding be_loop
be_loop-append [] b u = refl
be_loop-append (x ∷ xs) b u = be_loop-append xs b (bit_or (u * 2 ^ 8 % 18446744073709551616) x)

joined :
    (u : ℕ)
    → u < 18446744073709551616
    → bit_or (u / 256 * 2 ^ 8 % 18446744073709551616) (u % 256) ≡ u
joined u hi =
    ap (λ t. bit_or t (u % 256)) {x = u / 256 * 2 ^ 8 % 18446744073709551616} {y = u / 256 * 2 ^ 8}
      (mod-eq_of_lt (omega (arith, hi)))
    ∙ bit_or-disjoint 8 (u / 256) (u % 256) (omega arith)
    ∙ omega arith

be_loop-be_bytes : (n u : ℕ) → u < 256 ^ n → u < 18446744073709551616 → be_loop (be_bytes n u) 0 ≡ u
unfolding be_loop
be_loop-be_bytes zero u fits hi = omega (arith, fits)
be_loop-be_bytes (suc n) u fits hi =
    let more : 256 ^ suc n ≡ 256 ^ n * 256 = pow-suc 256 n in
    be_loop-append (be_bytes n (u / 256)) (u % 256) 0
    ∙ ap (λ t. bit_or (t * 2 ^ 8 % 18446744073709551616) (u % 256))
        (be_loop-be_bytes n (u / 256) (omega (arith, fits, more)) (omega (arith, hi)))
    ∙ joined u hi

pub in_bytes-append : (xs rest : List ℕ) → in_bytes (length xs) (xs ++ rest) ≡ ok (xs, rest)
unfolding in_bytes
in_bytes-append xs rest =
    let enough = le→ltb (length (xs ++ rest)) (length xs) (omega (arith, length-append xs rest)) in
    rw (enough, take-append xs rest, drop-append xs rest) refl

two_bytes : (b c : ℕ) → b < 256 → c < 256 → be_loop (b ∷ c ∷ []) 0 ≡ b * 256 + c
unfolding be_loop
two_bytes b c hb hc =
    let first : bit_or 0 b ≡ b = bit_or-disjoint 8 0 b (omega (arith, hb)) ∙ omega arith in
    rw first (
      ap (λ t. bit_or t c) {x = b * 256 % 18446744073709551616} {y = b * 2 ^ 8}
        (mod-eq_of_lt (omega (arith, hb)))
      ∙ bit_or-disjoint 8 b c (omega (arith, hc)))

-- gu_in_be gives back a number that stands in the input as `n` bytes, the highest first, and
-- leaves what follows.
pub in_be-be_bytes :
    (n u : ℕ) (rest : List ℕ)
    → u < 256 ^ n
    → u < 18446744073709551616
    → in_be n (be_bytes n u ++ rest) ≡ ok (u, rest)
unfolding in_be
in_be-be_bytes n u rest fits hi =
    ap (λ k. in_be k (be_bytes n u ++ rest)) (sym (length-be_bytes n u))
    ∙ rw (in_bytes-append (be_bytes n u) rest)
        (ap (λ t. ok (t, rest)) (be_loop-be_bytes n u fits hi))

-- gu_in_u16le, on the two bytes of a number with the lowest first, gives the number with its bytes
-- swapped.
pub in_u16le-swapped :
    (u : ℕ) (rest : List ℕ)
    → u < 65536
    → in_u16le (u % 256 ∷ u / 256 ∷ rest) ≡ ok (u % 256 * 256 + u / 256, rest)
unfolding in_u16le in_le
in_u16le-swapped u rest hi =
    let high : u / 256 < 256 = omega (arith, hi) in
    let low : u % 256 < 256 = omega arith in
    rw (in_bytes-append (u % 256 ∷ u / 256 ∷ []) rest, two_bytes (u % 256) (u / 256) low high)
      (ap (λ t. ok (t, rest))
        (mod-eq_of_lt {n = u % 256 * 256 + u / 256} {m = 65536} (omega (arith, low, high))))
