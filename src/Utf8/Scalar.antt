-- ===== src/Utf8/Scalar.antt =====
-- One code point: the bit operations of gu/utf8.c against the reference.
use libpgf.Prelude.{
  ℕ, ◌+◌, ◌*◌, ◌/◌, ◌%◌, ◌^◌, ◌<◌, ◌≤◌, bit_and, bit_or, ◌≡◌, refl, arith, List, [], ◌∷◌, ◌++◌,
  length, ltb, leb, agree, eq_below, Bool-cases, inl, inr, ok, raised, if◌then◌else◌,
}
use libpgf.Prelude.Bits.{bit_and-mask, bit_or-disjoint}
use libpgf.Utf8.{
  lead_byte, encode_one_unsafe, ucs_valid, lead_bits, decode_one, decode_one_unsafe, encode_length,
}
use libpgf.Utf8.Reference.{IsUcs, utf8}

trail_byte : (u : ℕ) → bit_or 0x80 (bit_and u 0x3f % 2 ^ 8) ≡ 0x80 + u % 64
trail_byte u =
    let low : bit_and u 0x3f % 2 ^ 8 ≡ u % 64 = omega (arith, bit_and-mask 6 u) in
    omega (arith, low, bit_or-disjoint 6 2 (bit_and u 0x3f % 2 ^ 8) (omega arith))

lead_one : (x : ℕ) → x < 32 → lead_byte x 1 ≡ 0xc0 + x
unfolding agree
lead_one x h = eq_below 32 (λ x. lead_byte x 1) (λ x. 0xc0 + x) x refl h

lead_two : (x : ℕ) → x < 16 → lead_byte x 2 ≡ 0xe0 + x
unfolding agree
lead_two x h = eq_below 16 (λ x. lead_byte x 2) (λ x. 0xe0 + x) x refl h

lead_three : (x : ℕ) → x < 8 → lead_byte x 3 ≡ 0xf0 + x
unfolding agree
lead_three x h = eq_below 8 (λ x. lead_byte x 3) (λ x. 0xf0 + x) x refl h

-- On every code point the encoder writes its UTF-8 form.
pub encode_one-utf8 : (u : ℕ) → IsUcs u → encode_one_unsafe u ≡ ok (utf8 u)
unfolding encode_one_unsafe utf8
encode_one-utf8 u h = ground (
  arith,
  trail_byte u,
  trail_byte (u / 2 ^ 6),
  trail_byte (u / 2 ^ 6 / 2 ^ 6),
  lead_one (u / 2 ^ 6),
  lead_two (u / 2 ^ 6 / 2 ^ 6),
  lead_three (u / 2 ^ 6 / 2 ^ 6 / 2 ^ 6),
)

-- One round of the decoder's loop.
trail_step : (u c : ℕ) → bit_or (u * 2 ^ 6) (bit_and c 0x3f) ≡ u * 64 + c % 64
trail_step u c = omega (
  arith,
  bit_and-mask 6 c,
  bit_or-disjoint 6 u (bit_and c 0x3f) (omega (arith, bit_and-mask 6 c)),
)

lead_bits_one : (x : ℕ) → x < 32 → lead_bits (0xc0 + x) 1 ≡ x
unfolding agree
lead_bits_one x h = eq_below 32 (λ x. lead_bits (0xc0 + x) 1) (λ x. x) x refl h

lead_bits_two : (x : ℕ) → x < 16 → lead_bits (0xe0 + x) 2 ≡ x
unfolding agree
lead_bits_two x h = eq_below 16 (λ x. lead_bits (0xe0 + x) 2) (λ x. x) x refl h

lead_bits_three : (x : ℕ) → x < 8 → lead_bits (0xf0 + x) 3 ≡ x
unfolding agree
lead_bits_three x h = eq_below 8 (λ x. lead_bits (0xf0 + x) 3) (λ x. x) x refl h

-- The decoder on a sequence of each length, with any bytes in the place of continuation bytes.
pub decode_two :
    (x a : ℕ) (rest : List ℕ)
    → 2 ≤ x
    → x < 32
    → decode_one ((0xc0 + x) ∷ a ∷ rest) ≡ ok (x * 64 + a % 64, 2)
unfolding decode_one
decode_two x a rest lo hi = ground (arith, lead_bits_one x, trail_step x a)

-- On three bytes whose first is in 0xe0 to 0xef, whatever the other two are, the checked decoder
-- succeeds, with the code point of their low bits.
pub decode_three :
    (x a b : ℕ) (rest : List ℕ)
    → x < 16
    → decode_one ((0xe0 + x) ∷ a ∷ b ∷ rest) ≡ ok ((x * 64 + a % 64) * 64 + b % 64, 3)
unfolding decode_one
decode_three x a b rest hi =
    ground (arith, lead_bits_two x, trail_step x a, trail_step (x * 64 + a % 64) b)

pub decode_four :
    (x a b c : ℕ) (rest : List ℕ)
    → x < 5
    → decode_one ((0xf0 + x) ∷ a ∷ b ∷ c ∷ rest) ≡ (
        if leb (((x * 64 + a % 64) * 64 + b % 64) * 64 + c % 64) 0x10ffff
        then ok (((x * 64 + a % 64) * 64 + b % 64) * 64 + c % 64, 4)
        else raised)
unfolding decode_one
decode_four x a b c rest hi = ground (
  arith,
  lead_bits_three x,
  trail_step x a,
  trail_step (x * 64 + a % 64) b,
  trail_step ((x * 64 + a % 64) * 64 + b % 64) c,
)

-- The decoder gives back the code point of a UTF-8 form, and its length.
pub decode_one-utf8 :
    (u : ℕ) (rest : List ℕ) → IsUcs u → decode_one (utf8 u ++ rest) ≡ ok (u, length (utf8 u))
unfolding utf8
decode_one-utf8 u rest h = elim (Bool-cases (ltb u 0x80)) [
  | inl one ↦ rw one (unfold decode_one in rw one)
  | inr more ↦ rw more elim (Bool-cases (ltb u 0x800)) [
    | inl two ↦ rw two (ground (arith, decode_two (u / 64) (0x80 + u % 64) rest))
    | inr longer ↦ rw longer elim (Bool-cases (ltb u 0x10000)) [
      | inl three ↦
          rw three
            (ground (arith, decode_three (u / 4096) (0x80 + u / 64 % 64) (0x80 + u % 64) rest))
      | inr four ↦ rw four (
          ground (
            arith,
            decode_four (u / 262144) (0x80 + u / 4096 % 64) (0x80 + u / 64 % 64) (0x80 + u % 64)
                rest,
          ))
    ]
  ]
]

-- Where the checked decoder succeeds, the unchecked one does the same.
pub decode_unsafe-eq-decode :
    (src : List ℕ) (u n : ℕ) → decode_one src ≡ ok (u, n) → decode_one_unsafe src ≡ ok (u, n)
unfolding decode_one decode_one_unsafe
decode_unsafe-eq-decode [] u n h = cc
decode_unsafe-eq-decode (c ∷ src) u n h = ground arith

pub encode_length-utf8 : (u : ℕ) → IsUcs u → encode_length u ≡ length (utf8 u)
unfolding encode_length utf8
encode_length-utf8 u h = ground arith

pub length-utf8 : (u : ℕ) → (1 ≤ length (utf8 u)) × (length (utf8 u) ≤ 4)
unfolding utf8
length-utf8 u = ground arith

-- A success of the checked decoder, on any bytes, is a code point of Unicode, read from 1 to 4 bytes
-- that are all there.
pub decode_one_bounds :
    (src : List ℕ) (u n : ℕ)
    → decode_one src ≡ ok (u, n)
    → IsUcs u × (1 ≤ n) × (n ≤ 4) × (n ≤ length src)
unfolding decode_one ucs_valid
decode_one_bounds [] u n h = cc
decode_one_bounds (c ∷ []) u n h = ground arith
decode_one_bounds (c ∷ a ∷ []) u n h = ground arith
decode_one_bounds (c ∷ a ∷ b ∷ []) u n h = ground arith
decode_one_bounds (c ∷ a ∷ b ∷ d ∷ src) u n h = ground arith
