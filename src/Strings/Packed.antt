-- ===== src/Strings/Packed.antt =====
-- What gu_string_open of gu/string.c reads of the strings that gu_utf8_string makes.
use libpgf.Prelude.{
  ℕ, zero, suc, ◌+◌, ◌*◌, ◌/◌, ◌%◌, ◌^◌, ◌≤◌, ◌<◌, ◌≡◌, refl, sym, ap, ◌∙◌, arith, bit_and, bit_or,
  ltb, ◌==◌, Bool-cases, inl, inr, ltb→lt, ltb→le, lt→ltb, List, [], ◌∷◌, ◌++◌, append-nil,
  append_assoc, length, All, take-length, false, ok,
}
use native.Mathlib.Nat.{mod-eq_of_lt, pow-suc, pow-le-pow_right}
use mathlib.Core.Path.{subst}
use libpgf.Prelude.Bits.{bit_or-disjoint, bit_and-mask, bit_or-one}
use libpgf.Input.{be_loop}
use libpgf.Input.Endian.{be_bytes}
use libpgf.Strings.{
  GuString, short, long, pack, pointers, copy_to, utf8_string, unpack, string_open,
}

abbrev pub IsByte : ℕ → Type 0
IsByte b = b < 256

unpack-be_bytes : (n w : ℕ) → unpack n w ≡ be_bytes n (w / 256)
unfolding unpack
unpack-be_bytes zero w = refl
unpack-be_bytes (suc n) w =
    ap (λ l. l ++ bit_and (w / 256) 255 ∷ []) (unpack-be_bytes n (w / 256))
    ∙ ap (λ b. be_bytes n (w / 256 / 256) ++ b ∷ []) (bit_and-mask 8 (w / 256))

seven_bytes : (k : ℕ) → k ≤ 7 → 256 ^ k ≤ 72057594037927936
seven_bytes k le = pow-le-pow_right {n = 256} (omega arith) {i = k} {j = 7} le

shift_in :
    (k u b : ℕ)
    → b < 256
    → u < 256 ^ k
    → k ≤ 7
    → bit_or (u * 2 ^ 8 % 18446744073709551616) b ≡ u * 256 + b
shift_in k u b hb low le =
    let top = seven_bytes k le in
    ap (λ t. bit_or t b) {x = u * 2 ^ 8 % 18446744073709551616} {y = u * 2 ^ 8}
      (mod-eq_of_lt (omega (arith, low, top)))
    ∙ bit_or-disjoint 8 u b hb

-- The bytes put into a number, behind those that it held.
be_bytes-be_loop :
    (bs : List ℕ) (k u : ℕ)
    → All IsByte bs
    → u < 256 ^ k
    → k + length bs ≤ 7
    → (be_bytes (k + length bs) (be_loop bs u) ≡ be_bytes k u ++ bs)
      × (be_loop bs u < 256 ^ (k + length bs))
unfolding be_loop
be_bytes-be_loop [] k u h low few =
    let same : k + 0 ≡ k = omega arith in
    (
      ap (λ n. be_bytes n u) same ∙ sym (append-nil (be_bytes k u)),
      subst (λ n. u < 256 ^ n) (sym same) low,
    )
be_bytes-be_loop (b ∷ bs) k u h low few =
    let v = u * 256 + b in
    let n = k + suc (length bs) in
    let same : n ≡ suc k + length bs = omega arith in
    let step = shift_in k u b h.0 low (omega (arith, few)) in
    let (bytes, bound) =
      be_bytes-be_loop bs (suc k) v h.1 (omega (arith, low, h, pow-suc 256 k))
        (omega (arith, few)) in
    let high : v / 256 ≡ u = omega (arith, h) in
    let last : v % 256 ≡ b = omega (arith, h) in
    (
      ap (λ m. be_bytes m (be_loop bs (bit_or (u * 2 ^ 8 % 18446744073709551616) b))) same
          ∙ ap (λ t. be_bytes (suc k + length bs) (be_loop bs t)) step
          ∙ bytes
          ∙ ap (λ t. (be_bytes k t ++ v % 256 ∷ []) ++ bs) high
          ∙ ap (λ c. (be_bytes k u ++ c ∷ []) ++ bs) last
          ∙ append_assoc (be_bytes k u) (b ∷ []) bs,
      subst (λ t. be_loop bs t < 256 ^ n) (sym step)
          (subst (λ m. be_loop bs v < 256 ^ m) (sym same) bound),
    )

-- The number of bytes, and a mark, in the lowest byte.
pack-sum :
    (buf : List ℕ)
    → be_loop buf 0 < 72057594037927936
    → length buf < 8
    → pack buf ≡ be_loop buf 0 * 256 + (length buf * 2 + 1)
unfolding pack
pack-sum buf low few =
    let w = be_loop buf 0 in
    let n = length buf in
    ap (λ t. bit_or (bit_or t (n * 2)) 1) {x = w * 2 ^ 8 % 18446744073709551616} {y = w * 2 ^ 8}
      (mod-eq_of_lt (omega (arith, low)))
    ∙ ap (λ t. bit_or t 1) (bit_or-disjoint 8 w (n * 2) (omega (arith, few)))
    ∙ bit_or-one (w * 2 ^ 8 + n * 2)
    ∙ omega arith

unpack-sum :
    (w n p : ℕ) → p ≡ w * 256 + (n * 2 + 1) → n < 8 → unpack (bit_and p 255 / 2) p ≡ be_bytes n w
unpack-sum w n p e few =
    let low : bit_and p 255 / 2 ≡ n = omega (arith, bit_and-mask 8 p, e, few) in
    let high : p / 256 ≡ w = omega (arith, e, few) in
    ap (λ k. unpack k p) low ∙ unpack-be_bytes n p ∙ ap (be_bytes n) high

-- gu_string_open gives back the bytes of a string that gu_utf8_string made of fewer than 256.
pub string_open-utf8_string :
    (buf : List ℕ)
    → All IsByte buf
    → length buf < 256
    → (s : GuString) × (utf8_string buf ≡ ok s) × (string_open s ≡ buf)
unfolding utf8_string string_open pointers copy_to
string_open-utf8_string buf h few = elim (Bool-cases (ltb (length buf) 8)) [
  | inl small ↦
      let lt = ltb→lt (length buf) 8 small in
      let (bytes, bound) = be_bytes-be_loop buf 0 0 h (omega arith) (omega (arith, lt)) in
      let top = seven_bytes (0 + length buf) (omega (arith, lt)) in
      let sum = pack-sum buf (omega (arith, bound, top)) lt in
      (
        short (pack buf),
        rw small refl,
        unpack-sum (be_loop buf 0) (length buf) (pack buf) sum lt
            ∙ ap (λ k. be_bytes k (be_loop buf 0)) {x = length buf} {y = 0 + length buf}
                (omega arith)
            ∙ bytes,
      )
  | inr large ↦
      let le = ltb→le (length buf) 8 large in
      let fits : length buf % 256 ≡ length buf = mod-eq_of_lt few in
      let some_bytes : (length buf == 0) ≡ false = ground (arith, le) in
      (
        long 0 (length buf % 256) buf,
        rw (large, lt→ltb (length buf) 256 few) refl,
        rw (fits, some_bytes) (take-length buf),
      )
]
