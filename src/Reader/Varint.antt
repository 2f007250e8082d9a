-- ===== src/Reader/Varint.antt =====
-- The numbers of seven bits a byte that pgf_read_uint, pgf_read_int and pgf_read_len of
-- pgf/reader.c read.
use libpgf.Prelude.{
  ℕ, zero, suc, ◌+◌, ◌-◌, ◌*◌, ◌/◌, ◌%◌, ◌^◌, ◌≤◌, ◌<◌, ◌≡◌, ◌⊎◌, refl, ap, ◌∙◌, arith, bit_or, ltb,
  if◌then◌else◌, Bool-cases, inl, inr, ltb→lt, ltb→le, lt→ltb, le→ltb, List, [], ◌∷◌, ◌++◌, ok,
  raised,
}
use native.Mathlib.Nat.{mod-eq_of_lt, two-pow-succ, add-mul, mul-le-mul_right, mul_assoc, mul_comm}
use libpgf.Prelude.Bits.{bit_or-disjoint}
use libpgf.Input.{ℤ, pos, negsuc}
use libpgf.Input.Signed.{twos, IsSigned, twos-decode_2c}
use libpgf.Reader.{read_uint_loop, read_uint, read_int, read_len}

-- A number in at most `k + 1` bytes, the lowest seven bits first.
abbrev pub groups : ℕ → ℕ → List ℕ
groups zero n = n ∷ []
groups (suc k) n = if ltb n 128 then n ∷ [] else (n % 128 + 128) ∷ groups k (n / 128)

-- The first number for which they are not enough.
abbrev group_limit : ℕ → ℕ
group_limit zero = 128
group_limit (suc k) = group_limit k * 128

seven_more : (s : ℕ) → 2 ^ (s + 7) ≡ 2 ^ s * 128
seven_more s =
    ap (λ t. 2 ^ t) {x = s + 7} {y = suc (suc (suc (suc (suc (suc (suc s))))))} (omega arith)
    ∙ omega (
      arith,
      two-pow-succ s,
      two-pow-succ (suc s),
      two-pow-succ (suc (suc s)),
      two-pow-succ (suc (suc (suc s))),
      two-pow-succ (suc (suc (suc (suc s)))),
      two-pow-succ (suc (suc (suc (suc (suc s))))),
      two-pow-succ (suc (suc (suc (suc (suc (suc s)))))),
    )

-- The bits of one byte above those that were read.
accumulate :
    (b x shift u : ℕ)
    → b % 128 ≡ x
    → u < 2 ^ shift
    → x * 2 ^ shift < 4294967296
    → bit_or (b % 128 * 2 ^ shift % 4294967296) u ≡ x * 2 ^ shift + u
accumulate b x shift u e low hi =
    ap (λ t. bit_or (t * 2 ^ shift % 4294967296) u) e
    ∙ ap (λ t. bit_or t u) (mod-eq_of_lt hi)
    ∙ bit_or-disjoint shift x u low

-- The last byte of a number.
last_group :
    (n shift u : ℕ) (rest : List ℕ)
    → n < 128
    → u < 2 ^ shift
    → n * 2 ^ shift < 4294967296
    → shift < 32
    → read_uint_loop (n ∷ rest) shift u ≡ ok (n * 2 ^ shift + u, rest)
unfolding read_uint_loop
last_group n shift u rest small low hi enough =
    rw (lt→ltb shift 32 enough, lt→ltb n 128 small)
      (ap (λ t. ok (t, rest)) (accumulate n n shift u (mod-eq_of_lt small) low hi))

-- A number by its lowest seven bits and the others.
split_seven : (n p : ℕ) → n * p ≡ n / 128 * (p * 128) + n % 128 * p
split_seven n p =
    ap (λ t. t * p) {x = n} {y = n / 128 * 128 + n % 128} (omega arith)
    ∙ add-mul (n / 128 * 128) (n % 128) p
    ∙ ap (λ t. t + n % 128 * p) (mul_assoc (n / 128) 128 p ∙ ap (λ t. n / 128 * t) (mul_comm 128 p))

-- A byte that is not the last.
inner_group :
    (n shift u : ℕ) (bs : List ℕ)
    → u < 2 ^ shift
    → n * 2 ^ shift < 4294967296
    → shift < 32
    → read_uint_loop ((n % 128 + 128) ∷ bs) shift u
      ≡ read_uint_loop bs (shift + 7) (n % 128 * 2 ^ shift + u)
unfolding read_uint_loop
inner_group n shift u bs low hi enough =
    let goes_on = le→ltb (n % 128 + 128) 128 (omega arith) in
    rw (lt→ltb shift 32 enough, goes_on)
      (ap (read_uint_loop bs (shift + 7)) (
        accumulate (n % 128 + 128) (n % 128) shift u (omega arith) low
          (omega (arith, hi, split_seven n (2 ^ shift)))))

read_uint_loop-groups :
    (k n shift u : ℕ) (rest : List ℕ)
    → n < group_limit k
    → u < 2 ^ shift
    → n * 2 ^ shift < 4294967296
    → shift + 7 * k ≤ 28
    → read_uint_loop (groups k n ++ rest) shift u ≡ ok (n * 2 ^ shift + u, rest)
read_uint_loop-groups zero n shift u rest small low hi enough =
    last_group n shift u rest small low hi (omega (arith, enough))
read_uint_loop-groups (suc k) n shift u rest small low hi enough = elim (Bool-cases (ltb n 128)) [
  | inl short ↦
      rw short (last_group n shift u rest (ltb→lt n 128 short) low hi (omega (arith, enough)))
  | inr long ↦
      let p = 2 ^ shift in
      let whole = split_seven n p in
      let seven = seven_more shift in
      let low' : n % 128 * p ≤ 127 * p = mul-le-mul_right p (omega arith) in
      let same : n / 128 * 2 ^ (shift + 7) ≡ n / 128 * (p * 128) = ap (λ t. n / 128 * t) seven in
      rw long (
        inner_group n shift u (groups k (n / 128) ++ rest) low hi (omega (arith, enough))
        ∙ read_uint_loop-groups k (n / 128) (shift + 7) (n % 128 * p + u) rest
            (omega (arith, small)) (omega (arith, seven, low', low))
            (omega (arith, same, whole, hi)) (omega (arith, enough))
        ∙ ap (λ t. ok (t, rest)) {x = n / 128 * 2 ^ (shift + 7) + (n % 128 * p + u)} {y = n * p + u}
            (omega (arith, same, whole)))
]

-- pgf_read_uint ends on the bytes of a number of 32 bits, gives the number back, and leaves what
-- follows.
pub read_uint-groups :
    (n : ℕ) (rest : List ℕ) → n < 4294967296 → read_uint (groups 4 n ++ rest) ≡ ok (n, rest)
unfolding read_uint
read_uint-groups n rest hi =
    read_uint_loop-groups 4 n 0 0 rest (omega (arith, hi)) (omega arith) (omega (arith, hi))
      (omega arith)
    ∙ ap (λ t. ok (t, rest)) {x = n * 2 ^ 0 + 0} {y = n} (omega arith)

-- pgf_read_int gives back the integer of 32 bits whose two's complement the bytes hold.
pub read_int-groups :
    (z : ℤ) (rest : List ℕ) → IsSigned 31 z → read_int (groups 4 (twos 31 z) ++ rest) ≡ ok (z, rest)
unfolding read_int
read_int-groups z rest h =
    rw (read_uint-groups (twos 31 z) rest (twos_bound z h), twos-decode_2c 31 z h) refl
  where
    twos_bound : (z : ℤ) → IsSigned 31 z → twos 31 z < 4294967296
    twos_bound (pos n) h = omega (arith, h)
    twos_bound (negsuc n) h = omega (arith, h)

len_pos : (bs rest : List ℕ) (n : ℕ) → read_int bs ≡ ok (pos n, rest) → read_len bs ≡ ok (n, rest)
unfolding read_len
len_pos bs rest n e = rw e refl

len_negsuc : (bs rest : List ℕ) (n : ℕ) → read_int bs ≡ ok (negsuc n, rest) → read_len bs ≡ raised
unfolding read_len
len_negsuc bs rest n e = rw e refl

-- pgf_read_len gives back a length below 2^31, and raises an exception on any greater number of 32
-- bits.
pub read_len-groups :
    (n : ℕ) (rest : List ℕ)
    → n < 4294967296
    → ((n < 2147483648) × (read_len (groups 4 n ++ rest) ≡ ok (n, rest)))
      ⊎ ((2147483648 ≤ n) × (read_len (groups 4 n ++ rest) ≡ raised))
read_len-groups n rest hi = elim (Bool-cases (ltb n 2147483648)) [
  | inl small ↦ inl (
    ltb→lt n 2147483648 small,
    len_pos (groups 4 n ++ rest) rest n (read_int-groups (pos n) rest (ltb→lt n 2147483648 small)),
  )
  | inr large ↦ inr (
    ltb→le n 2147483648 large,
    let most = ltb→le n 2147483648 large in
        len_negsuc (groups 4 n ++ rest) rest (4294967295 - n) (
          ap (λ t. read_int (groups 4 t ++ rest)) {x = n} {y = 4294967295 - (4294967295 - n)}
            (omega (arith, hi))
          ∙ read_int-groups (negsuc (4294967295 - n)) rest (omega (arith, most))),
  )
]
