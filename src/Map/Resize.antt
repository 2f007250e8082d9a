-- ===== src/Map/Resize.antt =====
-- A table made larger: gu_map_resize of gu/map.c.
use libpgf.Prelude.{
  ℕ, zero, suc, ◌+◌, ◌*◌, ◌/◌, ◌%◌, ◌≤◌, ◌<◌, ◌≡◌, refl, ap, ◌∙◌, arith, true, false, Bool-cases,
  inl, inr, ◌==◌, ltb, Run, ok, min, max, lt→ltb, ltb→lt, ltb→le,
}
use native.Mathlib.Nat.{
  mod-eq_of_lt, le-div_iff_mul-le, div-le_of_le-mul, mul-add, mul_comm, mul-le-mul_right,
}
use libpgf.Prime.{twin_prime_inf, twin_prime_sup}
use libpgf.Prime.Primality.{limit, IsPrime}
use libpgf.Prime.Twins.{IsTwin, twin_prime_inf-GreatestTwin, twin_prime_sup-LeastTwin}
use libpgf.Memory.{size_max, buf_size}
use libpgf.Memory.Growth.{buf_size-bounds}
use libpgf.Map.Kinds.{IsLawful}
use libpgf.Map.Slots.{used, count, count_same}
use libpgf.Map.Lookup.{IsTable}
use libpgf.Map.Rebuild.{IsSource, IsCopied, rebuild-IsCopied}
use libpgf.Map.{Hasher, Data, Map, insert, rebuild, resize_with, capacity, emptied}

-- Entries of `ks` bytes in a buffer of `b` bytes.
quotient :
    (req ks b : ℕ)
    → 0 < ks
    → req * ks ≤ b
    → b ≤ 2 * (req * ks) + 38
    → (req ≤ b / ks) × (b / ks ≤ 2 * req + 38)
quotient req ks b pos lo up = (
  (le-div_iff_mul-le pos).1 lo,
  div-le_of_le-mul ks (omega (arith, up, mul-add ks (2 * req) 38, twice, atleast)),
)
  where
    twice : ks * (2 * req) ≡ 2 * (req * ks)
    twice = omega (arith, mul_comm ks (2 * req), mul_comm ks req)

    atleast : 38 ≤ ks * 38
    atleast = omega (arith, pos)

-- What the table needs for its keys when it grows: a twin prime of which the program's numbers, and
-- the model's fuel, are large enough.
pub record Fits {ℓ} {K V : Type ℓ} (m : Map K V) (fuel t : ℕ) : Type ℓ where
  pub twin : IsTwin t
  pub enough : (11 ≤ t) × (m.table.n_occupied * 4 / 3 + 1 ≤ t)
  pub range : (2 * t + 38 < limit) × (2 * t + 38 < fuel)
  pub key : (0 < m.key_size) × (t * m.key_size < 1152921504606846976)
  pub value : t * m.value_size < 1152921504606846976

none_below : (n : ℕ) → count (λ j. false) n ≡ 0
none_below zero = refl
none_below (suc n) = none_below n

module _ {ℓ} {K V : Type ℓ} (h : Hasher K) (blank : V) where
  -- The room for values alone.
  entries :
      (req ks t : ℕ)
      → 0 < ks
      → req ≤ t
      → t * ks < 1152921504606846976
      → (b : ℕ) × (buf_size (req * ks % 18446744073709551616) ≡ ok b)
        × (req ≤ b / ks)
        × (b / ks ≤ 2 * req + 38)
  entries req ks t pos le hi =
      let less : req * ks ≤ t * ks = mul-le-mul_right ks le in
      let (b, e, lo, up) = buf_size-bounds (req * ks) (omega (arith, less, hi)) in
      let (many, few) = quotient req ks b pos lo up in
      (b, ap buf_size (mod-eq_of_lt (omega (arith, less, hi))) ∙ e, many, few)

  capacity-bounds :
      (m : Map K V) (fuel req t : ℕ)
      → Fits m fuel t
      → req ≤ t
      → (c : ℕ) × (capacity h blank fuel m req ≡ ok c) × (req ≤ c) × (c ≤ 2 * req + 38)
  unfolding capacity
  capacity-bounds m fuel req t f le =
      let (b, e, lo, up) = entries req m.key_size t f.key.0 le f.key.1 in
      elim (Bool-cases (m.value_size == 0)) [
        | inl no_values ↦ (b / m.key_size, rw (e, no_values) refl, lo, up)
        | inr values ↦
            let (b', e', lo', up') =
              entries req m.value_size t (ground (arith, values)) le f.value in
            (
              min (b / m.key_size) (b' / m.value_size),
              rw (e, values, e') refl,
              omega (arith, lo, lo'),
              omega (arith, up, up'),
            )
      ]

  -- All entries of the new table are free.
  fresh_free :
      (fuel : ℕ) (m : Map K V) (n j : ℕ)
      → h.is_zero h.zero_key ≡ true
      → n < 2147483648
      → j < n
      → used h (emptied h blank fuel m n).table j ≡ false
  fresh_free fuel m n j z hi lt =
      let other : (j == size_max) ≡ false = ground (arith, hi, lt) in rw (other, z) refl

  emptied-IsTable :
      (fuel : ℕ) (m : Map K V) (n : ℕ)
      → h.is_zero h.zero_key ≡ true
      → IsPrime n
      → 10 < n
      → n < 2147483648
      → IsTable h (emptied h blank fuel m n).table
  emptied-IsTable fuel m n z p lo hi = record {
    prime = p;
    bounds = (lo, hi);
    counted =
        count_same (used h (emptied h blank fuel m n).table) (λ j. false) n
          (λ j lt. fresh_free fuel m n j z hi lt)
        ∙ none_below n;
    zero_entry = inl refl;
    reached = λ j lt in_use. absurd (cc (in_use, fresh_free fuel m n j z hi lt));
  }

  -- The new number of entries.
  abbrev Chosen : Map K V → ℕ → ℕ → ℕ → ℕ → Type 0
  Chosen m fuel req c n =
      (twin_prime_sup fuel (max 11 (m.table.n_occupied * 4 / 3 + 1)) ≡ ok req)
      × (capacity h blank fuel m req ≡ ok c)
      × (c < 2147483648)
      × (twin_prime_inf fuel c ≡ ok n)
      × IsPrime n
      × (max 11 (m.table.n_occupied * 4 / 3 + 1) ≤ n)
      × (n ≤ c)

  -- A twin prime that the buffers have room for is no greater than the one that is chosen.
  sizes-Chosen : (m : Map K V) (fuel t : ℕ) → Fits m fuel t → (req c n : ℕ) × Chosen m fuel req c n
  sizes-Chosen m zero t f = absurd (omega (arith, f.range))
  sizes-Chosen m (suc fuel) t f =
      let least = max 11 (m.table.n_occupied * 4 / 3 + 1) in
      let (req, e, l) =
        twin_prime_sup-LeastTwin (suc fuel) least t f.twin (omega (arith, f.enough))
          (omega (arith, f.range)) (omega (arith, f.range)) in
      let le : req ≤ t = elim (Bool-cases (ltb t req)) [
        | inl above ↦ absurd (l.2 t (omega (arith, f.enough)) (ltb→lt t req above) f.twin)
        | inr below ↦ ltb→le t req below
      ] in
      let (c, e', lo, up) = capacity-bounds m (suc fuel) req t f le in
      elim (twin_prime_inf-GreatestTwin fuel c (omega (arith, up, le, f.range))
        (omega (arith, up, le, f.range))) [
          | inl out ↦ absurd (out.1 req lo l.0)
          | inr found ↦
              let (n, e'', g) = found in
              let most : req ≤ n = elim (Bool-cases (ltb n req)) [
                | inl above ↦ absurd (g.2 req (ltb→lt n req above) lo l.0)
                | inr below ↦ ltb→le n req below
              ] in
              (
                req,
                c,
                n,
                (e, e', omega (arith, up, le, f.range), e'', g.0.0, omega (arith, most, l.1), g.1),
              )
        ]

  runs :
      (m : Map K V) (fuel : ℕ) (insert' : Map K V → K → Run (Map K V × ℕ)) (req c n : ℕ)
      (m' : Map K V)
      → Chosen m fuel req c n
      → rebuild h insert' m.table m.table.n_entries 0 (emptied h blank fuel m n) ≡ ok m'
      → resize_with h blank fuel insert' m ≡ ok m'
  unfolding resize_with
  runs m fuel insert' req c n m' (e, e', small, e'', p, most, le) e3 =
      let a = lt→ltb (m.table.n_occupied * 4 / 3 + 1) 2147483648 (omega (arith, most, le, small)) in
      let b = lt→ltb m.table.n_occupied n (omega (arith, most)) in
      rw (a, e, e', lt→ltb c 2147483648 small, e'', b) e3

  module _ (law : IsLawful h) where
    -- For a table that is `IsSource`, whose count of entries in use is right and in which no key
    -- stands twice, and that `Fits`: there is a twin prime t of at least 11 and above four thirds of
    -- the entries in use, 2 * t + 38 is below the overflow in gu/prime.c and below the fuel, keys
    -- are not empty, and t keys or t values take less than 2^60 bytes. Then gu_map_resize ends and
    -- copies the table into one with room for a key more; none of its assertions fails, and no
    -- insertion into the new table resizes it again.
    pub resize_with-IsCopied :
        (m : Map K V) (fuel t depth : ℕ)
        → IsSource h law m.table
        → Fits m fuel t
        → (n : ℕ) × (d : Data K V) × (m.table.n_occupied * 4 / 3 + 1 ≤ n)
          × (10 < n)
          × (resize_with h blank fuel (insert h blank fuel (suc depth)) m
              ≡ ok (record m { table = d }))
          × IsCopied h law m.table n m.table.n_entries d
    unfolding insert
    resize_with-IsCopied m fuel t depth src f =
        let (req, c, n, (e, e', small, e'', p, most, le)) = sizes-Chosen m fuel t f in
        let start = (emptied h blank fuel m n).table in
        let empty : IsCopied h law m.table n 0 start = record {
          is_table =
              emptied-IsTable fuel m n law.zero_is_zero p (omega (arith, most))
                (omega (arith, le, small));
          size = refl;
          number = refl;
          there = λ j lt. absurd (omega (arith, lt));
          back = λ j lt in_use.
              absurd
                (cc (in_use, fresh_free fuel m n j law.zero_is_zero (omega (arith, le, small)) lt));
        } in
        let (d, e3, copied) =
          rebuild-IsCopied h law (resize_with h blank fuel (insert h blank fuel depth)) m m.table n
            src (omega (arith, most)) m.table.n_entries 0 start (omega arith) empty in
        (
          n,
          d,
          omega (arith, most),
          omega (arith, most),
          runs m fuel (insert h blank fuel (suc depth)) req c n (record m { table = d })
              (e, e', small, e'', p, most, le) e3,
          copied,
        )
