-- ===== src/Map.antt =====
-- The hash tables of gu/map.c and gu/map.h, with open addressing and double hashing. What differs
-- between the three kinds of key is the record `Hasher`, which Map/Kinds.antt fills. A buffer is a
-- function from the number of an entry to what stands there; a pointer to a value is such a number.
pub mod Cycle
pub mod Kinds
pub mod Slots
pub mod Lookup
pub mod Located
pub mod Occupy
pub mod Rebuild
pub mod Resize
pub mod Contents
pub mod Written
pub mod Insert
pub mod Sequence
pub mod Enumerate
mod Tests
use libpgf.Prelude.{
  ℕ, zero, suc, ◌+◌, ◌-◌, ◌*◌, ◌/◌, ◌%◌, ◌^◌, min, max, Bool, true, false, ◌&&◌, not, Option, none,
  some, ◌⊎◌, inl, inr, ltb, leb, ◌==◌, if◌then◌else◌, Run, ok, abort, fault, stuck, ◌>>=◌, ◌>>◌,
  require,
}
use libpgf.Prime.{twin_prime_inf, twin_prime_sup}
use libpgf.Memory.{size_max, buf_size}

-- The operations on keys. A zero key is one whose bytes are all zero: a free entry holds one.
pub record Hasher {ℓ} (K : Type ℓ) : Type ℓ where
  pub hash : K → ℕ
  pub eq : K → K → Bool
  pub is_zero : K → Bool
  pub zero_key : K

-- `zero_idx` is the entry of the zero key proper, or the greatest `size_t`.
pub record Data {ℓ} (K V : Type ℓ) : Type ℓ where
  pub keys : ℕ → K
  pub values : ℕ → V
  pub n_occupied : ℕ
  pub n_entries : ℕ
  pub zero_idx : ℕ

pub record Map {ℓ} (K V : Type ℓ) : Type ℓ where
  pub table : Data K V
  pub default_value : Option V
  pub key_size : ℕ
  pub value_size : ℕ

-- An enumeration of the keys or the values.
pub record MapEnum : Type 0 where
  pub i : ℕ
  pub value : Bool

-- A write to one entry of a buffer.
abbrev pub put_at {ℓ} : {A : Type ℓ} → (ℕ → A) → ℕ → A → ℕ → A
put_at f i a j = if j == i then a else f j

-- `*p = v` for the pointer `p` to the value of an entry.
abbrev pub write_value {ℓ} : {K V : Type ℓ} → Map K V → ℕ → V → Map K V
write_value m idx v = record m { table = record m.table { values = put_at m.table.values idx v } }

-- The default value, where there is one, is copied to a new entry.
abbrev pub defaulted {ℓ} : {V : Type ℓ} → Option V → (ℕ → V) → ℕ → ℕ → V
defaulted none values idx = values
defaulted (some v) values idx = put_at values idx v

module _ {ℓ} {K V : Type ℓ} (h : Hasher K) where
  abbrev pub entry_is_free : Data K V → ℕ → Bool
  entry_is_free d idx = if idx == d.zero_idx then false else h.is_zero (d.keys idx)

  -- The loop `while (true)` of gu_map_lookup.
  unfoldable pub probe : ℕ → Data K V → K → ℕ → ℕ → Run (Bool × ℕ)
  probe zero d key offset idx = stuck
  probe (suc fuel) d key offset idx =
      let rest = probe fuel d key offset ((idx + offset) % 18446744073709551616 % d.n_entries) in
      if h.is_zero (d.keys idx) && not (d.zero_idx == idx)
      then ok (false, idx)
      else if h.eq key (d.keys idx)
      then ok (true, idx)
      else rest

  -- The probes do not repeat before every entry was met. No table has fewer than three entries,
  -- for which a remainder is not defined, or is by a number that wraps.
  unfoldable pub lookup : Map K V → K → Run (Bool × ℕ)
  unfolding probe
  lookup m key = do
    require (ltb 2 m.table.n_entries)
    probe m.table.n_entries m.table key (h.hash key % (m.table.n_entries - 2) + 1)
        (h.hash key % m.table.n_entries)

  unfoldable pub find : Map K V → K → Run (Option V)
  unfolding lookup
  find m key = lookup m key >>= λ r. ok (if r.0 then some (m.table.values r.1) else none)

  -- `none` where there is no default value, and the program's result is NULL.
  unfoldable pub find_default : Map K V → K → Run (Option V)
  unfolding find
  find_default m key = find m key >>= λ p. ok (elim p [ none ↦ m.default_value | some v ↦ some v ])

  unfoldable pub find_key : Map K V → K → Run (Option K)
  unfolding lookup
  find_key m key = lookup m key >>= λ r. ok (if r.0 then some (m.table.keys r.1) else none)

  unfoldable pub map_has : Map K V → K → Run Bool
  unfolding find_key
  map_has m key = find_key m key >>= λ p. ok (elim p [ none ↦ false | some k ↦ true ])

  -- The macro `gu_map_set`, which writes through NULL where the key is missing.
  unfoldable pub map_set : Map K V → K → V → Run (Map K V)
  unfolding lookup
  map_set m key v = lookup m key >>= λ r. if r.0 then ok (write_value m r.1 v) else fault

  -- The branch of gu_map_insert for a new key, at the free entry found for it.
  abbrev pub filled : Map K V → K → ℕ → Data K V
  filled m key idx = record m.table {
    keys = put_at m.table.keys idx key;
    values = defaulted m.default_value m.table.values idx;
    n_occupied = m.table.n_occupied + 1;
  }

  unfoldable pub occupy : Map K V → K → ℕ → Run (Map K V)
  occupy m key idx =
      let d = filled m key idx in
      if entry_is_free d idx
      then (require (m.table.zero_idx == size_max)
          >> ok (record m { table = record d { zero_idx = idx } }))
      else ok (record m { table = d })

  -- gu_map_insert and gu_map_resize call each other: either takes the other here.
  unfoldable pub insert_with : (Map K V → Run (Map K V)) → Map K V → K → Run (Map K V × ℕ)
  unfolding lookup occupy
  insert_with resize m key = lookup m key >>= λ r.
      if r.0
      then ok (m, r.1)
      else if leb m.table.n_entries (m.table.n_occupied + m.table.n_occupied / 4)
      then (do
        t ← resize m
        r' ← lookup t key
        require (not r'.0)
        t' ← occupy t key r'.1
        ok (t', r'.1))
      else (occupy m key r.1 >>= λ t. ok (t, r.1))

  -- The body of the loop that inserts the old entries again.
  unfoldable pub rebuild_entry :
      (Map K V → K → Run (Map K V × ℕ)) → Data K V → ℕ → Map K V → Run (Map K V)
  rebuild_entry insert old i m =
      if entry_is_free old i
      then ok m
      else (insert m (old.keys i) >>= λ r. ok (write_value r.0 r.1 (old.values i)))

  unfoldable pub rebuild :
      (Map K V → K → Run (Map K V × ℕ)) → Data K V → ℕ → ℕ → Map K V → Run (Map K V)
  unfolding rebuild_entry
  rebuild insert old zero i m = ok m
  rebuild insert old (suc left) i m =
      rebuild_entry insert old i m >>= rebuild insert old left (i + 1)

  -- `blank` is a value whose bytes are all zero, and `fuel` is that of the searches for primes. A
  -- count beyond an `int` would turn negative: `abort` here.
  module _ (blank : V) (fuel : ℕ) where
    -- How many entries the new buffers have room for.
    unfoldable pub capacity : Map K V → ℕ → Run ℕ
    capacity m req = buf_size (req * m.key_size % 18446744073709551616) >>= λ key_bytes.
        if m.value_size == 0
        then ok (key_bytes / m.key_size)
        else (buf_size (req * m.value_size % 18446744073709551616) >>= λ value_bytes.
            ok (min (key_bytes / m.key_size) (value_bytes / m.value_size)))

    abbrev pub emptied : Map K V → ℕ → Map K V
    emptied m n = record m {
      table = record {
        keys = λ i. h.zero_key;
        values = if m.value_size == 0 then m.table.values else (λ i. blank);
        n_occupied = 0;
        n_entries = n;
        zero_idx = size_max;
      };
    }

    unfoldable pub resize_with : (Map K V → K → Run (Map K V × ℕ)) → Map K V → Run (Map K V)
    unfolding capacity rebuild
    resize_with insert m = do
      require (ltb (m.table.n_occupied * 4 / 3 + 1) 2147483648)
      req ← twin_prime_sup fuel (max 11 (m.table.n_occupied * 4 / 3 + 1))
      room ← capacity m req
      require (ltb room 2147483648)
      n ← twin_prime_inf fuel room
      require (ltb m.table.n_occupied n)
      rebuild insert m.table m.table.n_entries 0 (emptied m n)

    -- `depth` bounds how deep the calls nest.
    unfoldable pub insert : ℕ → Map K V → K → Run (Map K V × ℕ)
    unfolding insert_with resize_with
    insert zero m key = stuck
    insert (suc depth) m key = insert_with (resize_with (insert depth)) m key

    -- A rebuilt table has room for its keys, so an insertion into it resizes no more.
    unfoldable pub resize : Map K V → Run (Map K V)
    unfolding resize_with insert
    resize m = resize_with (insert 1) m

    unfoldable pub map_insert : Map K V → K → Run (Map K V × ℕ)
    unfolding insert
    map_insert m key = insert 2 m key

    -- The macro `gu_map_put`.
    unfoldable pub map_put : Map K V → K → V → Run (Map K V)
    unfolding map_insert
    map_put m key v = map_insert m key >>= λ r. ok (write_value r.0 r.1 v)

    -- gu_make_map, without the choice of the kind and the finalizer.
    unfoldable pub make_map : ℕ → ℕ → Option V → Run (Map K V)
    unfolding resize
    make_map key_size value_size default_value = resize (record {
      table = record {
        keys = λ i. h.zero_key;
        values = λ i. blank;
        n_occupied = 0;
        n_entries = 0;
        zero_idx = size_max;
      };
      default_value = default_value;
      key_size = key_size;
      value_size = value_size;
    })

  -- The loop of gu_map_iter from an entry on. The iterator has a state of its own, and may change
  -- the value it is given a pointer to; when it raises an exception the loop ends.
  module _ {S : Type ℓ} (fn : S → K → V → Run (S × V)) where
    unfoldable pub iter_from : ℕ → ℕ → S → Map K V → Run (S × Map K V)
    iter_from zero i s m = ok (s, m)
    iter_from (suc left) i s m =
        if entry_is_free m.table i
        then iter_from left (i + 1) s m
        else (fn s (m.table.keys i) (m.table.values i) >>= λ r.
            iter_from left (i + 1) r.0 (write_value m i r.1))

    unfoldable pub iter : S → Map K V → Run (S × Map K V)
    unfolding iter_from
    iter s m = iter_from m.table.n_entries 0 s m

  -- The loop of gu_map_enum_next, which returns the entry it stops at, if any.
  unfoldable pub next_entry : ℕ → ℕ → Map K V → Option ℕ
  next_entry zero i m = none
  next_entry (suc left) i m =
      let rest = next_entry left (i + 1) m in if entry_is_free m.table i then rest else some i

  -- gu_map_enum_next: the next key, or the next value, and the entry to go on at.
  unfoldable pub enum_next : MapEnum → Map K V → Option (K ⊎ V) × MapEnum
  unfolding next_entry
  enum_next en m = elim (next_entry (m.table.n_entries - en.i) en.i m) [
    | none ↦ (none, record en { i = max en.i m.table.n_entries })
    | some j ↦ (
      some (if en.value then inr (m.table.values j) else inl (m.table.keys j)),
      record en { i = j + 1 },
    )
  ]

abbrev pub map_keys : MapEnum
map_keys = record { i = 0; value = false }

abbrev pub map_values : MapEnum
map_values = record { i = 0; value = true }
