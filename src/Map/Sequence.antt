-- ===== src/Map/Sequence.antt =====
-- A new table and the insertions into it, gu_make_map and gu_map_put of gu/map.c and gu/map.h,
-- against a list of keys with their values.
use libpgf.Prelude.{
  ℕ, ◌+◌, ◌*◌, ◌/◌, ◌≤◌, ◌≡◌, refl, ◌∙◌, arith, Bool, true, false, if◌then◌else◌, Run, ok, ◌>>=◌,
  Option, some, none, List, [], ◌∷◌, length,
}
use libpgf.Memory.{size_max}
use libpgf.Map.Kinds.{IsLawful}
use libpgf.Map.Located.{Absent}
use libpgf.Map.Rebuild.{IsSource}
use libpgf.Map.Resize.{Fits, resize_with-IsCopied}
use libpgf.Map.Contents.{IsMap, find-missing}
use libpgf.Map.Insert.{map_put-IsPut, put-find}
use libpgf.Map.{Hasher, Data, Map, find, map_put, make_map, resize}

-- The value of a key in a list, whose earlier entries come first.
abbrev pub assoc {ℓ} : {K V : Type ℓ} → Hasher K → List (K × V) → K → Option V
assoc h [] k = none
assoc h (e ∷ es) k = if h.eq k e.0 then some e.1 else assoc h es k

either_way {ℓ} :
    {A : Type ℓ} (b : Bool) (x : A) {y : A} {r : Run A}
    → r ≡ ok y
    → (if b then ok x else r) ≡ ok (if b then x else y)
either_way true x e = refl
either_way false x e = e

module _ {ℓ} {K V : Type ℓ} (h : Hasher K) (blank : V) (fuel : ℕ) where
  -- `gu_map_put` for each entry of a list, the last one first.
  abbrev pub put_all : List (K × V) → Map K V → Run (Map K V)
  put_all [] m = ok m
  put_all (e ∷ es) m = put_all es m >>= λ t. map_put h blank fuel t e.0 e.1

  -- The map that gu_make_map starts with.
  abbrev pub unmade : ℕ → ℕ → Option V → Map K V
  unmade key_size value_size default_value = record {
    table = record {
      keys = λ i. h.zero_key;
      values = λ i. blank;
      n_occupied = 0;
      n_entries = 0;
      zero_idx = size_max;
    };
    default_value = default_value;
    key_size = key_size;
    value_size = value_size;
  }

  module _ (law : IsLawful h) where
    -- gu_make_map ends and returns a table that holds no key.
    pub make_map-missing :
        (key_size value_size : ℕ) (default_value : Option V) (t : ℕ)
        → Fits (unmade key_size value_size default_value) fuel t
        → (d : Data K V) × (make_map h blank fuel key_size value_size default_value
            ≡ ok (record (unmade key_size value_size default_value) { table = d }))
          × IsMap h law (record (unmade key_size value_size default_value) { table = d })
          × (d.n_occupied ≡ 0)
          × ((k : K) → Absent h law d k)
    unfolding make_map resize
    make_map-missing key_size value_size default_value t f =
        let m = unmade key_size value_size default_value in
        let src : IsSource h law m.table = record {
          total = refl;
          single = λ i j lt. absurd (omega (arith, lt));
        } in
        let (n, d, least, ten, run, c) = resize_with-IsCopied h blank law m fuel t 0 src f in
        (
          d,
          run,
          record { is_table = c.is_table; free_left = omega (arith, c.number, c.size, ten) },
          c.number,
          λ k j lt in_use.
              let (i, none_old, rest, key) = c.back j lt in_use in absurd (omega (arith, none_old)),
        )

    -- What fits a number of keys fits fewer.
    pub refits :
        (m m' : Map K V) (t : ℕ)
        → Fits m fuel t
        → (m'.key_size ≡ m.key_size) × (m'.value_size ≡ m.value_size)
        → m'.table.n_occupied * 4 / 3 + 1 ≤ t
        → Fits m' fuel t
    refits m m' t f same few = record {
      twin = f.twin;
      enough = (f.enough.0, few);
      range = f.range;
      key = (rw (same.0) (f.key.0), rw (same.0) (f.key.1));
      value = rw (same.1) (f.value);
    }

    -- The keys of a list are inserted: where there is room for them all, the table shows of every
    -- key what the list shows of it, and else what the table showed before.
    put_all-find :
        (es : List (K × V)) (m : Map K V) (t : ℕ)
        → IsMap h law m
        → Fits m fuel t
        → (m.table.n_occupied + length es) * 4 / 3 + 1 ≤ t
        → ((k : K) → find h m k ≡ ok none)
        → (m' : Map K V) × (put_all es m ≡ ok m')
          × IsMap h law m'
          × ((m'.key_size ≡ m.key_size) × (m'.value_size ≡ m.value_size))
          × (m'.table.n_occupied ≤ m.table.n_occupied + length es)
          × ((k : K) → find h m' k ≡ ok (assoc h es k))
    put_all-find [] m t w f room empty = (m, refl, w, (refl, refl), omega arith, empty)
    put_all-find (e ∷ es) m t w f room empty =
        let (m1, run, w1, same, few, shown) = put_all-find es m t w f (omega (arith, room)) empty in
        let (m2, run', p) =
          map_put-IsPut h law blank m1 fuel t e.0 e.1 w1
            (refits m m1 t f same (omega (arith, few, room))) in
        (
          m2,
          rw run run',
          p.is_map,
          (p.sizes.0 ∙ same.0, p.sizes.1 ∙ same.1),
          omega (arith, p.grown, few),
          λ k. put-find h law m1 m2 e.0 e.1 w1 p k ∙ either_way (h.eq k e.0) (some e.1) (shown k),
        )

    -- In a table that gu_make_map made and gu_map_put filled, gu_map_find finds the value put last
    -- for each key, and no value for any other. All these calls end, where there is a twin prime
    -- that the sizes, the `int`s of the program and the fuel have room for.
    pub make_map-assoc :
        (key_size value_size : ℕ) (default_value : Option V) (t : ℕ) (es : List (K × V))
        → Fits (unmade key_size value_size default_value) fuel t
        → length es * 4 / 3 + 1 ≤ t
        → (m : Map K V) × ((make_map h blank fuel key_size value_size default_value >>= put_all es)
            ≡ ok m)
          × IsMap h law m
          × ((k : K) → find h m k ≡ ok (assoc h es k))
    make_map-assoc key_size value_size default_value t es f room =
        let (d, run, w, number, absent) = make_map-missing key_size value_size default_value t f in
        let m0 = record (unmade key_size value_size default_value) { table = d } in
        let (m, run', w', same, few, shown) =
          put_all-find es m0 t w
            (refits (unmade key_size value_size default_value) m0 t f (refl, refl)
              (omega (arith, number, room)))
            (omega (arith, number, room)) (λ k. find-missing h law m0 k w (absent k)) in
        (m, rw run run', w', shown)
