-- ===== src/Map/Tests.antt =====
-- Runs of the functions of gu/map.c on tables of words.
use libpgf.Prelude.{
  ℕ, ◌+◌, ◌*◌, ◌/◌, ◌≤◌, ◌<◌, ◌≡◌, inl, inr, refl, arith, true, if◌then◌else◌, Run, ok, ◌>>=◌,
  Option, some, none, List, [], ◌∷◌,
}
use libpgf.Prime.Primality.{IsPrime, small-Prime}
use libpgf.Prime.{in_mask}
use libpgf.Map.Kinds.{word_hasher, word_hasher-IsLawful}
use libpgf.Map.Located.{Located, lookup-Located}
use libpgf.Map.Rebuild.{IsCopied, table-IsSource}
use libpgf.Map.Resize.{Fits, resize_with-IsCopied}
use libpgf.Map.Contents.{IsMap}
use libpgf.Map.Written.{IsPut}
use libpgf.Map.Insert.{map_put-IsPut, map_put-find}
use libpgf.Map.Sequence.{assoc, put_all, unmade, make_map-missing, make_map-assoc, refits}
use libpgf.Map.Enumerate.{collect, iter-find}
use libpgf.Prime.{twin_prime_inf, twin_prime_sup}
use libpgf.Memory.{buf_size}
use libpgf.Map.{
  Map, Data, map_set, find, find_default, map_has, lookup, insert, map_put, make_map, resize_with,
  iter, enum_next, map_keys,
}

-- Three keys, of which one is zero and one is put twice.
abbrev pairs : List (ℕ × ℕ)
pairs = (3, 30) ∷ (0, 5) ∷ (24, 6) ∷ (3, 31) ∷ []

table_of : Option ℕ → Run (Map ℕ ℕ)
unfolding make_map map_put twin_prime_sup twin_prime_inf buf_size
table_of default_value =
    make_map word_hasher 0 65 8 8 default_value >>= put_all word_hasher 0 65 pairs

last_put : (table_of none >>= λ m. find word_hasher m 3) ≡ ok (some 30)
unfolding table_of find
last_put = refl

zero_key : (table_of none >>= λ m. find word_hasher m 0) ≡ ok (some 5)
unfolding table_of find
zero_key = refl

missing : (table_of (some 9) >>= λ m. find_default word_hasher m 7) ≡ ok (some 9)
unfolding table_of find_default
missing = refl

member : (table_of none >>= λ m. map_has word_hasher m 24) ≡ ok true
unfolding table_of map_has
member = refl

overwritten :
    (table_of none >>= λ m. map_set word_hasher m 24 1 >>= λ t. find word_hasher t 24) ≡ ok (some 1)
unfolding table_of map_set find
overwritten = refl

first_key : (table_of none >>= λ m. ok ((enum_next word_hasher map_keys m).0)) ≡ ok (some (inl 0))
unfolding table_of enum_next
first_key = refl

IsPrime-13 : IsPrime 13
unfolding in_mask
IsPrime-13 = elim (small-Prime 13 (omega arith)) [ inl h ↦ h.1 | inr h ↦ absurd (cc (h.0)) ]

IsPrime-11 : IsPrime 11
unfolding in_mask
IsPrime-11 = elim (small-Prime 11 (omega arith)) [ inl h ↦ h.1 | inr h ↦ absurd (cc (h.0)) ]

-- A table of words with words as values.
abbrev unmade_words : Map ℕ ℕ
unmade_words = unmade word_hasher 0 65 8 8 none

Fits-13 : Fits unmade_words 65 13
Fits-13 = record {
  twin = (IsPrime-13, IsPrime-11);
  enough = (omega arith, omega arith);
  range = (omega arith, omega arith);
  key = (omega arith, omega arith);
  value = omega arith;
}

abbrev made : Map ℕ ℕ
made = record unmade_words {
  table = (make_map-missing word_hasher 0 65 word_hasher-IsLawful 8 8 none 13 Fits-13).0;
}

made-IsMap : IsMap word_hasher word_hasher-IsLawful made
made-IsMap = (make_map-missing word_hasher 0 65 word_hasher-IsLawful 8 8 none 13 Fits-13).2

made-Fits : Fits made 65 13
made-Fits =
    refits word_hasher 0 65 word_hasher-IsLawful unmade_words made 13 Fits-13 (refl, refl)
      (omega
        (arith, (make_map-missing word_hasher 0 65 word_hasher-IsLawful 8 8 none 13 Fits-13).3))

-- With a value for the key 0, whose entry is the zero entry.
one_put :
    (m : Map ℕ ℕ) × (map_put word_hasher 0 65 made 0 7 ≡ ok m)
    × IsPut word_hasher word_hasher-IsLawful made 0 7 m
one_put = map_put-IsPut word_hasher word_hasher-IsLawful 0 made 65 13 0 7 made-IsMap made-Fits

one-Fits : Fits (one_put.0) 65 13
one-Fits =
    refits word_hasher 0 65 word_hasher-IsLawful made (one_put.0) 13 made-Fits one_put.2.sizes (
      omega (
        arith,
        one_put.2.grown,
        (make_map-missing word_hasher 0 65 word_hasher-IsLawful 8 8 none 13 Fits-13).3,
      ))

map_put-find_example :
    (m' : Map ℕ ℕ) × (map_put word_hasher 0 65 (one_put.0) 3 30 ≡ ok m')
    × IsMap word_hasher word_hasher-IsLawful m'
    × ((k : ℕ)
        → find word_hasher m' k
          ≡ (if word_hasher.eq k 3 then ok (some 30) else find word_hasher (one_put.0) k))
map_put-find_example =
    map_put-find word_hasher word_hasher-IsLawful 0 (one_put.0) 65 13 3 30 one_put.2.is_map one-Fits

make_map-assoc_example :
    (m : Map ℕ ℕ) × ((make_map word_hasher 0 65 8 8 none >>= put_all word_hasher 0 65 pairs) ≡ ok m)
    × IsMap word_hasher word_hasher-IsLawful m
    × ((k : ℕ) → find word_hasher m k ≡ ok (assoc word_hasher pairs k))
make_map-assoc_example =
    make_map-assoc word_hasher 0 65 word_hasher-IsLawful 8 8 none 13 pairs Fits-13 (omega arith)

lookup-Located_example :
    (idx : ℕ) × (idx < made.table.n_entries)
    × Located word_hasher word_hasher-IsLawful made.table 3 (lookup word_hasher made 3) idx
lookup-Located_example =
    lookup-Located word_hasher word_hasher-IsLawful made 3 made-IsMap.is_table made-IsMap.free_left

resize_with-IsCopied_example :
    (n : ℕ) × (d : Data ℕ ℕ) × ((one_put.0).table.n_occupied * 4 / 3 + 1 ≤ n)
    × (10 < n)
    × (resize_with word_hasher 0 65 (insert word_hasher 0 65 1) (one_put.0)
        ≡ ok (record one_put.0 { table = d }))
    × IsCopied word_hasher word_hasher-IsLawful (one_put.0).table n (one_put.0).table.n_entries d
resize_with-IsCopied_example =
    resize_with-IsCopied word_hasher 0 word_hasher-IsLawful (one_put.0) 65 13 0
      (table-IsSource word_hasher word_hasher-IsLawful (one_put.0).table one_put.2.is_map.is_table)
      one-Fits

iter-find_example :
    (l : List (ℕ × ℕ)) × (iter word_hasher collect [] (one_put.0) ≡ ok (l, one_put.0))
    × ((k : ℕ) → find word_hasher (one_put.0) k ≡ ok (assoc word_hasher l k))
iter-find_example = iter-find word_hasher word_hasher-IsLawful (one_put.0) one_put.2.is_map
