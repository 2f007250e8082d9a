-- ===== src/Map/Insert.antt =====
-- gu_map_insert and the macro gu_map_put of gu/map.c and gu/map.h: what a table shows after them.
use libpgf.Prelude.{
  ℕ, suc, ◌+◌, ◌/◌, ◌≡◌, refl, sym, arith, true, false, Bool-cases, inl, inr, if◌then◌else◌, leb,
  Run, ok, some,
}
use mathlib.Core.Path.{subst}
use libpgf.Map.Kinds.{IsLawful}
use libpgf.Map.Located.{Absent, lookup-Located}
use libpgf.Map.Occupy.{occupy-Occupied}
use libpgf.Map.Rebuild.{Roomy, table-IsSource, insert_with-Placed}
use libpgf.Map.Resize.{Fits, resize_with-IsCopied}
use libpgf.Map.{
  Hasher, Map, lookup, find, occupy, insert_with, insert, map_insert, map_put, write_value,
  resize_with,
}
use libpgf.Map.Contents.{IsMap, find-Holds, Carries-find, copied-Carries}
use libpgf.Map.Written.{IsPut, found-IsPut, fresh-IsPut, copied-IsPut}

module _ {ℓ} {K V : Type ℓ} (h : Hasher K) (law : IsLawful h) where
  module _ (blank : V) where
    -- gu_map_insert where the table has room.
    with_room-IsPut :
        (resize : Map K V → Run (Map K V)) (m : Map K V) (key : K) (v : V)
        → IsMap h law m
        → Roomy h law m.table
        → (m' : Map K V) × (idx : ℕ) × (insert_with h resize m key ≡ ok (m', idx))
          × IsPut h law m key v (write_value m' idx v)
    with_room-IsPut resize m key v w room =
        let (m', idx, e, (lt, placed)) = insert_with-Placed h law resize m key w.is_table room in
        elim placed [
          | inl found ↦ (
            m',
            idx,
            e,
            subst (λ x. IsPut h law m key v (write_value x idx v)) (sym found.0)
                (found-IsPut h law m key v idx w lt found.1 found.2),
          )
          | inr fresh ↦ (m', idx, e, fresh-IsPut h law m key v idx m' room lt fresh.0 fresh.2)
        ]

    insert_found :
        (resize : Map K V → Run (Map K V)) (m : Map K V) (key : K) (i : ℕ)
        → lookup h m key ≡ ok (true, i)
        → insert_with h resize m key ≡ ok (m, i)
    unfolding insert_with
    insert_found resize m key i e = rw e refl

    insert_resized :
        (resize : Map K V → Run (Map K V)) (m t m' : Map K V) (key : K) (i j : ℕ)
        → leb m.table.n_entries (m.table.n_occupied + m.table.n_occupied / 4) ≡ true
        → lookup h m key ≡ ok (false, i)
        → resize m ≡ ok t
        → lookup h t key ≡ ok (false, j)
        → occupy h t key j ≡ ok m'
        → insert_with h resize m key ≡ ok (m', j)
    unfolding insert_with
    insert_resized resize m t m' key i j full e1 e2 e3 e4 = rw (e1, full, e2, e3, e4) refl

    resized-IsPut :
        (m : Map K V) (fuel t depth : ℕ) (key : K) (v : V) (i : ℕ)
        → IsMap h law m
        → Fits m fuel t
        → leb m.table.n_entries (m.table.n_occupied + m.table.n_occupied / 4) ≡ true
        → lookup h m key ≡ ok (false, i)
        → Absent h law m.table key
        → (m' : Map K V) × (idx : ℕ) × (insert_with h
              (resize_with h blank fuel (insert h blank fuel (suc depth)))
              m
              key
            ≡ ok (m', idx))
          × IsPut h law m key v (write_value m' idx v)
    resized-IsPut m fuel t depth key v i w f full miss absent =
        let src = table-IsSource h law m.table w.is_table in
        let (n, d, least, ten, run, c) = resize_with-IsCopied h blank law m fuel t depth src f in
        let t1 = record m { table = d } in
        let room : Roomy h law d = omega (arith, c.size, c.number, src.total, least) in
        let gone = (copied-Carries h law m.table d n key c).0 absent in
        let (j, lt, found) = lookup-Located h law t1 key c.is_table (omega (arith, room)) in
        elim found [
          | inl hit ↦ absurd (cc (gone j lt hit.1, hit.2))
          | inr miss' ↦
              let (m', e, o) = occupy-Occupied h law t1 key j c.is_table lt miss'.1 miss'.2 gone in
              (
                m',
                j,
                insert_resized (resize_with h blank fuel (insert h blank fuel (suc depth))) m t1 m'
                    key i j full miss run miss'.0 e,
                copied-IsPut h law m (write_value m' j v) d n key v src c
                    (fresh-IsPut h law t1 key v j m' room lt miss'.1 o),
              )
        ]

    -- It resizes the table first where that is full, and the key is missing.
    full-IsPut :
        (m : Map K V) (fuel t depth : ℕ) (key : K) (v : V)
        → IsMap h law m
        → Fits m fuel t
        → leb m.table.n_entries (m.table.n_occupied + m.table.n_occupied / 4) ≡ true
        → (m' : Map K V) × (idx : ℕ) × (insert_with h
              (resize_with h blank fuel (insert h blank fuel (suc depth)))
              m
              key
            ≡ ok (m', idx))
          × IsPut h law m key v (write_value m' idx v)
    full-IsPut m fuel t depth key v w f full =
        let (i, lt, found) = lookup-Located h law m key w.is_table w.free_left in
        elim found [
          | inl hit ↦ (
            m,
            i,
            insert_found (resize_with h blank fuel (insert h blank fuel (suc depth))) m key i hit.0,
            found-IsPut h law m key v i w lt hit.1 hit.2,
          )
          | inr miss ↦ resized-IsPut m fuel t depth key v i w f full miss.0 miss.3
        ]

    pub map_put-IsPut :
        (m : Map K V) (fuel t : ℕ) (key : K) (v : V)
        → IsMap h law m
        → Fits m fuel t
        → (m' : Map K V) × (map_put h blank fuel m key v ≡ ok m') × IsPut h law m key v m'
    unfolding map_put map_insert insert
    map_put-IsPut m fuel t key v w f =
        elim (Bool-cases (leb m.table.n_entries (m.table.n_occupied + m.table.n_occupied / 4))) [
          | inl full ↦
              let (m', idx, e, p) = full-IsPut m fuel t 0 key v w f full in
              (write_value m' idx v, rw e refl, p)
          | inr room ↦
              let (m', idx, e, p) =
                with_room-IsPut (resize_with h blank fuel (insert h blank fuel 1)) m key v w
                  (ground (arith, room)) in
              (write_value m' idx v, rw e refl, p)
        ]

  pub put-find :
      (m m' : Map K V) (key : K) (v : V)
      → IsMap h law m
      → IsPut h law m key v m'
      → (k : K) → find h m' k ≡ (if h.eq k key then ok (some v) else find h m k)
  put-find m m' key v w p k = elim (Bool-cases (h.eq k key)) [
    | inl same ↦
        let (j, lt, in_use, e, value) = p.own in
        rw same (
          find-Holds h law m' k v p.is_map
            (j, lt, in_use, law.eq_trans k key (m'.table.keys j) same e, value))
    | inr other ↦ rw other (Carries-find h law m m' k w p.is_map (p.others k other))
  ]

  module _ (blank : V) where
    -- Where the table can grow, gu_map_put ends and leaves a table in which gu_map_find finds the
    -- new value for the keys equal to the one given, and for every other key what it found before.
    pub map_put-find :
        (m : Map K V) (fuel t : ℕ) (key : K) (v : V)
        → IsMap h law m
        → Fits m fuel t
        → (m' : Map K V) × (map_put h blank fuel m key v ≡ ok m')
          × IsMap h law m'
          × ((k : K) → find h m' k ≡ (if h.eq k key then ok (some v) else find h m k))
    map_put-find m fuel t key v w f =
        let (m', e, p) = map_put-IsPut blank m fuel t key v w f in
        (m', e, p.is_map, put-find m m' key v w p)
