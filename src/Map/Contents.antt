-- ===== src/Map/Contents.antt =====
-- What gu_map_find of gu/map.c shows of a table, and of the copy that gu_map_resize makes.
use libpgf.Prelude.{ℕ, ◌<◌, ◌≡◌, refl, sym, ap, ◌∙◌, true, inl, inr, ok, some, none}
use libpgf.Map.Kinds.{IsLawful}
use libpgf.Map.Slots.{used}
use libpgf.Map.Lookup.{IsTable}
use libpgf.Map.Located.{Absent, find-Absent, same_entry}
use libpgf.Map.Rebuild.{IsCopied}
use libpgf.Map.{Hasher, Data, Map, find}

module _ {ℓ} {K V : Type ℓ} (h : Hasher K) (law : IsLawful h) where
  -- A table as gu_map_insert leaves it, with a free entry.
  pub record IsMap (m : Map K V) : Type ℓ where
    pub is_table : IsTable h m.table
    pub free_left : m.table.n_occupied < m.table.n_entries

  abbrev pub Holds : Data K V → K → V → Type ℓ
  Holds d k v =
      (j : ℕ) × (j < d.n_entries)
      × (used h d j ≡ true)
      × (h.eq k (d.keys j) ≡ true)
      × (d.values j ≡ v)

  pub find-Holds :
      (m : Map K V) (k : K) (v : V) → IsMap m → Holds m.table k v → find h m k ≡ ok (some v)
  find-Holds m k v w (j, lt, in_use, e, value) =
      elim (find-Absent h law m k w.is_table w.free_left) [
        | inl out ↦ absurd (cc (out.1 j lt in_use, e))
        | inr found ↦
            let (i, run, lt', in_use', e') = found in
            let d = m.table in
            let same =
              same_entry h law d i j w.is_table lt' lt in_use' in_use
                (law.eq_trans (d.keys i) k (d.keys j) (law.eq_sym k (d.keys i) e') e) in
            run ∙ ap (λ n. ok (some (d.values n))) same ∙ ap (λ u. ok (some u)) value
      ]

  pub find-missing : (m : Map K V) (k : K) → IsMap m → Absent h law m.table k → find h m k ≡ ok none
  find-missing m k w absent = elim (find-Absent h law m k w.is_table w.free_left) [
    | inl out ↦ out.0
    | inr found ↦ let (i, run, lt, in_use, e) = found in absurd (cc (absent i lt in_use, e))
  ]

  -- What one table shows of a key the other shows.
  abbrev pub Carries : Data K V → Data K V → K → Type ℓ
  Carries d d' k = (Absent h law d k → Absent h law d' k) × ((v : V) → Holds d k v → Holds d' k v)

  pub Carries-find :
      (m m' : Map K V) (k : K)
      → IsMap m
      → IsMap m'
      → Carries m.table m'.table k
      → find h m' k ≡ find h m k
  Carries-find m m' k w w' c = elim (find-Absent h law m k w.is_table w.free_left) [
    | inl out ↦ find-missing m' k w' (c.0 out.1) ∙ sym (out.0)
    | inr found ↦
        let (i, run, lt, in_use, e) = found in
        find-Holds m' k (m.table.values i) w' (c.1 (m.table.values i) (i, lt, in_use, e, refl))
        ∙ sym run
  ]

  pub copied-Carries :
      (old d : Data K V) (n : ℕ) (k : K) → IsCopied h law old n old.n_entries d → Carries old d k
  copied-Carries old d n k c = (
    λ absent j lt in_use.
        let (i, lt', used_i, key) = c.back j lt in_use in ap (h.eq k) key ∙ absent i lt' used_i,
    λ v held.
        let (j, lt, in_use, e, value) = held in
        let (i, lt', used_i, key, value') = c.there j lt in_use in
        (i, lt', used_i, ap (h.eq k) key ∙ e, value' ∙ value),
  )
