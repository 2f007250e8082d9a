-- ===== src/Map/Rebuild.antt =====
-- The loop of gu_map_resize of gu/map.c, which inserts the old entries into the new table.
use libpgf.Prelude.{
  ℕ, zero, suc, ◌+◌, ◌*◌, ◌/◌, ◌≤◌, ◌<◌, ◌≡◌, ◌≢◌, ◌⊎◌, refl, sym, ap, ◌∙◌, arith, Bool, true,
  false, not, Bool-cases, inl, inr, ◌==◌, ==_iff, leb, Run, ok,
}
use mathlib.Core.Path.{subst}
use libpgf.Map.Kinds.{IsLawful}
use libpgf.Map.Slots.{used, count}
use libpgf.Map.Lookup.{IsTable}
use libpgf.Map.Located.{Absent, lookup-Located, same_entry}
use libpgf.Map.Occupy.{after, Occupied, occupy-Occupied, put_here, put_there}
use libpgf.Map.{Hasher, Data, Map, entry_is_free, insert_with, put_at, rebuild, rebuild_entry}

count_below : (p : ℕ → Bool) (i n : ℕ) → i ≤ n → count p i ≤ count p n
count_below p zero n le = omega arith
count_below p (suc i) zero le = absurd (omega (arith, le))
count_below p (suc i) (suc n) le = elim (Bool-cases (i == n)) [
  | inl same ↦ rw ((==_iff i n).0 same) (omega arith)
  | inr less ↦
      let below = count_below p (suc i) n (ground (arith, le, less)) in
      elim (Bool-cases (p n)) [ inl yes' ↦ rw yes' (omega (arith, below)) | inr no' ↦ rw no' below ]
]

module _ {ℓ} {K V : Type ℓ} (h : Hasher K) (law : IsLawful h) where
  -- Room for one key more: gu_map_maybe_resize does nothing.
  abbrev pub Roomy : Data K V → Type 0
  Roomy d = d.n_occupied + d.n_occupied / 4 < d.n_entries

  -- What an insertion comes to: the key's entry, or a free one that it takes.
  abbrev pub Placed : Map K V → K → Map K V → ℕ → Type ℓ
  Placed m key m' idx =
      (idx < m.table.n_entries)
      × (((m' ≡ m) × (used h m.table idx ≡ true) × (h.eq key (m.table.keys idx) ≡ true))
          ⊎ ((used h m.table idx ≡ false) × Absent h law m.table key × Occupied h law m key idx m'))

  pub insert_with-Placed :
      (resize : Map K V → Run (Map K V)) (m : Map K V) (key : K)
      → IsTable h m.table
      → Roomy m.table
      → (m' : Map K V) × (idx : ℕ) × (insert_with h resize m key ≡ ok (m', idx))
        × Placed m key m' idx
  unfolding insert_with
  insert_with-Placed resize m key w room =
      let (idx, lt, found) = lookup-Located h law m key w (omega (arith, room)) in
      let no_resize : leb m.table.n_entries (m.table.n_occupied + m.table.n_occupied / 4) ≡ false =
        ground (arith, room) in
      elim found [
        | inl hit ↦ (m, idx, rw (hit.0) refl, (lt, inl (refl, hit.1, hit.2)))
        | inr miss ↦
            let (m', e, o) = occupy-Occupied h law m key idx w lt miss.1 miss.2 miss.3 in
            (m', idx, rw (miss.0, no_resize, e) refl, (lt, inr (miss.1, miss.3, o)))
      ]

  -- The values do not matter.
  pub revalued-IsTable :
      (d : Data K V) (values : ℕ → V) → IsTable h d → IsTable h (record d { values = values })
  revalued-IsTable d values w = record {
    prime = w.prime;
    bounds = w.bounds;
    counted = w.counted;
    zero_entry = w.zero_entry;
    reached = w.reached;
  }

  -- A table to be copied holds no key twice.
  pub record IsSource (old : Data K V) : Type ℓ where
    pub total : count (used h old) old.n_entries ≡ old.n_occupied
    pub single :
        (i j : ℕ)
        → i < old.n_entries
        → j < old.n_entries
        → used h old i ≡ true
        → used h old j ≡ true
        → h.eq (old.keys i) (old.keys j) ≡ true
        → i ≡ j

  pub table-IsSource : (d : Data K V) → IsTable h d → IsSource d
  table-IsSource d w = record { total = w.counted; single = λ i j. same_entry h law d i j w }

  -- The entries of `old` below `i`, and no others, have been copied.
  pub record IsCopied (old : Data K V) (n i : ℕ) (t : Data K V) : Type ℓ where
    pub is_table : IsTable h t
    pub size : t.n_entries ≡ n
    pub number : t.n_occupied ≡ count (used h old) i
    pub there :
        (j : ℕ)
        → j < i
        → used h old j ≡ true
        → (k : ℕ) × (k < t.n_entries)
          × (used h t k ≡ true)
          × (t.keys k ≡ old.keys j)
          × (t.values k ≡ old.values j)
    pub back :
        (k : ℕ)
        → k < t.n_entries
        → used h t k ≡ true
        → (j : ℕ) × (j < i) × (used h old j ≡ true) × (t.keys k ≡ old.keys j)

  -- A free entry is passed over.
  skipped-IsCopied :
      (old : Data K V) (n i : ℕ) (t : Data K V)
      → used h old i ≡ false
      → IsCopied old n i t
      → IsCopied old n (suc i) t
  skipped-IsCopied old n i t free c = record {
    is_table = c.is_table;
    size = c.size;
    number = rw free c.number;
    there = λ j lt in_use.
        let ne : j ≢ i = λ e. absurd (cc (in_use, free, e)) in
        c.there j (omega (arith, lt, ne)) in_use;
    back = λ k lt in_use.
        let (j, less, used_j, key) = c.back k lt in_use in (j, omega (arith, less), used_j, key);
  }

  -- An entry in use is copied.
  added-IsCopied :
      (old : Data K V) (n i idx : ℕ) (t : Data K V) (values : ℕ → V) (zero_idx : ℕ)
      → used h old i ≡ true
      → IsCopied old n i t
      → idx < t.n_entries
      → used h t idx ≡ false
      → IsTable h (after h t (old.keys i) idx values zero_idx)
      → (used h (after h t (old.keys i) idx values zero_idx) idx ≡ true)
      → ((j : ℕ)
          → j < t.n_entries
          → j ≢ idx
          → used h (after h t (old.keys i) idx values zero_idx) j ≡ used h t j)
      → ((j : ℕ) → j ≢ idx → values j ≡ t.values j)
      → IsCopied old n
          (suc i)
          (after h t (old.keys i) idx (put_at values idx (old.values i)) zero_idx)
  added-IsCopied old n i idx t values zero_idx in_use c lt free w here others same = record {
    is_table =
        revalued-IsTable (after h t (old.keys i) idx values zero_idx)
          (put_at values idx (old.values i)) w;
    size = c.size;
    number = rw (in_use, c.number) (omega arith);
    there = λ j less used_j. elim (Bool-cases (j == i)) [
      | inl e ↦
          rw ((==_iff j i).0 e)
            (idx, lt, here, put_here t.keys idx (old.keys i), put_here values idx (old.values i))
      | inr e ↦
          let (k, lt', used_k, key, value) = c.there j (ground (arith, less, e)) used_j in
          let ne : k ≢ idx = λ e'. absurd (cc (used_k, free, e')) in
          (
            k,
            lt',
            others k lt' ne ∙ used_k,
            put_there t.keys idx (old.keys i) k ne ∙ key,
            put_there values idx (old.values i) k ne ∙ same k ne ∙ value,
          )
    ];
    back = λ k less used_k. elim (Bool-cases (k == idx)) [
      | inl e ↦ (i, omega arith, in_use, rw ((==_iff k idx).0 e) (put_here t.keys idx (old.keys i)))
      | inr e ↦
          let ne : k ≢ idx = ground (arith, e) in
          let (j, lt', used_j, key) = c.back k less (sym (others k less ne) ∙ used_k) in
          (j, omega (arith, lt'), used_j, put_there t.keys idx (old.keys i) k ne ∙ key)
    ];
  }

  module _ (resize : Map K V → Run (Map K V)) (m : Map K V) (old : Data K V) (n : ℕ)
      (src : IsSource old) (room : old.n_occupied * 4 / 3 + 1 ≤ n) where
    still-Roomy :
        (i : ℕ) (t : Data K V)
        → i < old.n_entries
        → used h old i ≡ true
        → IsCopied old n i t
        → Roomy t
    still-Roomy i t lt in_use c =
        let one : count (used h old) (suc i) ≡ suc (count (used h old) i) = rw in_use refl in
        let few = count_below (used h old) (suc i) old.n_entries (omega (arith, lt)) in
        omega (arith, one, few, src.total, c.number, c.size, room)

    -- The entry of the key is not yet in the new table.
    not_twice :
        (i idx : ℕ) (t : Data K V)
        → i < old.n_entries
        → used h old i ≡ true
        → IsCopied old n i t
        → idx < t.n_entries
        → used h t idx ≡ true
        → h.eq (old.keys i) (t.keys idx) ≡ true
        → ⊥
    not_twice i idx t lt in_use c lt' used_idx e =
        let (j, less, used_j, key) = c.back idx lt' used_idx in
        let same =
          src.single i j lt (omega (arith, less, lt)) in_use used_j
            (ap (h.eq (old.keys i)) (sym key) ∙ e) in
        omega (arith, same, less)

    entry-IsCopied :
        (i : ℕ) (t : Data K V)
        → i < old.n_entries
        → IsCopied old n i t
        → (t' : Data K V) × (rebuild_entry h (insert_with h resize) old i (record m { table = t })
            ≡ ok (record m { table = t' }))
          × IsCopied old n (suc i) t'
    unfolding rebuild_entry
    entry-IsCopied i t lt c = elim (Bool-cases (entry_is_free h old i)) [
      | inl out ↦ (t, rw out refl, skipped-IsCopied old n i t (ap not out) c)
      | inr out ↦
          let in_use : used h old i ≡ true = ap not out in
          let (m', idx, e, (lt', placed)) =
            insert_with-Placed resize (record m { table = t }) (old.keys i) c.is_table
              (still-Roomy i t lt in_use c) in
          elim placed [
            | inl found ↦ absurd (not_twice i idx t lt in_use c lt' found.1 found.2)
            | inr fresh ↦
                let (free, absent, o) = fresh in
                let (values, zero_idx, e', w, here, others, same) = o in
                (
                  after h t (old.keys i) idx (put_at values idx (old.values i)) zero_idx,
                  rw (out, e, e') refl,
                  added-IsCopied old n i idx t values zero_idx in_use c lt' free w here others same,
                )
          ]
    ]

    pub rebuild-IsCopied :
        (left i : ℕ) (t : Data K V)
        → left + i ≡ old.n_entries
        → IsCopied old n i t
        → (t' : Data K V) × (rebuild h (insert_with h resize) old left i (record m { table = t })
            ≡ ok (record m { table = t' }))
          × IsCopied old n old.n_entries t'
    unfolding rebuild
    rebuild-IsCopied zero i t e c =
        let all : i ≡ old.n_entries = omega (arith, e) in
        (t, refl, subst (λ k. IsCopied old n k t) all c)
    rebuild-IsCopied (suc left) i t e c =
        let (t1, e1, c1) = entry-IsCopied i t (omega (arith, e)) c in
        let (t2, e2, c2) = rebuild-IsCopied left (suc i) t1 (omega (arith, e)) c1 in
        (
          t2,
          rw e1 (
              ap (λ k. rebuild h (insert_with h resize) old left k (record m { table = t1 }))
                {x = i + 1} {y = suc i} (omega arith)
              ∙ e2),
          c2,
        )
