-- ===== src/Map/Located.antt =====
-- What gu_map_lookup and gu_map_find of gu/map.c find: an entry with the key, or that there is none.
use libpgf.Prelude.{
  ℕ, ◌+◌, ◌-◌, ◌*◌, ◌%◌, ◌<◌, ◌≡◌, ◌⊎◌, refl, sym, ap, ◌∙◌, arith, Bool, true, false, Bool-cases,
  inl, inr, ◌==◌, ==_iff, ltb, Run, ok, none, some, ltb→lt, lt→ltb,
}
use native.Mathlib.Nat.{mod-lt}
use libpgf.Map.Cycle.{slot, slot-meets}
use libpgf.Map.Kinds.{IsLawful}
use libpgf.Map.Slots.{used, left_out}
use libpgf.Map.Lookup.{Stops, Passes, path, Reached, IsTable, probe-Stops}
use libpgf.Map.{Hasher, Data, Map, probe, lookup, find}

not_true : (b : Bool) → (b ≡ true → ⊥) → b ≡ false
not_true true no' = absurd (no' refl)
not_true false no' = refl

module _ {ℓ} {K V : Type ℓ} (h : Hasher K) (law : IsLawful h) where
  -- No entry holds the key.
  abbrev pub Absent : Data K V → K → Type 0
  Absent d key = (j : ℕ) → j < d.n_entries → used h d j ≡ true → h.eq key (d.keys j) ≡ false

  -- The key stands at an entry, or at none, and then the entry is a free one that the search for
  -- the key ends at.
  abbrev pub Located : Data K V → K → Run (Bool × ℕ) → ℕ → Type 0
  Located d key r idx =
      ((r ≡ ok (true, idx)) × (used h d idx ≡ true) × (h.eq key (d.keys idx) ≡ true))
      ⊎ ((r ≡ ok (false, idx)) × (used h d idx ≡ false) × Reached h d key idx × Absent d key)

  same_path : (d : Data K V) (key l : K) (t : ℕ) → h.eq key l ≡ true → path h d key t ≡ path h d l t
  same_path d key l t e =
      ap (λ x. slot d.n_entries (x % (d.n_entries - 2) + 1) (x % d.n_entries) t)
        (law.hash_eq key l e)

  -- A search that ended at a free entry passed by no entry with the key.
  past-Absent :
      (d : Data K V) (key : K) (t : ℕ)
      → IsTable h d
      → used h d (path h d key t) ≡ false
      → ((u : ℕ) → u < t → Passes h d key (path h d key u))
      → (j : ℕ) → j < d.n_entries
      → used h d j ≡ true
      → h.eq key (d.keys j) ≡ true
      → ⊥
  past-Absent d key t w free before j lt in_use e =
      let (t1, at, clear) = w.reached j lt in_use in
      let at' : path h d key t1 ≡ j = same_path d key (d.keys j) t1 e ∙ at in
      elim (Bool-cases (ltb t t1)) [
        | inl short ↦
            let pass = clear t (ltb→lt t t1 short) in
            absurd (cc (pass.0, free, same_path d key (d.keys j) t e))
        | inr long ↦ elim (Bool-cases (t1 == t)) [
          | inl same ↦ absurd (cc (free, in_use, at', (==_iff t1 t).0 same))
          | inr other ↦
              let pass = before t1 (ground (arith, long, other)) in absurd (cc (pass.1, e, at'))
        ]
      ]

  ended :
      (d : Data K V) (key : K) (r : Run (Bool × ℕ)) (t : ℕ)
      → IsTable h d
      → r ≡ ok (used h d (path h d key t), path h d key t)
      → Stops h d key (path h d key t)
      → ((u : ℕ) → u < t → Passes h d key (path h d key u))
      → Located d key r (path h d key t)
  ended d key r t w e stop before = elim stop [
    | inl out ↦ inr (
      e ∙ ap (λ b. ok (b, path h d key t)) out,
      out,
      (t, refl, before),
      λ j lt in_use. not_true (h.eq key (d.keys j)) (past-Absent d key t w out before j lt in_use),
    )
    | inr hit ↦ inl (e ∙ ap (λ b. ok (b, path h d key t)) hit.0, hit.0, hit.1)
  ]

  pub probe-Located :
      (d : Data K V) (key : K)
      → IsTable h d
      → d.n_occupied < d.n_entries
      → (idx : ℕ) × (idx < d.n_entries)
        × Located d key
            (probe h d.n_entries d key
              (h.hash key % (d.n_entries - 2) + 1)
              (h.hash key % d.n_entries))
            idx
  probe-Located d key w few =
      let n = d.n_entries in
      let c = h.hash key % (n - 2) + 1 in
      let i = h.hash key % n in
      let hi : i < n = mod-lt (h.hash key) (omega (arith, w.bounds)) in
      let hc : c < n =
        omega (arith, w.bounds, mod-lt (h.hash key) {m = n - 2} (omega (arith, w.bounds))) in
      let (j, lt, free) = left_out (used h d) n (omega (arith, w.counted, few)) in
      let (t0, bound, at) = slot-meets n c i j w.prime (omega arith) hc hi lt in
      let (t, e, stop, before) =
        probe-Stops h n d key c i t0 hi hc w.bounds.1 bound (rw at (inl free)) in
      let inside : slot n c i t < n = mod-lt (i + t * c) (omega (arith, hi)) in
      (slot n c i t, inside, ended d key _ t w e stop before)

  -- In a table as gu_map_insert leaves it that has a free entry, gu_map_lookup ends, at an entry
  -- that holds the key, or else at a free one, and then no entry holds the key.
  pub lookup-Located :
      (m : Map K V) (key : K)
      → IsTable h m.table
      → m.table.n_occupied < m.table.n_entries
      → (idx : ℕ) × (idx < m.table.n_entries) × Located m.table key (lookup h m key) idx
  unfolding lookup
  lookup-Located m key w few =
      rw (lt→ltb 2 m.table.n_entries (omega (arith, w.bounds))) (probe-Located m.table key w few)

  -- Two entries do not hold the same key.
  pub same_entry :
      (d : Data K V) (i j : ℕ)
      → IsTable h d
      → i < d.n_entries
      → j < d.n_entries
      → used h d i ≡ true
      → used h d j ≡ true
      → h.eq (d.keys i) (d.keys j) ≡ true
      → i ≡ j
  same_entry d i j w li lj ui uj e =
      let (t, at, clear) = w.reached i li ui in
      let (t', at', clear') = w.reached j lj uj in
      let swap = same_path d (d.keys i) (d.keys j) in
      elim (Bool-cases (ltb t t')) [
        | inl short ↦
            let pass = clear' t (ltb→lt t t' short) in
            absurd (cc (pass.1, sym (swap t e) ∙ at, law.eq_sym (d.keys i) (d.keys j) e))
        | inr long ↦ elim (Bool-cases (t == t')) [
          | inl same ↦ sym at ∙ swap t e ∙ ap (path h d (d.keys j)) ((==_iff t t').0 same) ∙ at'
          | inr other ↦
              let pass = clear t' (ground (arith, long, other)) in
              absurd (cc (pass.1, swap t' e ∙ at', e))
        ]
      ]

  -- gu_map_find ends. It returns the value of an entry that holds the key, or NULL, and then no
  -- entry holds it.
  pub find-Absent :
      (m : Map K V) (key : K)
      → IsTable h m.table
      → m.table.n_occupied < m.table.n_entries
      → ((find h m key ≡ ok none) × Absent m.table key)
        ⊎ ((j : ℕ) × (find h m key ≡ ok (some (m.table.values j)))
            × (j < m.table.n_entries)
            × (used h m.table j ≡ true)
            × (h.eq key (m.table.keys j) ≡ true))
  unfolding find
  find-Absent m key w few =
      let (idx, lt, found) = lookup-Located m key w few in
      elim found [
        | inl hit ↦ inr (idx, rw (hit.0) refl, lt, hit.1, hit.2)
        | inr miss ↦ inl (rw (miss.0) refl, miss.3)
      ]
