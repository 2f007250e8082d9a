-- ===== src/Map/Written.antt =====
-- A value written to the entry of a key that gu_map_insert of gu/map.c found or made.
use libpgf.Prelude.{
  ℕ, ◌+◌, ◌≤◌, ◌<◌, ◌≡◌, ◌≢◌, refl, sym, ap, ◌∙◌, arith, true, false, Bool-cases, inl, inr, ◌==◌,
  ==_iff,
}
use mathlib.Core.Path.{subst}
use libpgf.Map.Kinds.{IsLawful}
use libpgf.Map.Slots.{used}
use libpgf.Map.Lookup.{IsTable}
use libpgf.Map.Occupy.{after, Occupied, put_here, put_there}
use libpgf.Map.Rebuild.{Roomy, IsSource, IsCopied, revalued-IsTable}
use libpgf.Map.{Hasher, Data, Map, put_at, write_value}
use libpgf.Map.Contents.{IsMap, Holds, Carries, copied-Carries}

module _ {ℓ} {K V : Type ℓ} (h : Hasher K) (law : IsLawful h) where
  -- The map with a value for one key.
  pub record IsPut (m : Map K V) (key : K) (v : V) (m' : Map K V) : Type ℓ where
    pub is_map : IsMap h law m'
    pub own : Holds h law m'.table key v
    pub others : (k : K) → h.eq k key ≡ false → Carries h law m.table m'.table k
    pub grown : m'.table.n_occupied ≤ m.table.n_occupied + 1
    pub sizes : (m'.key_size ≡ m.key_size) × (m'.value_size ≡ m.value_size)

  pub found-IsPut :
      (m : Map K V) (key : K) (v : V) (idx : ℕ)
      → IsMap h law m
      → idx < m.table.n_entries
      → used h m.table idx ≡ true
      → h.eq key (m.table.keys idx) ≡ true
      → IsPut m key v (write_value m idx v)
  found-IsPut m key v idx w lt in_use e = record {
    is_map = record {
      is_table = revalued-IsTable h law m.table (put_at m.table.values idx v) w.is_table;
      free_left = w.free_left;
    };
    own = (idx, lt, in_use, e, put_here m.table.values idx v);
    others = λ k ne. (
      λ absent j. absent j,
      λ u held.
          let (j, lt', used_j, e', value) = held in
          let apart : j ≢ idx = λ same. absurd (
            cc (
              ne,
              law.eq_trans k (m.table.keys idx) key
                  (ap (λ i. h.eq k (m.table.keys i)) (sym same) ∙ e')
                  (law.eq_sym key (m.table.keys idx) e),
            )) in
          (j, lt', used_j, e', put_there m.table.values idx v j apart ∙ value),
    );
    grown = omega arith;
    sizes = (refl, refl);
  }

  written-IsPut :
      (m : Map K V) (key : K) (v : V) (idx : ℕ) (values : ℕ → V) (zero_idx : ℕ)
      → Roomy h law m.table
      → idx < m.table.n_entries
      → used h m.table idx ≡ false
      → IsTable h (after h m.table key idx values zero_idx)
      → used h (after h m.table key idx values zero_idx) idx ≡ true
      → ((j : ℕ)
          → j < m.table.n_entries
          → j ≢ idx
          → used h (after h m.table key idx values zero_idx) j ≡ used h m.table j)
      → ((j : ℕ) → j ≢ idx → values j ≡ m.table.values j)
      → IsPut m key v
          (write_value (record m { table = after h m.table key idx values zero_idx }) idx v)
  written-IsPut m key v idx values zero_idx room lt free w here others same = record {
    is_map = record {
      is_table =
          revalued-IsTable h law (after h m.table key idx values zero_idx) (put_at values idx v) w;
      free_left = omega (arith, room, w.bounds);
    };
    own = (
      idx,
      lt,
      here,
      ap (h.eq key) (put_here m.table.keys idx key) ∙ law.eq_refl key,
      put_here values idx v,
    );
    others = λ k ne. (
      λ absent j lt' used_j. elim (Bool-cases (j == idx)) [
        | inl e ↦ rw ((==_iff j idx).0 e, put_here m.table.keys idx key) ne
        | inr e ↦
            let apart : j ≢ idx = ground (arith, e) in
            ap (h.eq k) (put_there m.table.keys idx key j apart)
            ∙ absent j lt' (sym (others j lt' apart) ∙ used_j)
      ],
      λ u held.
          let (j, lt', used_j, e', value) = held in
          let apart : j ≢ idx = λ e. absurd (cc (used_j, free, e)) in
          (
            j,
            lt',
            others j lt' apart ∙ used_j,
            ap (h.eq k) (put_there m.table.keys idx key j apart) ∙ e',
            put_there values idx v j apart ∙ same j apart ∙ value,
          ),
    );
    grown = omega arith;
    sizes = (refl, refl);
  }

  pub fresh-IsPut :
      (m : Map K V) (key : K) (v : V) (idx : ℕ) (m' : Map K V)
      → Roomy h law m.table
      → idx < m.table.n_entries
      → used h m.table idx ≡ false
      → Occupied h law m key idx m'
      → IsPut m key v (write_value m' idx v)
  fresh-IsPut m key v idx m' room lt free (values, zero_idx, e, w, here, others, same) =
      subst (λ x. IsPut m key v (write_value x idx v)) (sym e)
        (written-IsPut m key v idx values zero_idx room lt free w here others same)

  -- A value for a key in the copy is one in the table copied.
  pub copied-IsPut :
      (m m' : Map K V) (d : Data K V) (n : ℕ) (key : K) (v : V)
      → IsSource h law m.table
      → IsCopied h law m.table n m.table.n_entries d
      → IsPut (record m { table = d }) key v m'
      → IsPut m key v m'
  copied-IsPut m m' d n key v src c p = record {
    is_map = p.is_map;
    own = p.own;
    others = λ k ne.
        let first = copied-Carries h law m.table d n k c in
        let second = p.others k ne in
        (λ absent. second.0 (first.0 absent), λ u held. second.1 u (first.1 u held));
    grown = omega (arith, p.grown, c.number, src.total);
    sizes = p.sizes;
  }
