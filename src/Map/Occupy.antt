-- ===== src/Map/Occupy.antt =====
-- A new key at the free entry that gu_map_insert of gu/map.c found for it.
use libpgf.Prelude.{
  ℕ, ◌+◌, ◌<◌, ◌≡◌, ◌≢◌, ◌⊎◌, refl, sym, ap, ◌∙◌, arith, Bool, true, false, not, Bool-cases, inl,
  inr, if◌then◌else◌, ◌==◌, ==_iff, ok, Option, none, some,
}
use native.Mathlib.Nat.{mod-lt}
use libpgf.Memory.{size_max}
use libpgf.Map.Kinds.{IsLawful}
use libpgf.Map.Slots.{used, count_more}
use libpgf.Map.Lookup.{Passes, path, Reached, IsTable}
use libpgf.Map.Located.{Absent}
use libpgf.Map.{Hasher, Data, Map, entry_is_free, occupy, filled, put_at, defaulted}

pub put_here {ℓ} : {A : Type ℓ} (f : ℕ → A) (i : ℕ) (a : A) → put_at f i a i ≡ a
put_here f i a = rw ((==_iff i i).1 refl) refl

not_equal : (i j : ℕ) → j ≢ i → (j == i) ≡ false
not_equal i j ne = ground (arith, ne)

pub put_there {ℓ} : {A : Type ℓ} (f : ℕ → A) (i : ℕ) (a : A) (j : ℕ) → j ≢ i → put_at f i a j ≡ f j
put_there f i a j ne = rw (not_equal i j ne) refl

module _ {ℓ} {K V : Type ℓ} (h : Hasher K) where
  -- The table with the key written.
  abbrev pub after : Data K V → K → ℕ → (ℕ → V) → ℕ → Data K V
  after d key idx values zero_idx = record {
    keys = put_at d.keys idx key;
    values = values;
    n_occupied = d.n_occupied + 1;
    n_entries = d.n_entries;
    zero_idx = zero_idx;
  }

  -- What the other entries show, whatever becomes of the zero key.
  abbrev Keeps : Data K V → ℕ → Data K V → Type 0
  Keeps d idx d' =
      (used h d' idx ≡ true) × ((j : ℕ) → j < d.n_entries → j ≢ idx → used h d' j ≡ used h d j)

  module _ (d : Data K V) (key : K) (idx : ℕ) (values : ℕ → V) (zero_idx : ℕ)
      (free : used h d idx ≡ false) (kept : Keeps d idx (after d key idx values zero_idx))
      (w : IsTable h d) where
    still :
        (k : K) (j : ℕ)
        → j < d.n_entries
        → Passes h d k j
        → Passes h (after d key idx values zero_idx) k j
    still k j lt pass =
        let ne : j ≢ idx = λ e. absurd (cc (pass.0, free, e)) in
        (kept.1 j lt ne ∙ pass.0, ap (h.eq k) (put_there d.keys idx key j ne) ∙ pass.1)

    still-Reached :
        (k : K) (j : ℕ) → Reached h d k j → Reached h (after d key idx values zero_idx) k j
    still-Reached k j (t, at, before) =
        (t, at, λ u lt. still k (path h d k u) (mod-lt _ (omega (arith, w.bounds))) (before u lt))

    after-IsTable :
        idx < d.n_entries
        → (zero_idx ≡ size_max)
          ⊎ ((zero_idx < d.n_entries) × (h.is_zero (put_at d.keys idx key zero_idx) ≡ true))
        → Reached h d key idx
        → IsTable h (after d key idx values zero_idx)
    after-IsTable lt z r = record {
      prime = w.prime;
      bounds = w.bounds;
      counted =
          count_more (used h d) (used h (after d key idx values zero_idx)) d.n_entries idx lt free
            kept.0 kept.1
          ∙ omega (arith, w.counted);
      zero_entry = z;
      reached = λ j less in_use. elim (Bool-cases (j == idx)) [
        | inl here ↦
            let e : j ≡ idx = (==_iff j idx).0 here in
            rw (e, put_here d.keys idx key) (still-Reached key idx r)
        | inr there ↦
            let ne : j ≢ idx = ground (arith, there) in
            rw (put_there d.keys idx key j ne)
              (still-Reached (d.keys j) j (w.reached j less (sym (kept.1 j less ne) ∙ in_use)))
      ];
    }

defaulted_there {ℓ} :
    {V : Type ℓ} (o : Option V) (values : ℕ → V) (i j : ℕ)
    → j ≢ i
    → defaulted o values i j ≡ values j
defaulted_there none values i j ne = refl
defaulted_there (some v) values i j ne = put_there values i v j ne

-- The largest `size_t` is the number of no entry.
unset : (n i z : ℕ) → n < 2147483648 → i < n → z ≡ size_max → (i == z) ≡ false
unset n i z hi lt e = not_equal z i (omega (arith, hi, lt, e))

free_parts : (b c : Bool) → (if b then false else c) ≡ true → (b ≡ false) × (c ≡ true)
free_parts true c e = absurd (cc e)
free_parts false c e = (refl, e)

own_entry {ℓ} : {K V : Type ℓ} (h : Hasher K) (d : Data K V) → used h d d.zero_idx ≡ true
own_entry h d = rw ((==_iff d.zero_idx d.zero_idx).1 refl) refl

module _ {ℓ} {K V : Type ℓ} (h : Hasher K) (law : IsLawful h) where
  -- The key has its entry, and all others are as they were.
  abbrev pub Occupied : Map K V → K → ℕ → Map K V → Type ℓ
  Occupied m key idx m' =
      (values : ℕ → V) × (zero_idx : ℕ) × (m'
        ≡ record m { table = after h m.table key idx values zero_idx })
      × IsTable h (after h m.table key idx values zero_idx)
      × (used h (after h m.table key idx values zero_idx) idx ≡ true)
      × ((j : ℕ)
          → j < m.table.n_entries
          → j ≢ idx
          → used h (after h m.table key idx values zero_idx) j ≡ used h m.table j)
      × ((j : ℕ) → j ≢ idx → values j ≡ m.table.values j)

  module _ (m : Map K V) (key : K) (idx : ℕ) (w : IsTable h m.table) (lt : idx < m.table.n_entries)
      (free : used h m.table idx ≡ false) (r : Reached h m.table key idx)
      (absent : Absent h law m.table key) where
    -- A second zero key would be the first one's equal.
    no_zero : h.is_zero key ≡ true → m.table.zero_idx ≡ size_max
    no_zero z = elim (w.zero_entry) [
      | inl e ↦ e
      | inr there ↦
          let d = m.table in
          absurd (
            cc (
              absent d.zero_idx there.0 (own_entry h d),
              law.zeros_eq key (d.keys d.zero_idx) z there.1,
            ))
    ]

    occupy-zero :
        entry_is_free h (filled h m key idx) idx ≡ true
        → (m' : Map K V) × (occupy h m key idx ≡ ok m') × Occupied m key idx m'
    unfolding occupy
    occupy-zero out =
        let d = m.table in
        let values = defaulted m.default_value d.values idx in
        let zero = (free_parts (idx == d.zero_idx) _ out).1 in
        let unset_yet = no_zero (sym (ap h.is_zero (put_here d.keys idx key)) ∙ zero) in
        let in_use : used h (after h d key idx values idx) idx ≡ true =
          own_entry h (after h d key idx values idx) in
        let others : (j : ℕ)
            → j < d.n_entries
            → j ≢ idx
            → used h (after h d key idx values idx) j ≡ used h d j =
          λ j less ne.
            rw (not_equal idx j ne, unset d.n_entries j d.zero_idx w.bounds.1 less unset_yet)
              refl in
        (
          record m { table = after h d key idx values idx },
          rw out rw ((==_iff d.zero_idx size_max).1 unset_yet) refl,
          (
            values,
            idx,
            refl,
            after-IsTable h d key idx values idx free (in_use, others) w lt (inr (lt, zero)) r,
            in_use,
            others,
            λ j ne. defaulted_there m.default_value d.values idx j ne,
          ),
        )

    occupy-other :
        entry_is_free h (filled h m key idx) idx ≡ false
        → (m' : Map K V) × (occupy h m key idx ≡ ok m') × Occupied m key idx m'
    unfolding occupy
    occupy-other out =
        let d = m.table in
        let values = defaulted m.default_value d.values idx in
        let t = after h d key idx values d.zero_idx in
        let others : (j : ℕ) → j < d.n_entries → j ≢ idx → used h t j ≡ used h d j =
          λ j less ne. rw (put_there d.keys idx key j ne) refl in
        let zero : (d.zero_idx ≡ size_max)
            ⊎ ((d.zero_idx < d.n_entries) × (h.is_zero (t.keys d.zero_idx) ≡ true)) =
          elim (w.zero_entry) [
            | inl e ↦ inl e
            | inr there ↦
                let ne : d.zero_idx ≢ idx = λ e. absurd (cc (own_entry h d, free, e)) in
                inr (there.0, ap h.is_zero (put_there d.keys idx key d.zero_idx ne) ∙ there.1)
          ] in
        (
          record m { table = t },
          rw out refl,
          (
            values,
            d.zero_idx,
            refl,
            after-IsTable h d key idx values d.zero_idx free (ap not out, others) w lt zero r,
            ap not out,
            others,
            λ j ne. defaulted_there m.default_value d.values idx j ne,
          ),
        )

    -- gu_map_insert puts a key that is missing at the free entry found for it. The assertion holds.
    pub occupy-Occupied : (m' : Map K V) × (occupy h m key idx ≡ ok m') × Occupied m key idx m'
    occupy-Occupied = elim (Bool-cases (entry_is_free h (filled h m key idx) idx)) [
      | inl out ↦ occupy-zero out
      | inr out ↦ occupy-other out
    ]
