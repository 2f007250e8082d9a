-- ===== src/Map/Enumerate.antt =====
-- gu_map_iter and gu_map_enum_next of gu/map.c against gu_map_find.
use libpgf.Prelude.{
  ℕ, zero, suc, ◌+◌, ◌≤◌, ◌<◌, ◌≡◌, ◌⊎◌, inl, inr, refl, sym, ap, ◌∙◌, arith, Bool, true, false,
  not, Bool-cases, if◌then◌else◌, ◌==◌, ==_iff, Run, ok, some, none, List, [], ◌∷◌, ◌++◌,
  append-nil, append_assoc,
}
use libpgf.Map.Kinds.{IsLawful}
use libpgf.Map.Slots.{used}
use libpgf.Map.Located.{find-Absent, same_entry}
use libpgf.Map.Contents.{IsMap}
use libpgf.Map.Sequence.{assoc}
use libpgf.Map.{
  Hasher, Data, Map, entry_is_free, find, iter, iter_from, next_entry, put_at, write_value,
}

-- An iterator that collects what it is given.
abbrev pub collect {ℓ} : {K V : Type ℓ} → List (K × V) → K → V → Run (List (K × V) × V)
collect s k v = ok (s ++ (k, v) ∷ [], v)

rewrite_same {ℓ} : {A : Type ℓ} (f : ℕ → A) (i : ℕ) → put_at f i (f i) ≡ f
rewrite_same f i = λ x j.
    (elim (Bool-cases (j == i)) as (λ c. put_at f i (f i) j ≡ f j) [
      | inl e ↦ rw (e, (==_iff j i).0 e) refl
      | inr e ↦ rw e refl
    ])
      x

not_free : (b : Bool) → not b ≡ true → b ≡ false
not_free true e = absurd (cc e)
not_free false e = refl

module _ {ℓ} {K V : Type ℓ} (h : Hasher K) where
  -- The entries in use from `i` on.
  listing : ℕ → ℕ → Data K V → List (K × V)
  listing zero i d = []
  listing (suc left) i d =
      let rest = listing left (i + 1) d in
      if entry_is_free h d i then rest else (d.keys i, d.values i) ∷ rest

  iter_from-listing :
      (left i : ℕ) (s : List (K × V)) (m : Map K V)
      → iter_from h collect left i s m ≡ ok (s ++ listing left i m.table, m)
  unfolding iter_from listing
  iter_from-listing zero i s m = ap (λ l. ok (l, m)) (sym (append-nil s))
  iter_from-listing (suc left) i s m = elim (Bool-cases (entry_is_free h m.table i)) [
    | inl free ↦ rw free (iter_from-listing left (i + 1) s m)
    | inr in_use ↦
        let e : K × V = (m.table.keys i, m.table.values i) in
        let kept : write_value m i (m.table.values i) ≡ m =
          ap (λ f. record m { table = record m.table { values = f } })
            (rewrite_same m.table.values i) in
        rw in_use (
          ap (iter_from h collect left (i + 1) (s ++ e ∷ [])) kept
          ∙ iter_from-listing left (i + 1) (s ++ e ∷ []) m
          ∙ ap (λ l. ok (l, m)) (append_assoc s (e ∷ []) (listing left (i + 1) m.table)))
  ]

  listing-missing :
      (left i : ℕ) (d : Data K V) (k : K)
      → ((j : ℕ) → i ≤ j → j < i + left → used h d j ≡ true → h.eq k (d.keys j) ≡ false)
      → assoc h (listing left i d) k ≡ none
  unfolding listing
  listing-missing zero i d k out = refl
  listing-missing (suc left) i d k out =
      let rest =
        listing-missing left (i + 1) d k
          (λ j lo hi. out j (omega (arith, lo)) (omega (arith, hi))) in
      elim (Bool-cases (entry_is_free h d i)) [
        | inl free ↦ rw free rest
        | inr in_use ↦ rw (in_use, out i (omega arith) (omega arith) (ap not in_use)) rest
      ]

  listing-held :
      (left i : ℕ) (d : Data K V) (k : K) (j : ℕ)
      → i ≤ j
      → j < i + left
      → used h d j ≡ true
      → h.eq k (d.keys j) ≡ true
      → ((j' : ℕ) → j' < i + left → used h d j' ≡ true → h.eq k (d.keys j') ≡ true → j' ≡ j)
      → assoc h (listing left i d) k ≡ some (d.values j)
  unfolding listing
  listing-held zero i d k j lo hi in_use e one = absurd (omega (arith, lo, hi))
  listing-held (suc left) i d k j lo hi in_use e one = elim (Bool-cases (i == j)) [
    | inl here ↦
        let same = (==_iff i j).0 here in
        let shown = not_free (entry_is_free h d i) (ap (used h d) same ∙ in_use) in
        rw (shown, ap (λ n. h.eq k (d.keys n)) same ∙ e) (ap (λ n. some (d.values n)) same)
    | inr there ↦
        let rest =
          listing-held left (i + 1) d k j (ground (arith, lo, there)) (omega (arith, hi)) in_use e
            (λ j' hi'. one j' (omega (arith, hi'))) in
        elim (Bool-cases (entry_is_free h d i)) [
          | inl free ↦ rw free rest
          | inr in_use' ↦ elim (Bool-cases (h.eq k (d.keys i))) [
            | inl e' ↦ absurd (cc (there, (==_iff i j).1 (one i (omega arith) (ap not in_use') e')))
            | inr e' ↦ rw (in_use', e') rest
          ]
        ]
  ]

  module _ (law : IsLawful h) where
    -- gu_map_iter gives the iterator each key that gu_map_find finds, with the value it finds, and
    -- no other key.
    pub iter-find :
        (m : Map K V)
        → IsMap h law m
        → (l : List (K × V)) × (iter h collect [] m ≡ ok (l, m))
          × ((k : K) → find h m k ≡ ok (assoc h l k))
    unfolding iter
    iter-find m w = (
      listing m.table.n_entries 0 m.table,
      iter_from-listing m.table.n_entries 0 [] m,
      λ k. elim (find-Absent h law m k w.is_table w.free_left) [
        | inl out ↦
            out.0
            ∙ ap ok (
                sym (
                  listing-missing m.table.n_entries 0 m.table k
                    (λ j lo hi. out.1 j (omega (arith, hi)))))
        | inr found ↦
            let (j, run, lt, in_use, e) = found in
            run
            ∙ ap ok (
                sym (
                  listing-held m.table.n_entries 0 m.table k j (omega arith) (omega (arith, lt))
                    in_use e
                    (λ j' hi used_j' e'.
                      same_entry h law m.table j' j w.is_table (omega (arith, hi)) lt used_j' in_use
                        (law.eq_trans (m.table.keys j') k (m.table.keys j)
                          (law.eq_sym k (m.table.keys j') e') e))))
      ],
    )

  -- A free entry more in front.
  free_too :
      (m : Map K V) (i b : ℕ)
      → entry_is_free h m.table i ≡ true
      → ((j : ℕ) → i + 1 ≤ j → j < b → used h m.table j ≡ false)
      → (j : ℕ) → i ≤ j
      → j < b
      → used h m.table j ≡ false
  free_too m i b free rest j lo hi = elim (Bool-cases (i == j)) [
    | inl here ↦ ap (used h m.table) (sym ((==_iff i j).0 here)) ∙ ap not free
    | inr there ↦ rest j (ground (arith, lo, there)) hi
  ]

  -- The entry that gu_map_enum_next stops at is the next one in use.
  pub next_entry-least :
      (left i : ℕ) (m : Map K V)
      → ((next_entry h left i m ≡ none)
          × ((j : ℕ) → i ≤ j → j < i + left → used h m.table j ≡ false))
        ⊎ ((j : ℕ) × (next_entry h left i m ≡ some j)
            × (i ≤ j)
            × (j < i + left)
            × (used h m.table j ≡ true)
            × ((k : ℕ) → i ≤ k → k < j → used h m.table k ≡ false))
  unfolding next_entry
  next_entry-least zero i m = inl (refl, λ j lo hi. absurd (omega (arith, lo, hi)))
  next_entry-least (suc left) i m = elim (Bool-cases (entry_is_free h m.table i)) [
    | inl free ↦ elim (next_entry-least left (i + 1) m) [
      | inl out ↦ inl (
        rw free (out.0),
        free_too m i (i + suc left) free (λ j lo hi. out.1 j lo (omega (arith, hi))),
      )
      | inr found ↦
          let (j, e, lo, hi, in_use, before) = found in
          inr
            (j, rw free e, omega (arith, lo), omega (arith, hi), in_use, free_too m i j free before)
    ]
    | inr in_use ↦ inr (
      i,
      rw in_use refl,
      omega arith,
      omega arith,
      ap not in_use,
      λ k lo hi. absurd (omega (arith, lo, hi)),
    )
  ]
