-- ===== src/Choice/Tree.antt =====
-- Computations that make choices, as trees of their choice points; what a run of such a computation
-- does to the path, and in which order its outcomes come.
use libpgf.Prelude.{
  ℕ, zero, suc, ◌-◌, ◌≤◌, ◌<◌, ◌≡◌, refl, ap, arith, Option, none, some, List, [], ◌∷◌, ◌++◌, ltb,
  ltb→lt, lt→ltb, Bool-cases, Option-cases, inl, inr, Run, ok, ◌>>=◌,
}
use libpgf.Choice.{Choice, choice_next}
use libpgf.Choice.Path.{succ_path}
use mathlib.Core.Path.{subst}

-- `leaf none` and a point with no alternative are dead ends, for which the code returns null.
pub data Tree {ℓ} (A : Type ℓ) : Type ℓ where
  leaf : Option A → Tree A
  node : ℕ → (ℕ → Tree A) → Tree A

module _ {ℓ} {A : Type ℓ} where
  -- `int i = gu_choice_next(choice, n); if (i == -1) return null; ...`
  unfoldable pub run : Tree A → Choice → Run (Option A × Choice)
  run (leaf r) ch = ok (r, ch)
  run (node n f) ch =
      choice_next ch n >>= λ r. elim (r.0) [ none ↦ ok (none, r.1) | some k ↦ run (f k) r.1 ]

  -- No point has more alternatives than a `uint8_t` counts.
  abbrev pub IsNarrow : Tree A → Type 0
  IsNarrow (leaf r) = Unit {0}
  IsNarrow (node n f) = (n ≤ 255) × ((k : ℕ) → k < n → IsNarrow (f k))

  -- The outcomes from left to right.
  abbrev pub from : (ℕ → List (Option A)) → ℕ → ℕ → List (Option A)
  from g k zero = []
  from g k (suc c) = g k ++ from g (suc k) c

  unfoldable pub leaves : Tree A → List (Option A)
  leaves (leaf r) = r ∷ []
  leaves (node zero f) = none ∷ []
  leaves (node (suc m) f) = from (λ k. leaves (f k)) 0 (suc m)

  -- The entries of the path are alternatives of the points that it passes.
  abbrev pub Fits : Tree A → List ℕ → Type 0
  Fits t [] = Unit {0}
  Fits (leaf r) (i ∷ p) = ⊥
  Fits (node n f) (i ∷ p) = (1 ≤ i) × (i ≤ n) × Fits (f (n - i)) p

  -- The outcomes that are still to come when the path stands at `p`.
  unfoldable pub rest : Tree A → List ℕ → List (Option A)
  unfolding leaves
  rest t [] = leaves t
  rest (leaf r) (i ∷ p) = []
  rest (node n f) (i ∷ p) = rest (f (n - i)) p ++ from (λ k. leaves (f k)) (suc (n - i)) (i - 1)

  -- The outcome at a path, with the path made complete by first alternatives.
  unfoldable pub complete : Tree A → List ℕ → Option A × List ℕ
  complete (leaf r) p = (r, [])
  complete (node zero f) p = (none, [])
  complete (node (suc m) f) [] = let s = complete (f 0) [] in (s.0, suc m ∷ s.1)
  complete (node (suc m) f) (i ∷ p) = let s = complete (f (suc m - i)) p in (s.0, i ∷ s.1)

  pub complete-Fits : (t : Tree A) (p : List ℕ) → Fits t p → Fits t (complete t p).1
  unfolding complete
  complete-Fits (leaf r) p h = tt
  complete-Fits (node zero f) p h = tt
  complete-Fits (node (suc m) f) [] h =
      let first : suc m - suc m ≡ 0 = omega arith in
      (omega arith, omega arith, rw first (complete-Fits (f 0) [] tt))
  complete-Fits (node (suc m) f) (i ∷ p) h = (h.0, h.1, complete-Fits (f (suc m - i)) p h.2)

  pub succ_path-Fits : (t : Tree A) (p q : List ℕ) → Fits t p → succ_path p ≡ some q → Fits t q
  unfolding succ_path
  succ_path-Fits t [] q h e = cc
  succ_path-Fits (leaf r) (i ∷ p) q h e = elim h [ ]
  succ_path-Fits (node n f) (i ∷ p) q h e = elim (Option-cases (succ_path p)) [
    | inr (p', e') ↦
        let same : i ∷ p' ≡ q = ground arith in
        subst (Fits (node n f)) same (h.0, h.1, succ_path-Fits (f (n - i)) p p' h.2 e')
    | inl e' ↦ elim (Bool-cases (ltb 1 i)) [
      | inl more ↦
          let same : (i - 1) ∷ [] ≡ q = ground arith in
          subst (Fits (node n f)) same (omega (arith, ltb→lt _ _ more), omega (arith, h.1), tt)
      | inr last ↦ ground arith
    ]
  ]

  -- The outcomes behind a complete path.
  unfoldable pub after : Tree A → List ℕ → List (Option A)
  unfolding rest
  after t q = elim (succ_path q) [ none ↦ [] | some q' ↦ rest t q' ]

  rest_single :
      (m c : ℕ) (f : ℕ → Tree A)
      → suc (suc c) ≤ suc m
      → rest (node (suc m) f) (suc c ∷ [])
        ≡ from (λ k. leaves (f k)) (suc (suc m - suc (suc c))) (suc c)
  unfolding rest
  rest_single m c f h =
      let next : suc m - suc c ≡ suc (suc m - suc (suc c)) = omega arith in
      let less : suc c - 1 ≡ c = omega arith in rw (next, less)

  pub after-node :
      (m i : ℕ) (f : ℕ → Tree A) (q : List ℕ)
      → 1 ≤ i
      → i ≤ suc m
      → after (node (suc m) f) (i ∷ q)
        ≡ after (f (suc m - i)) q ++ from (λ k. leaves (f k)) (suc (suc m - i)) (i - 1)
  unfolding after succ_path
  after-node m zero f q lo hi = absurd (omega arith)
  after-node m (suc zero) f q lo hi = elim (Option-cases (succ_path q)) [
    | inr (q', e) ↦ rw (e, after)
    | inl e ↦ rw (e, after)
  ]
  after-node m (suc (suc c)) f q lo hi =
      let less : suc (suc c) - 1 ≡ suc c = omega arith in
      elim (Option-cases (succ_path q)) [
        | inr (q', e) ↦ rw (e, after)
        | inl e ↦
            rw (e, after) (rw (lt→ltb 1 (suc (suc c)) (omega arith), less) (rest_single m c f hi))
      ]

  -- Of the outcomes to come, the run takes the first, and leaves the others behind its path.
  pub rest-complete :
      (t : Tree A) (p : List ℕ) → Fits t p → rest t p ≡ (complete t p).0 ∷ after t (complete t p).1
  unfolding rest complete
  rest-complete (leaf r) [] h = unfold leaves after succ_path in refl
  rest-complete (leaf r) (i ∷ p) h = elim h [ ]
  rest-complete (node zero f) [] h = unfold leaves after succ_path in refl
  rest-complete (node zero f) (i ∷ p) h = absurd (omega arith)
  rest-complete (node (suc m) f) [] h =
      let first : suc m - suc m ≡ 0 = omega arith in
      let less : suc m - 1 ≡ m = omega arith in
      rw (after-node m (suc m) f _ (omega arith) (omega arith), first, less)
        (ap (λ l. l ++ from (λ k. leaves (f k)) 1 m) (rest-complete (f 0) [] tt))
  rest-complete (node (suc m) f) (i ∷ p) h = rw (after-node m i f _ h.0 h.1) (
      ap (λ l. l ++ from (λ k. leaves (f k)) (suc (suc m - i)) (i - 1))
        (rest-complete (f (suc m - i)) p h.2))
