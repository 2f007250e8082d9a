-- ===== src/Linearizer/Exactly.antt =====
-- Which trees the calls of pgf_lzn_next return: exactly the concrete trees of the expression.
use libpgf.Prelude.{
  ℕ, zero, suc, ◌+◌, ◌-◌, ◌<◌, ◌≡◌, refl, sym, ◌∙◌, ◌⊎◌, ap, get_elem?, Run, ok, ◌>>=◌, arith,
  Option, none, some, List, [], ◌∷◌, ◌++◌, ◌↔◌, inl, inr, returned-Gives,
}
use libpgf.Choice.Tree.{Tree, leaf, node, from, leaves, complete}
use libpgf.Choice.Bind.{IsAt, nones}
use libpgf.Choice.Runs.{started}
use libpgf.Expr.{Expr}
use libpgf.Grammar.{CCatId}
use libpgf.Linearizer.{Lzr, CncTree}
use libpgf.Linearizer.Rules.{Rules, Indexes}
use libpgf.Linearizer.Infer.{LiteralCats, infer}
use libpgf.Linearizer.Enumerate.{Lzn, concretize, lzn_next}
use libpgf.Linearizer.Derivation.{Derives, elem_of-append}
use libpgf.Linearizer.Fills.{IsTreeOf}
use libpgf.Linearizer.Sound.{infer-IsTreeOf}
use libpgf.Linearizer.Outcomes.{Typed, infer_tree, IsSearchable, height, AreEnough}
use libpgf.Linearizer.Found.{infer-Seeks}
use libpgf.Linearizer.Next.{
  IsPending, Proceeds, tree_next, none_next, lzn_next-Proceeds, concretize-IsPending,
}
use libpgf.Linearizer.Ends.{HasEnd, At, At-left, At-right}
use libpgf.Linearizer.Every.{Derives-HasEnd}
use mathlib.Core.Path.{subst}

module _ {A : Type 0} where
  from-At :
      (g : ℕ → List (Option A)) (i c k : ℕ) (a : Option A)
      → k < c
      → At (g (k + i)) a
      → At (from g i c) a
  from-At g i zero k a lt h = absurd (omega arith)
  from-At g i (suc c) zero a lt h =
      let first : 0 + i ≡ i = omega arith in
      At-left (g i) (from g (suc i) c) a (subst (λ j. At (g j) a) first h)
  from-At g i (suc c) (suc k) a lt h =
      let next : suc k + i ≡ k + suc i = omega arith in
      At-right (g i) (from g (suc i) c) a
        (from-At g (suc i) c k a (omega arith) (subst (λ j. At (g j) a) next h))

  At-from :
      (g : ℕ → List (Option A)) (i c : ℕ) (a : Option A)
      → At (from g i c) a
      → (k : ℕ) × (k < c) × At (g (k + i)) a
  At-from g i zero a (j, e) = cc
  At-from g i (suc c) a (j, e) = elim (elem_of-append (g i) (from g (suc i) c) j a e) [
    | inl h ↦
        let first : i ≡ 0 + i = omega arith in (0, omega arith, subst (λ n. At (g n) a) first h)
    | inr h ↦
        let (k, lt, later) = At-from g (suc i) c a h in
        let next : k + suc i ≡ suc k + i = omega arith in
        (suc k, omega arith, subst (λ n. At (g n) a) next later)
  ]

  HasEnd-leaves : (t : Tree A) (a : A) → HasEnd t a → At (leaves t) (some a)
  unfolding leaves
  HasEnd-leaves (leaf none) a h = elim h [ ]
  HasEnd-leaves (leaf (some b)) a h = (0, ap (λ x. some (some x)) h)
  HasEnd-leaves (node zero f) a (k, lt, h) = absurd (omega arith)
  HasEnd-leaves (node (suc m) f) a (k, lt, h) =
      let same : k ≡ k + 0 = omega arith in
      from-At (λ j. leaves (f j)) 0 (suc m) k (some a) lt
        (subst (λ n. At (leaves (f n)) (some a)) same (HasEnd-leaves (f k) a h))

  leaves-HasEnd : (t : Tree A) (a : A) → At (leaves t) (some a) → HasEnd t a
  unfolding leaves
  leaves-HasEnd (leaf none) a (zero, e) = cc
  leaves-HasEnd (leaf none) a (suc j, e) = cc
  leaves-HasEnd (leaf (some b)) a (zero, e) = cc
  leaves-HasEnd (leaf (some b)) a (suc j, e) = cc
  leaves-HasEnd (node zero f) a (zero, e) = cc
  leaves-HasEnd (node zero f) a (suc j, e) = cc
  leaves-HasEnd (node (suc m) f) a h =
      let (k, lt, here) = At-from (λ j. leaves (f j)) 0 (suc m) (some a) h in
      let same : k + 0 ≡ k = omega arith in
      (k, lt, leaves-HasEnd (f k) a (subst (λ n. At (leaves (f n)) (some a)) same here))

  -- The path that leads to an outcome.
  HasEnd-IsAt : (t : Tree A) (a : A) → HasEnd t a → (q : List ℕ) × IsAt t q (some a)
  unfolding complete
  HasEnd-IsAt (leaf none) a h = elim h [ ]
  HasEnd-IsAt (leaf (some b)) a h = ([], (tt, ap some h, refl))
  HasEnd-IsAt (node zero f) a (k, lt, h) = absurd (omega arith)
  HasEnd-IsAt (node (suc m) f) a (k, lt, h) =
      let (q, at) = HasEnd-IsAt (f k) a h in
      let i = suc m - k in
      let back : k ≡ suc m - i = omega arith in
      let (fit, one, two) = subst (λ n. IsAt (f n) q (some a)) back at in
      (i ∷ q, ((omega arith, omega arith, fit), one, ap (λ l. i ∷ l) two))

no_end : (n i : ℕ) (a : Typed) → ¬ (get_elem? (nones n) i ≡ some (some a))
no_end zero i a h = cc
no_end (suc n) zero a h = cc
no_end (suc n) (suc i) a h = no_end n i a h

-- Behind the dead ends there is an outcome, or one of those behind it.
place :
    (n i : ℕ) (a b : Typed) (behind : List (Option Typed))
    → get_elem? (nones n ++ some b ∷ behind) i ≡ some (some a)
    → (b ≡ a) ⊎ ((j : ℕ) × (j < i) × (get_elem? behind j ≡ some (some a)))
place zero zero a b behind h = inl cc
place zero (suc i) a b behind h = inr (i, omega arith, h)
place (suc n) zero a b behind h = cc
place (suc n) (suc i) a b behind h = elim (place n i a b behind h) [
  | inl same ↦ inl same
  | inr (j, less, there) ↦ inr (j, omega (arith, less), there)
]

-- In a section over a linearizer that has indexed a grammar and can be searched, and fuel enough
-- for an expression.
module _ (rules : Rules) (lits : LiteralCats) (lzr : Lzr) (idx : Indexes rules lzr)
    (fuel rounds depth tries : ℕ) (rank : CCatId → ℕ) (e : Expr)
    (searchable : IsSearchable depth rank lzr) (deep : height e < fuel)
    (enough : AreEnough rounds depth lzr lits fuel e) where
  abbrev its_trees : Tree Typed
  its_trees = infer_tree fuel depth lzr lits e

  HasEnd-Derives : (c : CCatId) (t : CncTree) → HasEnd its_trees (c, t) → Derives rules lits e c t
  HasEnd-Derives c t h =
      let (q, at) = HasEnd-IsAt its_trees (c, t) h in
      let seeks = infer-Seeks rounds depth rank lzr lits searchable fuel e deep enough in
      returned-Gives (λ r. IsTreeOf rules lits lzr idx e r.0)
        (infer fuel rounds depth lzr lits e (started [] (q ++ []))) (some (c, t), started q [])
        (seeks.replays [] q [] (c, t) at)
        (infer-IsTreeOf rules lits lzr idx fuel rounds depth e (started [] (q ++ [])))

  abbrev pub call : Lzn → Run (Option CncTree × Lzn)
  call = lzn_next (infer fuel rounds depth lzr lits) (suc tries)

  -- What the call of pgf_lzn_next behind `k` others returns.
  pub called : ℕ → Lzn → Run (Option CncTree)
  called zero lzn = call lzn >>= λ r. ok r.0
  called (suc k) lzn = call lzn >>= λ r. called k r.1

  call-Proceeds :
      (outcomes : List (Option Typed)) (lzn : Lzn)
      → IsPending its_trees e outcomes lzn
      → Proceeds its_trees e outcomes lzn (call lzn)
  call-Proceeds = lzn_next-Proceeds fuel rounds depth tries rank lzr lits e searchable deep enough

  fresh-IsPending : IsPending its_trees e (leaves its_trees) (concretize e)
  fresh-IsPending =
      concretize-IsPending fuel rounds depth tries rank lzr lits e searchable deep enough

  -- The outcomes of a list that are no dead ends stand for the expression.
  abbrev AreDerived : List (Option Typed) → Type 0
  AreDerived outcomes = (a : Typed) → At outcomes (some a) → Derives rules lits e a.0 a.1

  leaves-AreDerived : AreDerived (leaves its_trees)
  leaves-AreDerived (c, t) h = HasEnd-Derives c t (leaves-HasEnd its_trees (c, t) h)

  called-Stands :
      (k : ℕ) (outcomes : List (Option Typed)) (lzn : Lzn) (t : CncTree)
      → AreDerived outcomes
      → Proceeds its_trees e outcomes lzn (call lzn)
      → called k lzn ≡ ok (some t)
      → (c : CCatId) × Derives rules lits e c t
  unfolding called
  called-Stands zero outcomes lzn t all (tree_next a n behind lzn' is run_is later) h =
      let same : a.1 ≡ t = cc (rw run_is at h) in
      (
        a.0,
        subst (Derives rules lits e a.0) same (
            all a (
              subst (λ l. At l (some a)) (sym is)
                (At-right (nones n) (some a ∷ behind) (some a) (0, refl)))),
      )
  called-Stands zero outcomes lzn t all (none_next n lzn' is run_is back) h = cc (rw run_is at h)
  called-Stands (suc k) outcomes lzn t all (tree_next a n behind lzn' is run_is later) h =
      called-Stands k behind lzn' t
        (λ b at. all b (
          subst (λ l. At l (some b)) (sym is)
            (At-right (nones n) (some a ∷ behind) (some b) (suc at.0, at.1))))
        (call-Proceeds behind lzn' later) (rw run_is at h)
  called-Stands (suc k) outcomes lzn t all (none_next n lzn' is run_is (inl stays)) h =
      called-Stands k outcomes lzn t all (none_next n lzn' is run_is (inl stays))
        (subst (λ l. called k l ≡ ok (some t)) stays (rw run_is at h))
  called-Stands (suc k) outcomes lzn t all (none_next n lzn' is run_is (inr again)) h =
      called-Stands k (leaves its_trees) (concretize e) t leaves-AreDerived
        (call-Proceeds (leaves its_trees) (concretize e) fresh-IsPending)
        (subst (λ l. called k l ≡ ok (some t)) again (rw run_is at h))

  -- Each outcome to come that is no dead end is returned by some call.
  pending-called :
      (i : ℕ) (outcomes : List (Option Typed)) (lzn : Lzn) (a : Typed)
      → get_elem? outcomes i ≡ some (some a)
      → (fuel : ℕ) → i < fuel
      → Proceeds its_trees e outcomes lzn (call lzn)
      → (k : ℕ) × (called k lzn ≡ ok (some a.1))
  unfolding called
  pending-called i outcomes lzn a at zero lt h = absurd (omega arith)
  pending-called i outcomes lzn a at (suc fuel) lt (none_next n lzn' is run_is back) =
      absurd (no_end n i a (ap (λ l. get_elem? l i) (sym is) ∙ at))
  pending-called i outcomes lzn a at (suc fuel) lt (tree_next b n behind lzn' is run_is later) =
      elim (place n i a b behind (ap (λ l. get_elem? l i) (sym is) ∙ at)) [
        | inl same ↦ (0, rw run_is (ap (λ x. ok (some x.1)) same))
        | inr (j, less, there) ↦
            let (k, found) =
              pending-called j behind lzn' a there fuel (omega (arith, less, lt))
                (call-Proceeds behind lzn' later) in
            (suc k, rw run_is found)
      ]

  -- Concrete trees of an expression by calls of pgf_lzn_next: on a linearizer that has indexed a
  -- grammar and is `IsSearchable`, so that coercions are not cyclic, and there are at most 254
  -- of a category and at most 255 entries of an application, with fuel for the height of the
  -- expression, for the longest climb from a category, and a round for each outcome of an
  -- application, a concrete tree is returned by some call on the enumeration that
  -- pgf_lzr_concretize makes just when, in some category, it stands for the expression in that
  -- grammar.
  pub concretize-Derives :
      (t : CncTree)
      → ((k : ℕ) × (called k (concretize e) ≡ ok (some t)))
        ↔ ((c : CCatId) × Derives rules lits e c t)
  concretize-Derives t = (
    (λ h.
        called-Stands h.0 (leaves its_trees) (concretize e) t leaves-AreDerived
          (call-Proceeds (leaves its_trees) (concretize e) fresh-IsPending) h.1),
    (λ d.
        let (i, at) =
          HasEnd-leaves its_trees (d.0, t)
            (Derives-HasEnd rules lits lzr idx depth rank searchable d.1 fuel deep) in
        pending-called i (leaves its_trees) (concretize e) (d.0, t) at (suc i) (omega arith)
          (call-Proceeds (leaves its_trees) (concretize e) fresh-IsPending)),
  )
