-- ===== src/Linearizer/Climb.antt =====
-- pgf_lzn_pick_supercat makes its choices as the specification's tree says.
use libpgf.Prelude.{
  ℕ, zero, suc, ◌+◌, ◌≤◌, ◌<◌, ◌≡◌, refl, sym, ◌∙◌, ap, arith, Bool, Bool-cases, inl, inr, Option,
  none, some, List, [], ◌∷◌, length, All, All-get_elem?, ◌==◌, Run, ok, raised, abort, fault, stuck,
  ◌>>=◌, if◌then◌else◌,
}
use libpgf.Choice.{Choice, choice_next}
use libpgf.Choice.Tree.{Tree, run}
use libpgf.Choice.Monad.{choice_next-lt}
use libpgf.Choice.Search.{IsLive}
use libpgf.Grammar.{CCatId}
use libpgf.Parser.Trees.{deref}
use libpgf.Parser.Chart.State.{map_get}
use libpgf.Linearizer.{Lzr, CncTree}
use libpgf.Linearizer.Keys.{IsLawful, ==-IsLawful}
use libpgf.Linearizer.Infer.{pick_supercat, climb, climb_at}
use libpgf.Linearizer.Outcomes.{Typed, at_index, super_point, super_node, super_tree, IsSearchable}
use mathlib.Core.Path.{subst}

-- What is found in a map is one of its entries.
pub map_get-All :
    {K V : Type 0} (eq : K → K → Bool)
    → IsLawful eq
    → (P : K × V → Type 0) (m : List (K × V)) (k : K) (v : V) → All P m
    → map_get eq m k ≡ some v
    → P (k, v)
unfolding map_get
map_get-All eq law P [] k v all h = cc
map_get-All eq law P (e ∷ m) k v all h = elim (Bool-cases (eq e.0 k)) [
  | inl same ↦
      let key : e.0 ≡ k = law.sound e.0 k same in
      let value : some e.1 ≡ some v =
        ap (λ b. if b then some e.1 else map_get eq m k) (sym same) ∙ h in
      subst P (cc) all.0
  | inr other ↦
      map_get-All eq law P m k v all.1
        (ap (λ b. if b then some e.1 else map_get eq m k) (sym other) ∙ h)
]

-- What is known of the categories above one.
abbrev pub AreSupers : (CCatId → ℕ) → CCatId → Option (List CCatId) → Type 0
AreSupers rank c none = Unit {0}
AreSupers rank c (some supers) = (length supers ≤ 254) × All (λ d. rank d < rank c) supers

pub lookup-AreSupers :
    (depth : ℕ) (rank : CCatId → ℕ) (lzr : Lzr) (c : CCatId) (o : Option (List CCatId))
    → IsSearchable depth rank lzr
    → map_get ◌==◌ lzr.coerce_idx c ≡ o
    → AreSupers rank c o
lookup-AreSupers depth rank lzr c none h e = tt
lookup-AreSupers depth rank lzr c (some supers) h e =
    map_get-All ◌==◌ ==-IsLawful (λ x. (length x.1 ≤ 254) × All (λ d. rank d < rank x.0) x.1)
      lzr.coerce_idx c supers h.supers e

module _ (rank : CCatId → ℕ) (t : CncTree) where
  abbrev pub carried : Run (CCatId × Choice) → Run (Option Typed × Choice)
  carried m = m >>= λ s. ok (some (s.0, t), s.1)

  -- Where a run gets to an end, the function does.
  abbrev Follows : Run (Option Typed × Choice) → Run (CCatId × Choice) → Type 0
  Follows r m = (a : Typed) (ch : Choice) → r ≡ ok (some a, ch) → carried m ≡ ok (some a, ch)

  climb_at-Follows :
      (go : CCatId → Choice → Run (CCatId × Choice)) (above : CCatId → Tree Typed) (c : CCatId)
      (supers : List CCatId) (ch : Choice) (r : Run (Option ℕ × Choice))
      → ((d : CCatId) (ch' : Choice) → rank d < rank c → Follows (run (above d) ch') (go d ch'))
      → All (λ d. rank d < rank c) supers
      → choice_next ch (length supers + 1) ≡ r
      → Follows
          (r >>= λ s. elim (s.0) [
            | none ↦ ok (none, s.1)
            | some k ↦ run (super_point above (c, t) supers k) s.1
          ])
          (r >>= λ s. climb_at go c supers s.0 s.1)
  unfolding climb_at
  climb_at-Follows go above c supers ch (ok (none, ch')) call all e a ch2 h = cc (h)
  climb_at-Follows go above c supers ch (ok (some zero, ch')) call all e a ch2 h = unfold run in h
  climb_at-Follows go above c supers ch (ok (some (suc j), ch')) call all e a ch2 h =
      let lt = choice_next-lt (length supers + 1) (suc j) ch ch' e in
      let (d, here, less) = All-get_elem? (λ d. rank d < rank c) supers j all (omega arith) in
      let h' = ap (λ o. run (at_index above o) ch') (sym here) ∙ h in
      rw (here, deref) (call d ch' less a ch2 h')
  climb_at-Follows go above c supers ch raised call all e a ch2 h = cc (h)
  climb_at-Follows go above c supers ch abort call all e a ch2 h = cc (h)
  climb_at-Follows go above c supers ch fault call all e a ch2 h = cc (h)
  climb_at-Follows go above c supers ch stuck call all e a ch2 h = cc (h)

  climb-Follows :
      (go : CCatId → Choice → Run (CCatId × Choice)) (above : CCatId → Tree Typed) (c : CCatId)
      (o : Option (List CCatId)) (ch : Choice)
      → ((d : CCatId) (ch' : Choice) → rank d < rank c → Follows (run (above d) ch') (go d ch'))
      → AreSupers rank c o
      → Follows (run (super_node above (c, t) o) ch) (climb go c o ch)
  unfolding climb run
  climb-Follows go above c none ch call h a ch2 e = e
  climb-Follows go above c (some supers) ch call h a ch2 e =
      climb_at-Follows go above c supers ch (choice_next ch (length supers + 1)) call h.1 refl a ch2
        e

  pub pick_supercat-Follows :
      (fuel depth : ℕ) (lzr : Lzr) (c : CCatId) (ch : Choice)
      → IsSearchable depth rank lzr
      → rank c < fuel
      → Follows (run (super_tree fuel lzr t c) ch) (pick_supercat fuel lzr c ch)
  unfolding pick_supercat super_tree
  pick_supercat-Follows zero depth lzr c ch h lt = absurd (omega arith)
  pick_supercat-Follows (suc fuel) depth lzr c ch h lt =
      climb-Follows (pick_supercat fuel lzr) (super_tree fuel lzr t) c
        (map_get ◌==◌ lzr.coerce_idx c) ch
        (λ d ch' less. pick_supercat-Follows fuel depth lzr d ch' h (omega arith))
        (lookup-AreSupers depth rank lzr c (map_get ◌==◌ lzr.coerce_idx c) h refl)

  super_node-IsLive :
      (above : CCatId → Tree Typed) (c : CCatId) (o : Option (List CCatId))
      → ((d : CCatId) → rank d < rank c → IsLive (above d))
      → AreSupers rank c o
      → IsLive (super_node above (c, t) o)
  super_node-IsLive above c none call h = tt
  super_node-IsLive above c (some supers) call h = (omega arith, omega (arith, h.0), point)
    where
      point : (k : ℕ) → k < length supers + 1 → IsLive (super_point above (c, t) supers k)
      point zero lt = tt
      point (suc j) lt =
          let (d, here, less) = All-get_elem? (λ d. rank d < rank c) supers j h.1 (omega arith) in
          rw here (call d less)

  pub super_tree-IsLive :
      (fuel depth : ℕ) (lzr : Lzr) (c : CCatId)
      → IsSearchable depth rank lzr
      → rank c < fuel
      → IsLive (super_tree fuel lzr t c)
  unfolding super_tree
  super_tree-IsLive zero depth lzr c h lt = absurd (omega arith)
  super_tree-IsLive (suc fuel) depth lzr c h lt =
      super_node-IsLive (super_tree fuel lzr t) c (map_get ◌==◌ lzr.coerce_idx c)
        (λ d less. super_tree-IsLive fuel depth lzr d h (omega arith))
        (lookup-AreSupers depth rank lzr c (map_get ◌==◌ lzr.coerce_idx c) h refl)
