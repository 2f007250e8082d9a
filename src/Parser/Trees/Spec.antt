-- ===== src/Parser/Trees/Spec.antt =====
-- The trees of a category as a specification: which expressions the completed categories stand for,
-- as a tree of the choices between productions, and that the code makes its choices so.
use libpgf.Prelude.{
  ℕ, zero, suc, ◌+◌, ◌≤◌, ◌<◌, ◌≡◌, arith, Bool, true, false, Bool-cases, inl, inr, Option, none,
  some, List, [], ◌∷◌, length, get_elem?, All, ◌==◌, ==_iff, if◌then◌else◌,
}
use libpgf.Choice.Tree.{Tree, leaf, node}
use libpgf.Choice.Monad.{bind}
use libpgf.Expr.{Expr, app, fun, meta}
use libpgf.Grammar.{
  CCatId, PArg, Production, apply, coerce, Productions, null, seq, buf, CCat, CCatStore,
}
use libpgf.Parser.Trees.{seen_has}

abbrev pub Outcome : Type 0
Outcome = Expr × List CCatId

-- An application to the expressions of the arguments, from left to right.
unfoldable pub args_tree :
    (CCatId → List CCatId → Tree Outcome) → List PArg → Expr → List CCatId → Tree Outcome
args_tree go [] e seen = leaf (some (e, seen))
args_tree go (a ∷ args) e seen = bind (go a.ccat seen) (λ r. args_tree go args (app e r.0) r.1)

unfoldable pub production_tree :
    (CCatId → List CCatId → Tree Outcome) → Production → List CCatId → Tree Outcome
unfolding args_tree
production_tree go (apply f args) seen = args_tree go args (fun f.fun) seen
production_tree go (coerce c) seen = go c seen

unfoldable pub productions_tree :
    (CCatId → List CCatId → Tree Outcome) → Productions → List CCatId → Tree Outcome
unfolding production_tree
productions_tree go null seen = leaf none
productions_tree go (seq ps) seen = leaf (some (meta 0, seen))
productions_tree go (buf ps) seen =
    node (length ps)
      (λ i. elim (get_elem? ps i) [ none ↦ leaf none | some prod ↦ production_tree go prod seen ])

-- A category that was met before is a dead end.
unfoldable pub expr_tree : ℕ → CCatStore → CCatId → List CCatId → Tree Outcome
unfolding productions_tree
expr_tree zero store c seen = leaf none
expr_tree (suc fuel) store c seen =
    if seen_has seen c then leaf none else elim (get_elem? store c) [
      | none ↦ leaf none
      | some cat ↦ productions_tree (expr_tree fuel store) cat.prods (c ∷ seen)
    ]

-- A category that is there, and whose productions are not null.
abbrev pub has_productions : Option CCat → Bool
has_productions none = false
has_productions (some cat) = elim (cat.prods) [ null ↦ false | seq ps ↦ true | buf ps ↦ true ]

abbrev pub IsReadable : CCatStore → CCatId → Type 0
IsReadable store c = (c < length store) × (has_productions (get_elem? store c) ≡ true)

-- What the parser sees to in a store: the pointers of productions lead to categories of the store
-- whose productions are not null, no argument binds variables, no category has more productions
-- than `gu_choice_next` allows. A category to which nothing leads may have null for productions,
-- as the grammar reader interns it.
abbrev pub IsArg : CCatStore → PArg → Type 0
IsArg store a = (a.hypos ≡ []) × IsReadable store a.ccat

abbrev pub IsProduction : CCatStore → Production → Type 0
IsProduction store (apply f args) = All (IsArg store) args
IsProduction store (coerce c) = IsReadable store c

abbrev pub AreProductions : CCatStore → Productions → Type 0
AreProductions store null = Unit {0}
AreProductions store (seq ps) = Unit {0}
AreProductions store (buf ps) = (length ps ≤ 255) × All (IsProduction store) ps

abbrev pub IsStore : CCatStore → Type 0
IsStore store = All (λ cat. AreProductions store cat.prods) store

-- How many of the first n categories have not been met.
unfoldable pub unseen : ℕ → List CCatId → ℕ
unseen zero seen = 0
unseen (suc n) seen = (if seen_has seen n then 0 else 1) + unseen n seen

pub unseen-cons_le : (n c : ℕ) (seen : List CCatId) → unseen n (c ∷ seen) ≤ unseen n seen
unfolding unseen seen_has
unseen-cons_le zero c seen = omega arith
unseen-cons_le (suc n) c seen = ground (arith, unseen-cons_le n c seen)

pub unseen-cons_lt :
    (n c : ℕ) (seen : List CCatId)
    → c < n
    → seen_has seen c ≡ false
    → unseen n (c ∷ seen) < unseen n seen
unfolding unseen seen_has
unseen-cons_lt zero c seen h e = absurd (omega arith)
unseen-cons_lt (suc n) c seen h e = elim (Bool-cases (c == n)) [
  | inl same ↦
      let met : seen_has seen n ≡ false = rw ((==_iff c n).0 same) at e in
      rw (same, met) (omega (arith, unseen-cons_le n c seen))
  | inr other ↦ ground (arith, unseen-cons_lt n c seen)
]

pub unseen-le : (n : ℕ) (seen : List CCatId) → unseen n seen ≤ n
unfolding unseen
unseen-le zero seen = omega arith
unseen-le (suc n) seen = ground (arith, unseen-le n seen)
