-- ===== src/Linearizer/Outcomes.antt =====
-- The concrete trees of an expression as a specification: the tree of the choices that there are,
-- between the categories that coerce an argument's, and between the entries for the arguments.
use libpgf.Prelude.{
  ℕ, zero, suc, ◌+◌, ◌≤◌, ◌<◌, Option, none, some, List, [], ◌∷◌, length, get_elem?, All, ◌==◌, max,
  Run, ok, raised, abort, fault, stuck,
}
use libpgf.Choice.Tree.{Tree, leaf, node, leaves}
use libpgf.Choice.Monad.{bind}
use libpgf.Expr.{Expr}
use libpgf.Expr.Unapply.{unwrap, unapply, Application}
use libpgf.Grammar.{CCatId}
use libpgf.Parser.Chart.{token_eq}
use libpgf.Parser.Chart.State.{map_get}
use libpgf.Linearizer.{LinInferEntry, InferMap, Lzr, CncTree, CncTrees, app, lit, no_trees, tree}
use libpgf.Linearizer.Index.{ccat_ids_eq}
use libpgf.Linearizer.Infer.{LiteralCats, literal_cat}

-- A concrete tree with its category.
abbrev pub Typed : Type 0
Typed = CCatId × CncTree

-- What is at an index, if anything is.
abbrev pub at_index : {A B : Type 0} → (A → Tree B) → Option A → Tree B
at_index f none = leaf none
at_index f (some a) = f a

-- To stay, or to climb on from one of the categories that coerce this one.
abbrev pub super_point : (CCatId → Tree Typed) → Typed → List CCatId → ℕ → Tree Typed
super_point climb here supers zero = leaf (some here)
super_point climb here supers (suc j) = at_index climb (get_elem? supers j)

abbrev pub super_node : (CCatId → Tree Typed) → Typed → Option (List CCatId) → Tree Typed
super_node climb here none = leaf (some here)
super_node climb here (some supers) = node (length supers + 1) (super_point climb here supers)

unfoldable pub super_tree : ℕ → Lzr → CncTree → CCatId → Tree Typed
super_tree zero lzr t c = leaf none
super_tree (suc fuel) lzr t c =
    super_node (super_tree fuel lzr t) (c, t) (map_get ◌==◌ lzr.coerce_idx c)

-- Arguments from the last, put in front of others.
unfoldable pub typed_cats : List Typed → List CCatId → List CCatId
typed_cats [] cats = cats
typed_cats (a ∷ args) cats = typed_cats args (a.0 ∷ cats)

unfoldable pub typed_trees : List Typed → CncTrees → CncTrees
typed_trees [] trees = trees
typed_trees (a ∷ args) trees = typed_trees args (tree a.1 trees)

abbrev pub entry_leaf : CncTrees → LinInferEntry → Tree Typed
entry_leaf trees entry = leaf (some (entry.cat, app entry.fun trees))

abbrev pub entry_node : CncTrees → Option (List LinInferEntry) → Tree Typed
entry_node trees none = leaf none
entry_node trees (some entries) =
    node (length entries) (λ k. at_index (entry_leaf trees) (get_elem? entries k))

-- The arguments in turn, and then the entries.
unfoldable pub args_tree : InferMap → (Expr → Tree Typed) → List Expr → List Typed → Tree Typed
unfolding typed_cats typed_trees
args_tree infer arg [] filled =
    entry_node (typed_trees filled no_trees) (map_get ccat_ids_eq infer (typed_cats filled []))
args_tree infer arg (e ∷ args) filled = bind (arg e) (λ a. args_tree infer arg args (a ∷ filled))

abbrev pub appl_tree : (Expr → Tree Typed) → Option InferMap → List Expr → Tree Typed
appl_tree arg none args = leaf none
appl_tree arg (some infer) args = args_tree infer arg args []

unfoldable pub other_tree : LiteralCats → Expr → Tree Typed
other_tree lits (Expr.lit l) = leaf (some (literal_cat lits l, lit l))
other_tree lits _ = leaf none

-- The expression taken apart; neither failures nor other heads occur.
abbrev pub function_tree : (Expr → Tree Typed) → Lzr → Expr → List Expr → Tree Typed
function_tree arg lzr (Expr.fun f) args = appl_tree arg (map_get token_eq lzr.fun_indices f) args
function_tree arg lzr _ args = leaf none

abbrev pub parts_tree :
    (Expr → Tree Typed) → Lzr → LiteralCats → Expr → Run (Option Application) → Tree Typed
parts_tree arg lzr lits e (ok (some appl)) = function_tree arg lzr appl.fun appl.args
parts_tree arg lzr lits e (ok none) = other_tree lits (unwrap e)
parts_tree arg lzr lits e raised = leaf none
parts_tree arg lzr lits e abort = leaf none
parts_tree arg lzr lits e fault = leaf none
parts_tree arg lzr lits e stuck = leaf none

-- An argument, coerced.
abbrev pub arg_tree : ℕ → Lzr → (Expr → Tree Typed) → Expr → Tree Typed
arg_tree depth lzr infer e = bind (infer e) (λ a. super_tree depth lzr a.1 a.0)

unfoldable pub infer_tree : ℕ → ℕ → Lzr → LiteralCats → Expr → Tree Typed
unfolding args_tree other_tree super_tree
infer_tree zero depth lzr lits e = leaf none
infer_tree (suc fuel) depth lzr lits e =
    parts_tree (arg_tree depth lzr (infer_tree fuel depth lzr lits)) lzr lits e (unapply e)

-- What is asked of the indices: no choice has more than 255 alternatives, entries are not empty, and
-- coercions are not cyclic.
abbrev pub IsEntryList : List LinInferEntry → Type 0
IsEntryList entries = (1 ≤ length entries) × (length entries ≤ 255)

abbrev pub IsInferMap : InferMap → Type 0
IsInferMap infer = All (λ e. IsEntryList e.1) infer

pub record IsSearchable (depth : ℕ) (rank : CCatId → ℕ) (lzr : Lzr) : Type 0 where
  pub entries : All (λ e. IsInferMap e.1) lzr.fun_indices
  pub supers : All (λ e. (length e.1 ≤ 254) × All (λ d. rank d < rank e.0) e.1) lzr.coerce_idx
  pub ranks : (c : CCatId) → rank c < depth

-- How deep the calls for arguments go.
unfoldable pub height : Expr → ℕ
height (Expr.app f a) = max (height f) (suc (height a))
height (Expr.typed e t) = height e
height (Expr.impl_arg e) = height e
height _ = 0

-- The arguments that an expression is taken apart into.
abbrev pub args_in : Run (Option Application) → List Expr
args_in (ok (some appl)) = appl.args
args_in (ok none) = []
args_in raised = []
args_in abort = []
args_in fault = []
args_in stuck = []

-- Rounds for each outcome of each application in an expression.
unfoldable pub AreEnough : ℕ → ℕ → Lzr → LiteralCats → ℕ → Expr → Type 0
unfolding infer_tree
AreEnough rounds depth lzr lits zero e = Unit {0}
AreEnough rounds depth lzr lits (suc fuel) e =
    (length (leaves (infer_tree (suc fuel) depth lzr lits e)) < rounds)
    × All (AreEnough rounds depth lzr lits fuel) (args_in (unapply e))
