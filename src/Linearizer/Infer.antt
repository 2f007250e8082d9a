-- ===== src/Linearizer/Infer.antt =====
-- The concrete trees of an expression: pgf_lzn_infer and what it calls, and the enumeration by
-- pgf_lzr_concretize, of pgf/linearize.c. Called with a null `ctree_out` the functions make the same
-- choices and store no tree.
use libpgf.Prelude.{
  ℕ, zero, suc, ◌+◌, Bool, true, false, Option, none, some, List, [], ◌∷◌, length, drop, ◌==◌, Run,
  ok, fault, stuck, ◌>>=◌,
}
use libpgf.Choice.{Choice, choice_mark, choice_reset, choice_next, choice_advance}
use libpgf.Expr.{CId, Expr, Literal, str, int, flt}
use libpgf.Expr.Unapply.{unwrap, unapply, Application}
use libpgf.Grammar.{CCatId}
use libpgf.Parser.Trees.{deref}
use libpgf.Parser.Chart.{token_eq}
use libpgf.Parser.Chart.State.{map_get}
use libpgf.Linearizer.{LinInferEntry, InferMap, Lzr, CncTree, CncTrees, app, lit, no_trees, tree}
use libpgf.Linearizer.Index.{ccat_ids_eq}

-- The addresses of `pgf_ccat_string`, `pgf_ccat_int` and `pgf_ccat_float`.
pub record LiteralCats : Type 0 where
  pub ccat_string : CCatId
  pub ccat_int : CCatId
  pub ccat_float : CCatId

unfoldable pub literal_cat : LiteralCats → Literal → CCatId
literal_cat cats (str s) = cats.ccat_string
literal_cat cats (int n) = cats.ccat_int
literal_cat cats (flt d) = cats.ccat_float

-- A category with its tree, or null, in a state of the choices.
abbrev pub Inferred : Type 0
Inferred = Option (CCatId × CncTree) × Choice

-- What follows the choice of a super-category: the first alternative stays, each other one climbs
-- on from the category that it names.
unfoldable pub climb_at :
    (CCatId → Choice → Run (CCatId × Choice))
    → CCatId
    → List CCatId
    → Option ℕ
    → Choice
    → Run (CCatId × Choice)
climb_at go c supers none ch = fault
climb_at go c supers (some zero) ch = ok (c, ch)
climb_at go c supers (some (suc j)) ch = deref supers j >>= λ c'. go c' ch

unfoldable pub climb :
    (CCatId → Choice → Run (CCatId × Choice))
    → CCatId
    → Option (List CCatId)
    → Choice
    → Run (CCatId × Choice)
unfolding climb_at
climb go c none ch = ok (c, ch)
climb go c (some supers) ch =
    choice_next ch (length supers + 1) >>= λ r. climb_at go c supers r.0 r.1

-- `while (true)`, a round for each category climbed to.
unfoldable pub pick_supercat : ℕ → Lzr → CCatId → Choice → Run (CCatId × Choice)
unfolding map_get climb
pick_supercat zero lzr c ch = stuck
pick_supercat (suc fuel) lzr c ch =
    climb (pick_supercat fuel lzr) c (map_get ◌==◌ lzr.coerce_idx c) ch

-- An argument that has its category, in `arg_cats`, and its tree, in `app_out->args`; `mark` is the
-- mark taken in front of it.
pub record Filled : Type 0 where
  pub mark : ℕ
  pub cat : CCatId
  pub tree : CncTree

-- `*ip` arguments are filled, the last one first here, and `mark` is `marks[*ip]`.
pub record Filling : Type 0 where
  pub mark : ℕ
  pub filled : List Filled

-- The categories and the trees of the arguments, from the first.
unfoldable pub cats_onto : List Filled → List CCatId → List CCatId
cats_onto [] cats = cats
cats_onto (f ∷ filled) cats = cats_onto filled (f.cat ∷ cats)

unfoldable pub trees_onto : List Filled → CncTrees → CncTrees
trees_onto [] trees = trees
trees_onto (f ∷ filled) trees = trees_onto filled (tree f.tree trees)

-- The loop over the arguments that are left, whether it got to its end; `go` is the call of
-- `pgf_lzn_infer`, and `fill_arg` what follows it.
unfoldable pub fill_arg :
    ℕ
    → Lzr
    → (Filling → Choice → Run ((Bool × Filling) × Choice))
    → Filling
    → Option (CCatId × CncTree)
    → Choice
    → Run ((Bool × Filling) × Choice)
unfolding pick_supercat
fill_arg depth lzr others st none ch = ok ((false, st), ch)
fill_arg depth lzr others st (some (arg_i, arg_tree)) ch = pick_supercat depth lzr arg_i ch >>= λ s.
    choice_mark s.1 >>= λ mark.
    others
      (record {
        mark = mark;
        filled = record { mark = st.mark; cat = s.0; tree = arg_tree } ∷ st.filled;
      })
      s.1

unfoldable pub fill_args :
    ℕ
    → Lzr
    → (Expr → Choice → Run Inferred)
    → List Expr
    → Filling
    → Choice
    → Run ((Bool × Filling) × Choice)
unfolding fill_arg
fill_args depth lzr go [] st ch = ok ((true, st), ch)
fill_args depth lzr go (e ∷ args) st ch =
    go e ch >>= λ r. fill_arg depth lzr (fill_args depth lzr go args) st r.0 r.1

-- One of the entries for the categories of the arguments.
unfoldable pub entry_at : List LinInferEntry → CncTrees → Option ℕ → Choice → Run Inferred
entry_at entries args none ch = ok (none, ch)
entry_at entries args (some e) ch =
    deref entries e >>= λ entry. ok (some (entry.cat, app entry.fun args), ch)

unfoldable pub pick_entry : Option (List LinInferEntry) → CncTrees → Choice → Run Inferred
unfolding entry_at
pick_entry none args ch = ok (none, ch)
pick_entry (some entries) args ch =
    choice_next ch (length entries) >>= λ r. entry_at entries args r.0 r.1

-- What follows the loop over the arguments.
unfoldable pub finish_try :
    InferMap → Bool → Filling → Choice → Run ((Option (CCatId × CncTree) × Filling) × Choice)
unfolding map_get ccat_ids_eq cats_onto trees_onto pick_entry
finish_try infer false st ch = ok ((none, st), ch)
finish_try infer true st ch =
    pick_entry (map_get ccat_ids_eq infer (cats_onto st.filled [])) (trees_onto st.filled no_trees)
      ch
    >>= λ s. ok ((s.0, st), s.1)

unfoldable pub infer_apply_try :
    ℕ
    → Lzr
    → (Expr → Choice → Run Inferred)
    → InferMap
    → List Expr
    → Filling
    → Choice
    → Run ((Option (CCatId × CncTree) × Filling) × Choice)
unfolding fill_args finish_try
infer_apply_try depth lzr go infer args st ch =
    fill_args depth lzr go (drop (length st.filled) args) st ch >>= λ r.
    finish_try infer r.0.0 r.0.1 r.1

-- `do { --i; ... } while (!gu_choice_advance(lzn->ch))`: `none` where `i` falls below 0.
unfoldable pub step_back : List Filled → Choice → Run (Option Filling × Choice)
step_back [] ch = ok (none, ch)
step_back (f ∷ filled) ch = choice_reset ch f.mark >>= λ back. choice_advance back >>= λ a.
    elim (a.0) [
      | true ↦ ok (some (record { mark = f.mark; filled = filled }), a.1)
      | false ↦ step_back filled a.1
    ]

-- `while (true)`, with what follows a try, and a step back.
unfoldable pub resume : (Filling → Choice → Run Inferred) → Option Filling → Choice → Run Inferred
resume again none ch = ok (none, ch)
resume again (some st) ch = again st ch

unfoldable pub after_try :
    (Filling → Choice → Run Inferred) → Option (CCatId × CncTree) → Filling → Choice → Run Inferred
unfolding step_back resume
after_try again (some ret) st ch = ok (some ret, ch)
after_try again none st ch = step_back st.filled ch >>= λ s. resume again s.0 s.1

unfoldable pub application_loop :
    ℕ
    → ℕ
    → Lzr
    → (Expr → Choice → Run Inferred)
    → InferMap
    → List Expr
    → Filling
    → Choice
    → Run Inferred
unfolding infer_apply_try after_try
application_loop zero depth lzr go infer args st ch = stuck
application_loop (suc rounds) depth lzr go infer args st ch =
    infer_apply_try depth lzr go infer args st ch >>= λ r.
    after_try (application_loop rounds depth lzr go infer args) r.0.0 r.0.1 r.1

unfoldable pub infer_with :
    ℕ
    → ℕ
    → Lzr
    → (Expr → Choice → Run Inferred)
    → Option InferMap
    → List Expr
    → Choice
    → Run Inferred
unfolding application_loop
infer_with rounds depth lzr go none args ch = ok (none, ch)
infer_with rounds depth lzr go (some infer) args ch = choice_mark ch >>= λ mark.
    application_loop rounds depth lzr go infer args (record { mark = mark; filled = [] }) ch

unfoldable pub infer_application :
    ℕ → ℕ → Lzr → (Expr → Choice → Run Inferred) → CId → List Expr → Choice → Run Inferred
unfolding map_get token_eq infer_with
infer_application rounds depth lzr go fun args ch =
    infer_with rounds depth lzr go (map_get token_eq lzr.fun_indices fun) args ch

-- What stands in an `EXPR_FUN`; other data would be misread.
abbrev pub fun_name : Expr → Run CId
fun_name (Expr.fun c) = ok c
fun_name _ = fault

-- The switch over an expression that is no application.
unfoldable pub infer_other : LiteralCats → Expr → Choice → Run Inferred
unfolding literal_cat
infer_other lits (Expr.lit l) ch = ok (some (literal_cat lits l, lit l), ch)
infer_other lits _ ch = ok (none, ch)

unfoldable pub infer_appl :
    ℕ
    → ℕ
    → Lzr
    → LiteralCats
    → (Expr → Choice → Run Inferred)
    → Expr
    → Option Application
    → Choice
    → Run Inferred
unfolding infer_application infer_other unwrap
infer_appl rounds depth lzr lits go e (some appl) ch =
    fun_name appl.fun >>= λ fun. infer_application rounds depth lzr go fun appl.args ch
infer_appl rounds depth lzr lits go e none ch = infer_other lits (unwrap e) ch

-- `pgf_lzn_infer`. The fuel bounds the depth of its calls, `rounds` the loops over tries, `depth`
-- the climbs.
unfoldable pub infer : ℕ → ℕ → ℕ → Lzr → LiteralCats → Expr → Choice → Run Inferred
unfolding infer_appl unapply
infer zero rounds depth lzr lits e ch = stuck
infer (suc fuel) rounds depth lzr lits e ch = unapply e >>= λ appl.
    infer_appl rounds depth lzr lits (infer fuel rounds depth lzr lits) e appl ch
