-- ===== src/Linearizer/Levels.antt =====
-- Where the inference of an application stands: an end of each argument that is filled, and the
-- outcomes that are still to come behind these.
use libpgf.Prelude.{
  ℕ, true, false, suc, ◌≡◌, refl, sym, ◌∙◌, ap, arith, Option, none, some, List, [], ◌∷◌, ◌++◌,
  length, drop, drop-drop, append_assoc, append-nil, Run, ok,
}
use libpgf.Choice.{Choice, choice_reset}
use libpgf.Choice.Path.{succ_path, advanced, advance-succ_path}
use libpgf.Choice.Tree.{Tree, Fits, rest, after, succ_path-Fits}
use libpgf.Choice.Bind.{IsAt, expand, IsAt-behind, after-behind, Fits-bind, rest-bind}
use libpgf.Choice.Runs.{started, ended, reset_ended}
use libpgf.Choice.Search.{ended-started}
use libpgf.Expr.{Expr}
use libpgf.Grammar.{CCatId}
use libpgf.Linearizer.{InferMap, CncTrees, tree}
use libpgf.Linearizer.Infer.{Filled, Filling, cats_onto, trees_onto, step_back}
use libpgf.Linearizer.Outcomes.{Typed, typed_cats, typed_trees, args_tree}
use mathlib.Core.Path.{subst}

-- The arguments without their marks.
abbrev pub unmarked : List Filled → List Typed
unmarked [] = []
unmarked (f ∷ filled) = (f.cat, f.tree) ∷ unmarked filled

pub typed_cats-unmarked :
    (filled : List Filled) (cats : List CCatId)
    → typed_cats (unmarked filled) cats ≡ cats_onto filled cats
unfolding typed_cats cats_onto
typed_cats-unmarked [] cats = refl
typed_cats-unmarked (f ∷ filled) cats = typed_cats-unmarked filled (f.cat ∷ cats)

pub typed_trees-unmarked :
    (filled : List Filled) (trees : CncTrees)
    → typed_trees (unmarked filled) trees ≡ trees_onto filled trees
unfolding typed_trees trees_onto
typed_trees-unmarked [] trees = refl
typed_trees-unmarked (f ∷ filled) trees = typed_trees-unmarked filled (tree f.tree trees)

pub after_last : {A : Type 0} (t : Tree A) (q : List ℕ) → succ_path q ≡ none → after t q ≡ []
unfolding after
after_last t q e = rw (e, after) refl

pub after_next :
    {A : Type 0} (t : Tree A) (q q' : List ℕ) → succ_path q ≡ some q' → after t q ≡ rest t q'
unfolding after
after_next t q q' e = rw (e, after) refl

-- In a section over an application: its entries, the trees of arguments, the arguments, and the
-- path in front of them.
module _ (infer : InferMap) (arg : Expr → Tree Typed) (args : List Expr) (before : List ℕ) where
  abbrev pub tree_of : List Expr → List Filled → Tree Typed
  tree_of todo filled = args_tree infer arg todo (unmarked filled)

  -- What follows an argument.
  abbrev pub follow : List Expr → List Filled → Typed → Tree Typed
  follow todo filled a = args_tree infer arg todo (a ∷ unmarked filled)

  -- `path` goes in front of the arguments and through those that are filled, `todo` are the others,
  -- and `pending` the outcomes behind the ends of those that are filled.
  abbrev pub Levels : List Filled → List Expr → List ℕ → List (Option Typed) → Type 0
  Levels [] todo path pending = (todo ≡ args) × (path ≡ before) × (pending ≡ [])
  Levels (f ∷ filled) todo path pending =
      (e : Expr) × (path' : List ℕ) × (q : List ℕ) × (pending' : List (Option Typed)) × Levels
        filled (e ∷ todo) path' pending'
      × (f.mark ≡ length path')
      × IsAt (arg e) q (some (f.cat, f.tree))
      × (path ≡ path' ++ q)
      × (pending ≡ expand (follow todo filled) (after (arg e) q) ++ pending')

  pub Levels-drop :
      (filled : List Filled) (todo : List Expr) (path : List ℕ) (pending : List (Option Typed))
      → Levels filled todo path pending
      → drop (length filled) args ≡ todo
  Levels-drop [] todo path pending (e, _, _) = sym e
  Levels-drop (f ∷ filled) todo path pending (e, path', q, pending', below, _, _, _, _) =
      ap (λ n. drop n args) {x = suc (length filled)} (omega arith)
      ∙ sym (drop-drop (length filled) 1 args)
      ∙ ap (drop 1) (Levels-drop filled (e ∷ todo) path' pending' below)

  abbrev pub whole : Tree Typed
  whole = args_tree infer arg args []

  -- An end of what is left is an end of the whole application.
  pub record Within (filled : List Filled) (todo : List Expr) (path : List ℕ)
      (pending : List (Option Typed)) : Type 0 where
    pub through : List ℕ
    pub path_is : path ≡ before ++ through
    pub end_is :
        (q : List ℕ) (r : Option Typed)
        → IsAt (tree_of todo filled) q r
        → IsAt whole (through ++ q) r
          × (after whole (through ++ q) ≡ after (tree_of todo filled) q ++ pending)

  pub Levels-Within :
      (filled : List Filled) (todo : List Expr) (path : List ℕ) (pending : List (Option Typed))
      → Levels filled todo path pending
      → Within filled todo path pending
  unfolding args_tree
  Levels-Within [] todo path pending (e, pe, n) = record {
    through = [];
    path_is = pe ∙ sym (append-nil before);
    end_is = λ q r h. (
      subst (λ l. IsAt (args_tree infer arg l []) q r) e h,
      ap (λ l. after (args_tree infer arg l []) q) (sym e)
          ∙ sym (append-nil (after (tree_of todo []) q))
          ∙ ap (λ l. after (tree_of todo []) q ++ l) (sym n),
    );
  }
  Levels-Within (f ∷ filled) todo path pending (e, path', q, pending', below, _, at, pe, n) =
      let w = Levels-Within filled (e ∷ todo) path' pending' below in
      let a : Typed = (f.cat, f.tree) in
      record {
        through = w.through ++ q;
        path_is = pe ∙ ap (λ l. l ++ q) w.path_is ∙ append_assoc before w.through q;
        end_is = λ q' r h.
            let k = follow todo filled in
            let (one, more) = w.end_is (q ++ q') r (IsAt-behind k a (arg e) q q' r at h) in
            (
              subst (λ l. IsAt whole l r) (sym (append_assoc w.through q q')) one,
              ap (λ l. after whole l) (append_assoc w.through q q')
                  ∙ more
                  ∙ ap (λ l. l ++ pending') (after-behind k a (arg e) q q' r at h)
                  ∙ append_assoc (after (k a) q') (expand k (after (arg e) q)) pending'
                  ∙ ap (λ l. after (k a) q' ++ l) (sym n),
            );
      }

  -- The steps back through the arguments from the end of `path`: to the next outcome of one, or in
  -- front of them all when nothing is to come.
  pub data Back (pending : List (Option Typed)) (m : Run (Option Filling × Choice)) : Type 0 where
    exhausted : m ≡ ok (none, started before []) → pending ≡ [] → Back pending m
    resumes :
        (st : Filling) (todo : List Expr) (path p : List ℕ) (behind : List (Option Typed))
        → Levels st.filled todo path behind
        → st.mark ≡ length path
        → Fits (tree_of todo st.filled) p
        → pending ≡ rest (tree_of todo st.filled) p ++ behind
        → m ≡ ok (some st, started path p)
        → Back pending m

  started_nil : (path : List ℕ) → record { path = path; path_idx = length path } ≡ started path []
  started_nil path = ap (λ l. record { path = l; path_idx = length path }) (sym (append-nil path))

  -- After the advance.
  advanced-Back :
      (f : Filled) (filled : List Filled) (todo : List Expr) (e : Expr) (path q : List ℕ)
      (pending : List (Option Typed)) (o : Option (List ℕ))
      → Levels filled (e ∷ todo) path pending
      → f.mark ≡ length path
      → Fits (arg e) q
      → succ_path q ≡ o
      → Back pending (step_back filled (started path []))
      → Back (expand (follow todo filled) (after (arg e) q) ++ pending) (
          let a = advanced path o in
          elim (a.0) [
            | true ↦ ok (some (record { mark = f.mark; filled = filled }), a.1)
            | false ↦ step_back filled a.1
          ])
  unfolding args_tree
  advanced-Back f filled todo e path q pending none lv mk fit s back =
      subst
        (λ l.
          Back (expand (follow todo filled) l ++ pending)
            (step_back filled (record { path = path; path_idx = length path })))
        (sym (after_last (arg e) q s))
        (subst (λ c. Back pending (step_back filled c)) (sym (started_nil path)) back)
  advanced-Back f filled todo e path q pending (some q') lv mk fit s back =
      let fits = succ_path-Fits (arg e) q q' fit s in
      resumes (record { mark = f.mark; filled = filled }) (e ∷ todo) path q' pending lv mk
        (Fits-bind (follow todo filled) (arg e) q' fits)
        (ap (λ l. expand (follow todo filled) l ++ pending) (after_next (arg e) q q' s)
          ∙ ap (λ l. l ++ pending) (sym (rest-bind (follow todo filled) (arg e) q' fits)))
        refl

  -- The reset to the mark of an argument, and the advance.
  reset_advance :
      (f : Filled) (filled : List Filled) (path q : List ℕ)
      → f.mark ≡ length path
      → step_back (f ∷ filled) (started (path ++ q) []) ≡ (
          let a = advanced path (succ_path q) in
          elim (a.0) [
            | true ↦ ok (some (record { mark = f.mark; filled = filled }), a.1)
            | false ↦ step_back filled a.1
          ])
  unfolding step_back
  reset_advance f filled path q mk =
      let back : choice_reset (started (path ++ q) []) f.mark ≡ ok (started path q) =
        ap (λ c. choice_reset c f.mark) (sym (ended-started path q))
        ∙ ap (λ n. choice_reset (ended path q) n) mk
        ∙ reset_ended path q in
      rw (back, advance-succ_path path q) refl

  pub step_back-Back :
      (filled : List Filled) (todo : List Expr) (path : List ℕ) (pending : List (Option Typed))
      → Levels filled todo path pending
      → Back pending (step_back filled (started path []))
  step_back-Back [] todo path pending (e, pe, n) =
      unfold step_back in exhausted (ap (λ l. ok (none, started l [])) pe) n
  step_back-Back (f ∷ filled) todo path pending (e, path', q, pending', below, mk, at, pe, n) =
      subst (λ l. Back l (step_back (f ∷ filled) (started path []))) (sym n)
        (subst
          (λ l.
            Back (expand (follow todo filled) (after (arg e) q) ++ pending')
              (step_back (f ∷ filled) (started l [])))
          (sym pe)
          (subst (Back (expand (follow todo filled) (after (arg e) q) ++ pending'))
            (sym (reset_advance f filled path' q mk))
            (advanced-Back f filled todo e path' q pending' (succ_path q) below mk at.0 refl
              (step_back-Back filled (e ∷ todo) path' pending' below))))
