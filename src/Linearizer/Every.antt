-- ===== src/Linearizer/Every.antt =====
-- Every concrete tree that stands for an expression is among the outcomes of its inference.
use libpgf.Prelude.{
  ℕ, zero, suc, ◌<◌, ◌≡◌, refl, sym, ◌∙◌, ap, arith, Option, none, some, List, [], ◌∷◌, ◌++◌,
  append-nil, All, inl, inr,
}
use libpgf.Choice.Tree.{Tree}
use libpgf.Expr.{CId, Expr, Literal}
use libpgf.Expr.Unapply.{
  Spine, head, snoc, under_impl, under_type, unwrap, unapply-Spine, Spine-unapply,
}
use libpgf.Grammar.{CCatId}
use libpgf.Parser.Chart.{token_eq}
use libpgf.Parser.Chart.State.{map_get}
use libpgf.Linearizer.{LinInferEntry, InferMap, Lzr, CncTree, CncTrees, app, lit, no_trees, tree}
use libpgf.Linearizer.Index.{ccat_ids_eq, found, arg_cats}
use libpgf.Linearizer.Rules.{Rules, Indexes}
use libpgf.Linearizer.Infer.{LiteralCats}
use libpgf.Linearizer.Derivation.{Derives, literal, application, DerivesAll, nil, cons}
use libpgf.Linearizer.Outcomes.{
  Typed, super_tree, typed_cats, typed_trees, entry_node, args_tree, appl_tree, other_tree,
  parts_tree, arg_tree, infer_tree, IsSearchable, height,
}
use libpgf.Linearizer.Found.{Spine-height}
use libpgf.Linearizer.Ends.{HasEnd, bind-HasEnd, At, Has-entries, entry_node-HasEnd, Super-HasEnd}
use mathlib.Core.Path.{subst}

-- A literal has no function.
Spine-unwrap :
    {e : Expr} {c : CId} {args : List Expr}
    → Spine e c args
    → (l : Literal) → unwrap e ≡ Expr.lit l
    → ⊥
unfolding unwrap
Spine-unwrap (head c) l h = cc
Spine-unwrap (snoc a s) l h = cc
Spine-unwrap (under_impl s) l h = Spine-unwrap s l h
Spine-unwrap (under_type t s) l h = Spine-unwrap s l h

-- Categories and trees put on those that are filled.
push : List CCatId → CncTrees → List Typed → List Typed
push [] trees filled = filled
push (c ∷ cs) no_trees filled = filled
push (c ∷ cs) (tree t ts) filled = push cs ts ((c, t) ∷ filled)

joined : CncTrees → CncTrees → CncTrees
joined no_trees trees = trees
joined (tree t ts) trees = tree t (joined ts trees)

joined-nil : (ts : CncTrees) → joined ts no_trees ≡ ts
unfolding joined
joined-nil no_trees = refl
joined-nil (tree t ts) = ap (tree t) (joined-nil ts)

-- In a section over a linearizer that has indexed a grammar and can be searched.
module _ (rules : Rules) (lits : LiteralCats) (lzr : Lzr) (idx : Indexes rules lzr) (depth : ℕ)
    (rank : CCatId → ℕ) (searchable : IsSearchable depth rank lzr) where
  push-typed_cats :
      {es : List Expr} {cs : List CCatId} {ts : CncTrees}
      → DerivesAll rules lits es cs ts
      → (filled : List Typed) (cats : List CCatId)
      → typed_cats (push cs ts filled) cats ≡ typed_cats filled (cs ++ cats)
  unfolding typed_cats push
  push-typed_cats nil filled cats = refl
  push-typed_cats (cons {top = top} {t = t} d s all) filled cats =
      push-typed_cats all ((top, t) ∷ filled) cats

  push-typed_trees :
      {es : List Expr} {cs : List CCatId} {ts : CncTrees}
      → DerivesAll rules lits es cs ts
      → (filled : List Typed) (trees : CncTrees)
      → typed_trees (push cs ts filled) trees ≡ typed_trees filled (joined ts trees)
  unfolding typed_trees push joined
  push-typed_trees nil filled trees = refl
  push-typed_trees (cons {top = top} {t = t} d s all) filled trees =
      push-typed_trees all ((top, t) ∷ filled) trees

  -- The entry at the end of the arguments.
  filled-HasEnd :
      (infer : InferMap) (arg : Expr → Tree Typed) (es : List Expr) (cats : List CCatId)
      (trees : CncTrees) (entry : LinInferEntry)
      → DerivesAll rules lits es cats trees
      → At (found (map_get ccat_ids_eq infer cats)) entry
      → HasEnd (args_tree infer arg [] (push cats trees [])) (entry.cat, app entry.fun trees)
  unfolding args_tree typed_cats typed_trees
  filled-HasEnd infer arg es cats trees entry all here =
      let cats_are : typed_cats (push cats trees []) [] ≡ cats =
        push-typed_cats all [] [] ∙ append-nil cats in
      let trees_are : typed_trees (push cats trees []) no_trees ≡ trees =
        push-typed_trees all [] no_trees ∙ joined-nil trees in
      subst
        (λ ts.
          HasEnd (entry_node ts (map_get ccat_ids_eq infer (typed_cats (push cats trees []) [])))
            (entry.cat, app entry.fun trees))
        (sym trees_are)
        (subst
          (λ cs.
            HasEnd (entry_node trees (map_get ccat_ids_eq infer cs))
              (entry.cat, app entry.fun trees))
          (sym cats_are) (entry_node-HasEnd trees (map_get ccat_ids_eq infer cats) entry here))

  appl-HasEnd :
      (arg : Expr → Tree Typed) (es : List Expr) (cats : List CCatId) (trees : CncTrees)
      (entry : LinInferEntry) (o : Option InferMap)
      → DerivesAll rules lits es cats trees
      → At (found (map_get ccat_ids_eq (found o) cats)) entry
      → ((infer : InferMap) (filled : List Typed) (r : Typed)
          → HasEnd (args_tree infer arg [] (push cats trees filled)) r
          → HasEnd (args_tree infer arg es filled) r)
      → HasEnd (appl_tree arg o es) (entry.cat, app entry.fun trees)
  unfolding map_get
  appl-HasEnd arg es cats trees entry none all (i, e) others = cc
  appl-HasEnd arg es cats trees entry (some infer) all here others =
      others infer [] (entry.cat, app entry.fun trees)
        (filled-HasEnd infer arg es cats trees entry all here)

  abbrev tree_in : ℕ → Expr → Tree Typed
  tree_in fuel = infer_tree fuel depth lzr lits

  mutual
    unfolding infer_tree args_tree push other_tree

    pub Derives-HasEnd :
        {e : Expr} {c : CCatId} {t : CncTree}
        → Derives rules lits e c t
        → (fuel : ℕ) → height e < fuel
        → HasEnd (tree_in fuel e) (c, t)
    Derives-HasEnd d zero lt = absurd (omega arith)
    Derives-HasEnd (literal {e = e} l {c = c} h k) (suc fuel) lt = elim (unapply-Spine e) [
      | inl (f, args, spine, _) ↦ absurd (Spine-unwrap spine l h)
      | inr (_, none_found) ↦
          subst
            (λ u. HasEnd (parts_tree (arg_tree depth lzr (tree_in fuel)) lzr lits e u) (c, lit l))
            (sym none_found)
            (subst (λ x. HasEnd (other_tree lits x) (c, lit l)) (sym h)
              (ap (λ x. (x, lit l)) (sym k)))
    ]
    Derives-HasEnd
          (application {e = e} {c = c} {args = args} {cats = cats} {trees = trees} fun pargs spine
            has fits all)
          (suc fuel) lt =
        let entry : LinInferEntry = record { cat = c; fun = fun } in
        let listed =
          subst (λ l. At l entry) (sym (idx.entries fun.fun (arg_cats pargs)))
            (Has-entries rules c fun pargs has) in
        subst
          (λ u.
            HasEnd (parts_tree (arg_tree depth lzr (tree_in fuel)) lzr lits e u) (c, app fun trees))
          (sym (Spine-unapply spine))
          (appl-HasEnd (arg_tree depth lzr (tree_in fuel)) args cats trees entry
            (map_get token_eq lzr.fun_indices fun.fun) all
            (subst
              (λ cs.
                At
                  (found
                    (map_get ccat_ids_eq (found (map_get token_eq lzr.fun_indices fun.fun)) cs))
                  entry)
              (sym fits) listed)
            (DerivesAll-HasEnd all fuel (Spine-height spine fuel (omega arith))))

    DerivesAll-HasEnd :
        {es : List Expr} {cs : List CCatId} {ts : CncTrees}
        → DerivesAll rules lits es cs ts
        → (fuel : ℕ) → All (λ e. height e < fuel) es
        → (infer : InferMap) (filled : List Typed) (r : Typed)
        → HasEnd (args_tree infer (arg_tree depth lzr (tree_in fuel)) [] (push cs ts filled)) r
        → HasEnd (args_tree infer (arg_tree depth lzr (tree_in fuel)) es filled) r
    DerivesAll-HasEnd nil fuel low infer filled r h = h
    DerivesAll-HasEnd (cons {e = e} {c = c} {top = top} {t = t} {es = es} d climbed all) fuel low
          infer filled r h =
        let arg = arg_tree depth lzr (tree_in fuel) in
        bind-HasEnd (arg e) (λ a. args_tree infer arg es (a ∷ filled)) (top, t) r
          (bind-HasEnd (tree_in fuel e) (λ a. super_tree depth lzr a.1 a.0) (c, t) (top, t)
            (Derives-HasEnd d fuel low.0)
            (Super-HasEnd rules lzr idx depth rank searchable climbed depth t (searchable.ranks c)))
          (DerivesAll-HasEnd all fuel low.1 infer ((top, t) ∷ filled) r h)
