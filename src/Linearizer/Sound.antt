-- ===== src/Linearizer/Sound.antt =====
-- pgf_lzn_infer gives trees that stand for the expression in the grammar that was indexed.
use libpgf.Prelude.{
  ℕ, zero, suc, ◌≡◌, refl, sym, ◌∙◌, ap, Bool, true, false, Bool-cases, Option, none, some, List,
  [], ◌∷◌, length, drop, get_elem?, inl, inr, Run, Gives, bind-Gives, bind_returned-Gives,
}
use libpgf.Choice.{Choice, choice_mark, choice_reset, choice_next, choice_advance}
use libpgf.Expr.{CId, Expr}
use libpgf.Expr.Unapply.{unwrap, Spine, unapply-Spine}
use libpgf.Grammar.{CCatId}
use libpgf.Parser.Trees.{deref}
use libpgf.Parser.Chart.{token_eq}
use libpgf.Parser.Chart.State.{map_get}
use libpgf.Linearizer.{LinInferEntry, InferMap, Lzr, CncTree, CncTrees, no_trees}
use libpgf.Linearizer.Index.{ccat_ids_eq, found}
use libpgf.Linearizer.Rules.{Rules, Indexes, entries_in}
use libpgf.Linearizer.Infer.{
  LiteralCats, Inferred, Filled, Filling, cats_onto, trees_onto, fill_args, pick_entry, entry_at,
  finish_try, resume, after_try, infer_with, infer_appl, infer_apply_try, step_back,
  application_loop, infer_application, infer_other, infer,
}
use libpgf.Linearizer.Derivation.{literal, application, DerivesAll, entries_in-Source}
use libpgf.Linearizer.Fills.{
  deref_returned, IsTreeOf, PartOf, PartOf-drop, PartOf-back, PartOf-DerivesAll, no_args-PartOf,
  FilledUp, fill_args-FilledUp,
}
use mathlib.Core.Path.{subst}

-- In a section over a linearizer that has indexed a grammar.
module _ (rules : Rules) (lits : LiteralCats) (lzr : Lzr) (idx : Indexes rules lzr) where
  -- In a section over the calls for arguments.
  module _ (go : Expr → Choice → Run Inferred)
      (call : (e : Expr) (ch : Choice) → Gives (λ r. IsTreeOf rules lits lzr idx e r.0) (go e ch))
      (depth : ℕ) (args : List Expr) where
    -- In a section over an application of which these are the arguments.
    module _ (e : Expr) (f : CId) (spine : Spine e f args) (infer_map : InferMap)
        (indexed : found (map_get token_eq lzr.fun_indices f) ≡ infer_map) where
      entry_at-IsTreeOf :
          (entries : List LinInferEntry) (trees : CncTrees) (cats : List CCatId) (o : Option ℕ)
          (ch : Choice)
          → DerivesAll rules lits args cats trees
          → entries ≡ entries_in rules f cats
          → Gives (λ r. IsTreeOf rules lits lzr idx e r.0) (entry_at entries trees o ch)
      unfolding entry_at
      entry_at-IsTreeOf entries trees cats none ch d h = tt
      entry_at-IsTreeOf entries trees cats (some j) ch d h =
          bind_returned-Gives (λ r. IsTreeOf rules lits lzr idx e r.0) (deref entries j) _
            λ entry got.
              let (pargs, has, named, fits) =
                entries_in-Source rules f cats j entry
                  (ap (λ l. get_elem? l j) (sym h) ∙ deref_returned entries j entry got) in
              application entry.fun pargs (subst (λ g. Spine e g args) (sym named) spine) has
                (sym fits) d

      pick_entry-IsTreeOf :
          (o : Option (List LinInferEntry)) (trees : CncTrees) (cats : List CCatId) (ch : Choice)
          → DerivesAll rules lits args cats trees
          → found o ≡ entries_in rules f cats
          → Gives (λ r. IsTreeOf rules lits lzr idx e r.0) (pick_entry o trees ch)
      unfolding pick_entry
      pick_entry-IsTreeOf none trees cats ch d h = tt
      pick_entry-IsTreeOf (some entries) trees cats ch d h =
          bind_returned-Gives (λ r. IsTreeOf rules lits lzr idx e r.0)
            (choice_next ch (length entries)) _
            λ r _. entry_at-IsTreeOf entries trees cats r.0 r.1 d h

      -- A try that fails leaves arguments to go back through.
      abbrev Tried : (Option (CCatId × CncTree) × Filling) × Choice → Type 0
      Tried r =
          IsTreeOf rules lits lzr idx e r.0.0
          × ((rest : List Expr) × PartOf rules lits lzr idx args r.0.1.filled rest)

      finish_try-Tried :
          (all : Bool) (st : Filling) (ch : Choice)
          → FilledUp rules lits lzr idx go call depth args ((all, st), ch)
          → Gives Tried (finish_try infer_map all st ch)
      unfolding finish_try
      finish_try-Tried false st ch h = (tt, (h.0, h.1))
      finish_try-Tried true st ch (rest, part, full) =
          let cats = cats_onto st.filled [] in
          let trees = trees_onto st.filled no_trees in
          let complete =
            PartOf-DerivesAll rules lits lzr idx args st.filled rest part (full refl) in
          bind-Gives (λ r. IsTreeOf rules lits lzr idx e r.0) Tried
            (pick_entry (map_get ccat_ids_eq infer_map cats) trees ch) _
            (pick_entry-IsTreeOf (map_get ccat_ids_eq infer_map cats) trees cats ch complete
              (ap (λ m. found (map_get ccat_ids_eq m cats)) (sym indexed) ∙ idx.entries f cats))
            (λ r t. (t, (rest, part)))

      infer_apply_try-Tried :
          (st : Filling) (ch : Choice) (rest : List Expr)
          → PartOf rules lits lzr idx args st.filled rest
          → Gives Tried (infer_apply_try depth lzr go infer_map args st ch)
      unfolding infer_apply_try
      infer_apply_try-Tried st ch rest h =
          bind-Gives (FilledUp rules lits lzr idx go call depth args) Tried
            (fill_args depth lzr go (drop (length st.filled) args) st ch) _
            (fill_args-FilledUp rules lits lzr idx go call depth args (drop (length st.filled) args)
              st ch
              (subst (PartOf rules lits lzr idx args st.filled)
                (sym (PartOf-drop rules lits lzr idx args st.filled rest h)) h))
            (λ r full. finish_try-Tried r.0.0 r.0.1 r.1 full)

      abbrev Resumed : Option Filling → Type 0
      Resumed none = Unit {0}
      Resumed (some st) = (rest : List Expr) × PartOf rules lits lzr idx args st.filled rest

      step_back-Resumed :
          (filled : List Filled) (ch : Choice) (rest : List Expr)
          → PartOf rules lits lzr idx args filled rest
          → Gives (λ r. Resumed r.0) (step_back filled ch)
      unfolding step_back
      step_back-Resumed [] ch rest h = tt
      step_back-Resumed (g ∷ filled) ch rest h =
          let (rest', back) = PartOf-back rules lits lzr idx args g filled rest h in
          bind_returned-Gives (λ r. Resumed r.0) (choice_reset ch g.mark) _
            λ ch1 _.
              bind_returned-Gives (λ r. Resumed r.0) (choice_advance ch1) _
                λ a _. elim (Bool-cases (a.0)) [
                  | inl more ↦ rw more (rest', back)
                  | inr none_left ↦ rw none_left (step_back-Resumed filled a.1 rest' back)
                ]

      resume-IsTreeOf :
          (again : Filling → Choice → Run Inferred) (o : Option Filling) (ch : Choice)
          → Resumed o
          → ((st : Filling) (ch' : Choice) (rest : List Expr)
              → PartOf rules lits lzr idx args st.filled rest
              → Gives (λ r. IsTreeOf rules lits lzr idx e r.0) (again st ch'))
          → Gives (λ r. IsTreeOf rules lits lzr idx e r.0) (resume again o ch)
      unfolding resume
      resume-IsTreeOf again none ch h k = tt
      resume-IsTreeOf again (some st) ch h k = k st ch h.0 h.1

      after_try-IsTreeOf :
          (again : Filling → Choice → Run Inferred) (o : Option (CCatId × CncTree)) (st : Filling)
          (ch : Choice) (rest : List Expr)
          → IsTreeOf rules lits lzr idx e o
          → PartOf rules lits lzr idx args st.filled rest
          → ((st' : Filling) (ch' : Choice) (rest' : List Expr)
              → PartOf rules lits lzr idx args st'.filled rest'
              → Gives (λ r. IsTreeOf rules lits lzr idx e r.0) (again st' ch'))
          → Gives (λ r. IsTreeOf rules lits lzr idx e r.0) (after_try again o st ch)
      unfolding after_try
      after_try-IsTreeOf again (some ret) st ch rest t h k = t
      after_try-IsTreeOf again none st ch rest t h k =
          bind-Gives (λ s. Resumed s.0) (λ r. IsTreeOf rules lits lzr idx e r.0)
            (step_back st.filled ch) _ (step_back-Resumed st.filled ch rest h)
            (λ s resumed. resume-IsTreeOf again s.0 s.1 resumed k)

      application_loop-IsTreeOf :
          (rounds : ℕ) (st : Filling) (ch : Choice) (rest : List Expr)
          → PartOf rules lits lzr idx args st.filled rest
          → Gives
              (λ r. IsTreeOf rules lits lzr idx e r.0)
              (application_loop rounds depth lzr go infer_map args st ch)
      unfolding application_loop
      application_loop-IsTreeOf zero st ch rest h = tt
      application_loop-IsTreeOf (suc rounds) st ch rest h =
          bind-Gives Tried (λ r. IsTreeOf rules lits lzr idx e r.0)
            (infer_apply_try depth lzr go infer_map args st ch) _
            (infer_apply_try-Tried st ch rest h)
            λ r tried.
              let (t, left) = tried in
              after_try-IsTreeOf (application_loop rounds depth lzr go infer_map args) r.0.0 r.0.1
                r.1 left.0 t left.1 (application_loop-IsTreeOf rounds)

  infer_with-IsTreeOf :
      (go : Expr → Choice → Run Inferred) (rounds depth : ℕ) (e : Expr) (f : CId) (args : List Expr)
      (o : Option InferMap) (ch : Choice)
      → ((e' : Expr) (ch' : Choice) → Gives (λ r. IsTreeOf rules lits lzr idx e' r.0) (go e' ch'))
      → Spine e f args
      → map_get token_eq lzr.fun_indices f ≡ o
      → Gives (λ r. IsTreeOf rules lits lzr idx e r.0) (infer_with rounds depth lzr go o args ch)
  unfolding infer_with
  infer_with-IsTreeOf go rounds depth e f args none ch call spine h = tt
  infer_with-IsTreeOf go rounds depth e f args (some infer_map) ch call spine h =
      bind_returned-Gives (λ r. IsTreeOf rules lits lzr idx e r.0) (choice_mark ch) _
        λ mark _.
          application_loop-IsTreeOf go call depth args e f spine infer_map (ap found h) rounds _ ch
            args (no_args-PartOf rules lits lzr idx args)

  infer_other-IsTreeOf :
      (e : Expr) (inner : Expr) (ch : Choice)
      → unwrap e ≡ inner
      → Gives (λ r. IsTreeOf rules lits lzr idx e r.0) (infer_other lits inner ch)
  unfolding infer_other
  infer_other-IsTreeOf e (Expr.lit l) ch h = literal l h refl
  infer_other-IsTreeOf e (Expr.abs b c x) ch h = tt
  infer_other-IsTreeOf e (Expr.app x y) ch h = tt
  infer_other-IsTreeOf e (Expr.meta n) ch h = tt
  infer_other-IsTreeOf e (Expr.fun c) ch h = tt
  infer_other-IsTreeOf e (Expr.var n) ch h = tt
  infer_other-IsTreeOf e (Expr.typed x t) ch h = tt
  infer_other-IsTreeOf e (Expr.impl_arg x) ch h = tt

  -- A tree that pgf_lzn_infer gives an expression stands for it, in the category given with it:
  -- each node is a production of the grammar that the linearizer indexed, with the function of the
  -- expression there, and the categories of the arguments are coerced to those of the production.
  pub infer-IsTreeOf :
      (fuel rounds depth : ℕ) (e : Expr) (ch : Choice)
      → Gives (λ r. IsTreeOf rules lits lzr idx e r.0) (infer fuel rounds depth lzr lits e ch)
  unfolding infer infer_appl
  infer-IsTreeOf zero rounds depth e ch = tt
  infer-IsTreeOf (suc fuel) rounds depth e ch = elim (unapply-Spine e) [
    | inl (f, args, spine, h) ↦ rw h (
        unfold infer_application in
        infer_with-IsTreeOf (infer fuel rounds depth lzr lits) rounds depth e f args
          (map_get token_eq lzr.fun_indices f) ch (infer-IsTreeOf fuel rounds depth) spine refl)
    | inr (_, h) ↦ rw h (infer_other-IsTreeOf e (unwrap e) ch refl)
  ]
