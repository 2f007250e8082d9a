-- ===== src/Parser/Trees/Realize.antt =====
-- pgf_cat_to_expr makes its choices as the specification's tree says.
use libpgf.Prelude.{
  ℕ, zero, suc, ◌≤◌, ◌<◌, ◌≡◌, ◌∙◌, true, ok, none, arith, Bool-cases, inl, inr, some, List, [],
  ◌∷◌, length, All, All-get_elem?,
}
use libpgf.Choice.Tree.{Tree, Fits, complete}
use libpgf.Choice.Runs.{started, ended, run-complete}
use libpgf.Choice.Monad.{
  Choosing, lift, ◌>>=◌, Realizes, Realizes-return, Realizes-dead_end, Realizes-choice,
  Realizes-bind, Realizes-mono, Realizes-lift,
}
use libpgf.Expr.{Expr, app, fun, meta}
use libpgf.Grammar.{CCatId, PArg, Production, apply, coerce, Productions, null, seq, buf, CCatStore}
use libpgf.Parser.Trees.{
  seen_has, args_to_expr, production_to_expr, synthetic, choose_production, cat_to_expr, deref,
}
use libpgf.Parser.Trees.Spec.{
  Outcome, args_tree, production_tree, productions_tree, expr_tree, IsArg, IsProduction,
  AreProductions, IsStore, IsReadable, has_productions, unseen, unseen-cons_lt,
}

-- At most `b` of n categories are left to be met.
abbrev pub Leaves : ℕ → ℕ → Outcome → Type 0
Leaves n b r = unseen n r.1 ≤ b

-- In a section over the calls for arguments, which work where at most `top` are left to be met.
module _ (store : CCatStore) (n top : ℕ) (tree : CCatId → List CCatId → Tree Outcome)
    (go : CCatId → List CCatId → Choosing Outcome)
    (call : (c : CCatId) (seen : List CCatId)
      → IsReadable store c
      → unseen n seen ≤ top
      → Realizes (Leaves n (unseen n seen)) (tree c seen) (go c seen)) where
  args-Realizes :
      (args : List PArg) (e : Expr) (seen : List CCatId) (b : ℕ)
      → All (IsArg store) args
      → unseen n seen ≤ b
      → b ≤ top
      → Realizes (Leaves n b) (args_tree tree args e seen) (args_to_expr go args e seen)
  unfolding args_tree args_to_expr
  args-Realizes [] e seen b h p q = Realizes-return (Leaves n b) (e, seen) p
  args-Realizes (a ∷ args) e seen b h p q = rw h.0.0 (
      Realizes-bind (Leaves n (unseen n seen)) (Leaves n b) (tree a.ccat seen) _ (go a.ccat seen) _
        (call a.ccat seen h.0.1 (omega arith))
        (λ r fewer. args-Realizes args (app e r.0) r.1 b h.1 (omega arith) q))

  production-Realizes :
      (prod : Production) (seen : List CCatId)
      → IsProduction store prod
      → unseen n seen ≤ top
      → Realizes
          (Leaves n (unseen n seen))
          (production_tree tree prod seen)
          (production_to_expr go prod seen)
  unfolding production_tree production_to_expr
  production-Realizes (apply f args) seen h p =
      args-Realizes args (fun f.fun) seen (unseen n seen) h (omega arith) p
  production-Realizes (coerce c) seen h p = call c seen h p

  buf-Realizes :
      (ps : List Production) (seen : List CCatId)
      → AreProductions store (buf ps)
      → unseen n seen ≤ top
      → Realizes
          (Leaves n (unseen n seen))
          (productions_tree tree (buf ps) seen)
          (choose_production go (some ps) seen)
  unfolding productions_tree choose_production
  buf-Realizes ps seen h p = Realizes-choice (Leaves n (unseen n seen)) (length ps) _ _ h.0 λ i lt.
      let (prod, found, valid) = All-get_elem? (IsProduction store) ps i h.1 lt in
      rw found (
        Realizes-lift (Leaves n (unseen n seen)) _ (deref ps i) prod _ (rw (found, deref))
          (production-Realizes prod seen valid p))

  -- What follows when the productions have been told apart.
  productions-Realizes :
      (prods : Productions) (seen : List CCatId)
      → AreProductions store prods
      → has_productions (some (record { cnccat = none; prods = prods; fid = 0 })) ≡ true
      → unseen n seen ≤ top
      → Realizes
          (Leaves n (unseen n seen))
          (productions_tree tree prods seen)
          (lift (synthetic prods) >>= λ ps. choose_production go ps seen)
  unfolding synthetic
  productions-Realizes null seen h full p = cc
  productions-Realizes (seq ps) seen h full p =
      unfold productions_tree choose_production in Realizes-return _ (meta 0, seen) (omega arith)
  productions-Realizes (buf ps) seen h full p = buf-Realizes ps seen h p

-- A call, given the calls with less fuel.
cat_to_expr_step :
    (fuel : ℕ) (store : CCatStore) (c : CCatId) (seen : List CCatId)
    → IsStore store
    → IsReadable store c
    → ((d : CCatId) (s : List CCatId)
        → IsReadable store d
        → unseen (length store) s < unseen (length store) seen
        → Realizes
            (Leaves (length store) (unseen (length store) s))
            (expr_tree fuel store d s)
            (cat_to_expr fuel store d s))
    → Realizes
        (Leaves (length store) (unseen (length store) seen))
        (expr_tree (suc fuel) store c seen)
        (cat_to_expr (suc fuel) store c seen)
unfolding expr_tree cat_to_expr
cat_to_expr_step fuel store c seen h lt call =
    let n = length store in
    elim (Bool-cases (seen_has seen c)) [
      | inl met ↦ rw met (Realizes-dead_end _)
      | inr new ↦
          let (cat, found, valid) =
            All-get_elem? (λ k. AreProductions store k.prods) store c h lt.0 in
          let full = rw found at lt.1 in
          let left = unseen n (c ∷ seen) in
          let fewer = unseen-cons_lt n c seen lt.0 new in
          Realizes-mono (Leaves n left) (Leaves n (unseen n seen)) _ _ (λ r q. omega arith)
            (rw (new, found)
              (Realizes-lift (Leaves n left) _ (deref store c) cat _ (rw (found, deref)) (
                productions-Realizes store n left (expr_tree fuel store) (cat_to_expr fuel store)
                  (λ d s ld ls. call d s ld (omega arith)) cat.prods (c ∷ seen) valid full
                  (omega arith))))
    ]

call-Realizes :
    (fuel : ℕ) (store : CCatStore) (c : CCatId) (seen : List CCatId)
    → IsStore store
    → IsReadable store c
    → unseen (length store) seen < fuel
    → Realizes
        (Leaves (length store) (unseen (length store) seen))
        (expr_tree fuel store c seen)
        (cat_to_expr fuel store c seen)
call-Realizes zero store c seen h lt p = absurd (omega arith)
call-Realizes (suc fuel) store c seen h lt p =
    cat_to_expr_step fuel store c seen h lt
      λ d s ld fewer. call-Realizes fuel store d s h ld (omega arith)

-- On a store in which productions lead to categories with productions, bind no variables and are
-- at most 255 of a category, for a category with productions and with fuel for each category that
-- is still unseen: pgf_cat_to_expr makes its choices as `expr_tree` says; and from a choice whose
-- path fits that tree it returns, without a fault or a failed assertion, the outcome that the tree
-- has at the path completed by first alternatives, with the choice at the end of that path.
pub cat_to_expr-Realizes :
    (fuel : ℕ) (store : CCatStore) (c : CCatId) (seen : List CCatId)
    → IsStore store
    → IsReadable store c
    → unseen (length store) seen < fuel
    → Realizes
        (Leaves (length store) (unseen (length store) seen))
        (expr_tree fuel store c seen)
        (cat_to_expr fuel store c seen)
      × ((before p : List ℕ)
          → Fits (expr_tree fuel store c seen) p
          → cat_to_expr fuel store c seen (started before p)
            ≡ ok (
              (complete (expr_tree fuel store c seen) p).0,
              ended before (complete (expr_tree fuel store c seen) p).1,
            ))
cat_to_expr-Realizes fuel store c seen h lt p =
    let all = call-Realizes fuel store c seen h lt p in
    (
      all,
      λ before q fits.
          all.runs (started before q)
          ∙ run-complete (expr_tree fuel store c seen) before q all.narrow fits,
    )
