-- ===== src/Parser/Trees/Repeats.antt =====
-- The set of categories met serves to stop at cycles. It also stops where no cycle is.
use libpgf.Prelude.{
  ℕ, suc, ◌≡◌, none, some, ok, List, [], ◌∷◌, get_elem?, false, true, Bool-cases, ==_iff, refl, inl,
  inr,
}
use libpgf.Choice.{Choice}
use libpgf.Expr.{meta}
use libpgf.Grammar.{CCatId, PArg, Production, apply, seq, CCat, CCatStore, CncFun}
use libpgf.Parser.Trees.{seen_has, production_to_expr, cat_to_expr, deref}

seen_has_head : (c : CCatId) (seen : List CCatId) → seen_has (c ∷ seen) c ≡ true
unfolding seen_has
seen_has_head c seen = rw ((==_iff c c).1 refl)

cat_to_expr_met :
    (fuel : ℕ) (store : CCatStore) (c : CCatId) (seen : List CCatId) (ch : Choice)
    → seen_has seen c ≡ true
    → cat_to_expr (suc fuel) store c seen ch ≡ ok (none, ch)
unfolding cat_to_expr
cat_to_expr_met fuel store c seen ch met = rw met

deref_found :
    (store : CCatStore) (c : CCatId) (cat : CCat)
    → get_elem? store c ≡ some cat
    → deref store c ≡ ok cat
deref_found store c cat found = rw (found, deref)

-- A category of the grammar becomes a metavariable.
cat_to_expr_plain :
    (fuel : ℕ) (store : CCatStore) (c : CCatId) (cat : CCat) (ps : List Production)
    (seen : List CCatId) (ch : Choice)
    → seen_has seen c ≡ false
    → get_elem? store c ≡ some cat
    → cat.prods ≡ seq ps
    → cat_to_expr (suc fuel) store c seen ch ≡ ok (some (meta 0, c ∷ seen), ch)
unfolding cat_to_expr
cat_to_expr_plain fuel store c cat ps seen ch new found plain =
    rw new (rw (deref_found store c cat found) (rw plain))

-- A function whose first two arguments have one and the same category of the grammar has no tree:
-- pgf_production_to_expr returns null for it, without a choice, though nothing is cyclic, and though
-- the argument alone would be a metavariable.
pub production_to_expr-repeated :
    (fuel : ℕ) (store : CCatStore) (f : CncFun) (c : CCatId) (cat : CCat) (ps : List Production)
    (args : List PArg) (seen : List CCatId) (ch : Choice)
    → get_elem? store c ≡ some cat
    → cat.prods ≡ seq ps
    → production_to_expr
        (cat_to_expr (suc fuel) store)
        (apply f (record { hypos = []; ccat = c } ∷ record { hypos = []; ccat = c } ∷ args))
        seen
        ch
      ≡ ok (none, ch)
unfolding production_to_expr
production_to_expr-repeated fuel store f c cat ps args seen ch found plain =
    elim (Bool-cases (seen_has seen c)) [
      | inl met ↦ rw (cat_to_expr_met fuel store c seen ch met)
      | inr new ↦
          rw (cat_to_expr_plain fuel store c cat ps seen ch new found plain)
            (rw (cat_to_expr_met fuel store c (c ∷ seen) ch (seen_has_head c seen)))
    ]
