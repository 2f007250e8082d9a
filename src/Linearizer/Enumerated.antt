-- ===== src/Linearizer/Enumerated.antt =====
-- What the enumeration of the concrete trees of an expression gives.
use libpgf.Prelude.{
  ℕ, ◌≡◌, ◌==◌, Option, none, some, Run, ok, Gives, bind-Gives, bind_returned-Gives, returned-Gives,
  require,
}
use libpgf.Choice.{Choice, choice_mark, choice_reset, choice_advance}
use libpgf.Expr.{Expr}
use libpgf.Grammar.{CCatId}
use libpgf.Linearizer.{Lzr, CncTree}
use libpgf.Linearizer.Rules.{Rules, Indexes}
use libpgf.Linearizer.Infer.{LiteralCats, Inferred, infer}
use libpgf.Linearizer.Enumerate.{Lzn, first_cat, with_tree, second_tree, next_of, lzn_next}
use libpgf.Linearizer.Derivation.{Derives}
use libpgf.Linearizer.Fills.{IsTreeOf}
use libpgf.Linearizer.Sound.{infer-IsTreeOf}
use libpgf.Linearizer.Values.{IsTree}
use libpgf.Linearizer.Typed.{IsGrammar, Derives-IsTree}

module _ (rules : Rules) (lits : LiteralCats) (lzr : Lzr) (idx : Indexes rules lzr)
    (size : CCatId → ℕ) (grammar : IsGrammar rules lits size) where
  -- A tree of the expression whose symbols name constituents that there are.
  abbrev pub IsGiven : Expr → Option CncTree → Type 0
  IsGiven e none = Unit {0}
  IsGiven e (some t) = ((c : CCatId) × Derives rules lits e c t) × IsTree t

  module _ (fuel rounds depth : ℕ) where
    abbrev go : Expr → Choice → Run Inferred
    go = infer fuel rounds depth lzr lits

    with_tree-IsGiven :
        (e : Expr) (mark : ℕ) (c : CCatId) (o : Option (CCatId × CncTree)) (ch : Choice)
        → IsTreeOf rules lits lzr idx e o
        → Gives (λ r. IsGiven e r.0) (with_tree go e mark c o ch)
    unfolding with_tree
    with_tree-IsGiven e mark c none ch h = tt
    with_tree-IsGiven e mark c (some (c', t)) ch h =
        bind_returned-Gives (λ r. IsGiven e r.0) (require (c == c')) _
          λ _ _.
            bind_returned-Gives (λ r. IsGiven e r.0) (choice_reset ch mark) _
              λ back _.
                bind_returned-Gives (λ r. IsGiven e r.0) (choice_advance back) _
                  λ a _. ((c', h), (Derives-IsTree rules lits size grammar h).0)

    second_tree-IsGiven :
        (e : Expr) (mark : ℕ) (lzn : Lzn) (o : Option CCatId) (ch : Choice)
        → Gives (λ r. IsGiven e r.0) (second_tree go e mark lzn o ch)
    unfolding second_tree
    second_tree-IsGiven e mark lzn none ch = tt
    second_tree-IsGiven e mark lzn (some c) ch =
        bind-Gives (λ r. IsTreeOf rules lits lzr idx e r.0) (λ r. IsGiven e r.0) (go e ch) _
          (infer-IsTreeOf rules lits lzr idx fuel rounds depth e ch)
          (λ r h. with_tree-IsGiven e mark c r.0 r.1 h)

    next-IsGiven :
        (tries : ℕ) (e : Expr) (ch : Choice)
        → Gives (λ r. IsGiven e r.0) (lzn_next go tries (record { ch = ch; expr = some e }))
    unfolding lzn_next next_of
    next-IsGiven tries e ch =
        bind_returned-Gives (λ r. IsGiven e r.0) (choice_mark ch) _
          λ mark _.
            bind_returned-Gives (λ r. IsGiven e r.0) (first_cat go tries e mark ch) _
              λ r _. second_tree-IsGiven e mark (record { ch = ch; expr = some e }) r.0 r.1

    -- If pgf_lzn_next, over a linearizer that has indexed a well-formed grammar, returns a tree of
    -- an expression, then every node of the tree is a production of the grammar for the expression
    -- there, up to coercions, and every symbol in it names a constituent that its argument has.
    pub lzn_next-IsTree :
        (tries : ℕ) (e : Expr) (ch : Choice) (t : CncTree) (lzn' : Lzn)
        → lzn_next go tries (record { ch = ch; expr = some e }) ≡ ok (some t, lzn')
        → ((c : CCatId) × Derives rules lits e c t) × IsTree t
    lzn_next-IsTree tries e ch t lzn' h =
        returned-Gives (λ r. IsGiven e r.0) _ (some t, lzn') h (next-IsGiven tries e ch)
