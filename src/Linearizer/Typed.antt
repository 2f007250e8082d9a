-- ===== src/Linearizer/Typed.antt =====
-- The trees that stand for expressions have the constituents that a well-formed grammar promises.
use libpgf.Prelude.{ℕ, zero, suc, ◌≡◌, refl, sym, ◌∙◌, ap, List, [], ◌∷◌, length, map, All}
use libpgf.Expr.{Expr, Literal}
use libpgf.Grammar.{CCatId, Production, apply, coerce}
use libpgf.Linearizer.{CncTree, CncTrees}
use libpgf.Linearizer.Presenter.{n_ctnts}
use libpgf.Linearizer.Index.{arg_cats}
use libpgf.Linearizer.Rules.{Rules}
use libpgf.Linearizer.Infer.{LiteralCats, literal_cat}
use libpgf.Linearizer.Values.{IsSymbol, IsTree, AreTrees, sizes}
use libpgf.Linearizer.Derivation.{Has, Super, same, up, Derives, DerivesAll}
use mathlib.Core.Path.{subst}

-- Each category has a number of constituents: a function's sequences are so many, and name
-- constituents of its arguments that there are; coercions keep the number; a literal has one.
abbrev pub IsRule : (CCatId → ℕ) → CCatId × Production → Type 0
IsRule size (c, apply fun args) =
    (length fun.lins ≡ size c) × All (All (IsSymbol (map size (arg_cats args)))) fun.lins
IsRule size (c, coerce d) = size c ≡ size d

pub record IsGrammar (rules : Rules) (lits : LiteralCats) (size : CCatId → ℕ) : Type 0 where
  pub each : All (IsRule size) rules
  pub literals : (l : Literal) → size (literal_cat lits l) ≡ 1

All-Has :
    (P : CCatId × Production → Type 0) (rules : Rules) (r : CCatId × Production)
    → All P rules
    → Has rules r
    → P r
All-Has P [] r h (i, e) = cc
All-Has P (x ∷ rules) r h (zero, e) = let equal : x ≡ r = cc in subst P equal h.0
All-Has P (x ∷ rules) r h (suc i, e) = All-Has P rules r h.1 (i, e)

module _ (rules : Rules) (lits : LiteralCats) (size : CCatId → ℕ)
    (grammar : IsGrammar rules lits size) where
  Super-size : {c top : CCatId} → Super rules c top → size top ≡ size c
  Super-size (same c) = refl
  Super-size (up {c = c} {d = d} h s) =
      Super-size s ∙ All-Has (IsRule size) rules (d, coerce c) grammar.each h

  mutual
    unfolding n_ctnts sizes

    pub Derives-IsTree :
        {e : Expr} {c : CCatId} {t : CncTree}
        → Derives rules lits e c t
        → IsTree t × (n_ctnts t ≡ size c)
    Derives-IsTree (Derives.literal l h k) =
        (IsTree.literal l, sym (ap size k ∙ grammar.literals l))
    Derives-IsTree (Derives.application {c = c} {trees = trees} fun pargs spine has cats all) =
        let (good, sizes_are) = DerivesAll-AreTrees all in
        let rule = All-Has (IsRule size) rules (c, apply fun pargs) grammar.each has in
        (
          IsTree.application
              (subst (λ ns. All (All (IsSymbol ns)) fun.lins) (sym (sizes_are ∙ ap (map size) cats))
                rule.1)
              good,
          rule.0,
        )

    DerivesAll-AreTrees :
        {es : List Expr} {cs : List CCatId} {ts : CncTrees}
        → DerivesAll rules lits es cs ts
        → AreTrees ts × (sizes ts ≡ map size cs)
    DerivesAll-AreTrees DerivesAll.nil = (AreTrees.nil, refl)
    DerivesAll-AreTrees (DerivesAll.cons {top = top} {cs = cs} {ts = ts} d climbed all) =
        let (good, size_is) = Derives-IsTree d in
        let (others, sizes_are) = DerivesAll-AreTrees all in
        (
          AreTrees.cons good others,
          ap (λ n. n ∷ sizes ts) (size_is ∙ sym (Super-size climbed))
              ∙ ap (λ l. size top ∷ l) sizes_are,
        )
