-- ===== src/Linearizer/Derivation.antt =====
-- What it means that a concrete tree stands for an expression in a grammar: each of its nodes is a
-- production, and the category of an argument may be coerced on the way to the node above.
use libpgf.Prelude.{
  ℕ, zero, suc, ◌≡◌, refl, sym, ◌∙◌, ap, ◌&&◌, Bool-cases, some, List, [], ◌∷◌, ◌++◌, get_elem?,
  ◌⊎◌, inl, inr, ◌==◌, if◌then◌else◌,
}
use libpgf.Expr.{CId, Expr, Literal}
use mathlib.Core.Path.{subst}
use libpgf.Expr.Unapply.{unwrap, Spine}
use libpgf.Grammar.{CCatId, CncFun, PArg, Production, apply, coerce}
use libpgf.Parser.Chart.{token_eq}
use libpgf.Linearizer.{LinInferEntry, CncTree, CncTrees, app, lit, no_trees, tree}
use libpgf.Linearizer.Index.{ccat_ids_eq, arg_cats}
use libpgf.Linearizer.Keys.{==-IsLawful, token_eq-IsLawful, and_true}
use libpgf.Linearizer.Rules.{Rules, entry_of, super_of, entries_in, supers_in, ccat_ids_eq-IsLawful}
use libpgf.Linearizer.Infer.{LiteralCats, literal_cat}

-- A production is one of the grammar's.
abbrev pub Has : Rules → CCatId × Production → Type 0
Has rules r = (i : ℕ) × (get_elem? rules i ≡ some r)

-- From a category up to one that coerces it, in any number of steps.
pub data Super (rules : Rules) : CCatId → CCatId → Type 0 where
  same : (c : CCatId) → Super rules c c
  up : {c d top : CCatId} → Has rules (d, coerce c) → Super rules d top → Super rules c top

mutual
  pub data Derives (rules : Rules) (lits : LiteralCats) : Expr → CCatId → CncTree → Type 0 where
    literal :
        {e : Expr} (l : Literal) {c : CCatId}
        → unwrap e ≡ Expr.lit l
        → c ≡ literal_cat lits l
        → Derives rules lits e c (lit l)
    application :
        {e : Expr} {c : CCatId} {args : List Expr} {cats : List CCatId} {trees : CncTrees}
        (fun : CncFun) (pargs : List PArg)
        → Spine e fun.fun args
        → Has rules (c, apply fun pargs)
        → cats ≡ arg_cats pargs
        → DerivesAll rules lits args cats trees
        → Derives rules lits e c (app fun trees)

  pub data DerivesAll (rules : Rules) (lits : LiteralCats)
      : List Expr → List CCatId → CncTrees → Type 0 where
    nil : DerivesAll rules lits [] [] no_trees
    cons :
        {e : Expr} {c top : CCatId} {t : CncTree} {es : List Expr} {cs : List CCatId}
        {ts : CncTrees}
        → Derives rules lits e c t
        → Super rules c top
        → DerivesAll rules lits es cs ts
        → DerivesAll rules lits (e ∷ es) (top ∷ cs) (tree t ts)

pub Super-trans :
    {rules : Rules} {a b c : CCatId} → Super rules a b → Super rules b c → Super rules a c
Super-trans (same a) q = q
Super-trans (up h p) q = up h (Super-trans p q)

-- An element of two lists behind each other, where the second is known from its first element on.
pub elem_of-append {ℓ} :
    {A : Type ℓ} (xs ys : List A) (i : ℕ) (a : A)
    → get_elem? (xs ++ ys) i ≡ some a
    → ((j : ℕ) × (get_elem? xs j ≡ some a)) ⊎ ((j : ℕ) × (get_elem? ys j ≡ some a))
elem_of-append [] ys i a h = inr (i, h)
elem_of-append (x ∷ xs) ys zero a h = inl (0, h)
elem_of-append (x ∷ xs) ys (suc i) a h = elim (elem_of-append xs ys i a h) [
  | inl (j, e) ↦ inl (suc j, e)
  | inr r ↦ inr r
]

-- Where an entry comes from.
abbrev pub Source : Rules → CId → List CCatId → LinInferEntry → Type 0
Source rules f cats entry =
    (args : List PArg) × Has rules (entry.cat, apply entry.fun args)
    × (entry.fun.fun ≡ f)
    × (arg_cats args ≡ cats)

single {ℓ} : {A : Type ℓ} (x a : A) (j : ℕ) → get_elem? (x ∷ []) j ≡ some a → x ≡ a
single x a zero h = cc
single x a (suc j) h = cc

entry_of-Source :
    (r : CCatId × Production) (rules : Rules) (f : CId) (cats : List CCatId) (j : ℕ)
    (entry : LinInferEntry)
    → get_elem? (entry_of r f cats) j ≡ some entry
    → Source (r ∷ rules) f cats entry
entry_of-Source (c, coerce d) rules f cats j entry h = cc
entry_of-Source (c, apply fun args) rules f cats j entry h =
    elim (Bool-cases (token_eq fun.fun f && ccat_ids_eq (arg_cats args) cats)) [
      | inl both ↦
          let (named, fits) = and_true _ _ both in
          let this : LinInferEntry = record { cat = c; fun = fun } in
          let listed : get_elem? (this ∷ []) j ≡ some entry =
            ap (λ b. get_elem? (if b then this ∷ [] else []) j) (sym both) ∙ h in
          subst (Source ((c, apply fun args) ∷ rules) f cats) (single this entry j listed) (
            args,
            (0, refl),
            token_eq-IsLawful.sound fun.fun f named,
            ccat_ids_eq-IsLawful.sound (arg_cats args) cats fits,
          )
      | inr other ↦
          let empty : get_elem? {A = LinInferEntry} [] j ≡ some entry =
            ap (λ b. get_elem? (if b then record { cat = c; fun = fun } ∷ [] else []) j) (sym other)
            ∙ h in
          cc (empty)
    ]

Source-later :
    (r : CCatId × Production) (rules : Rules) (f : CId) (cats : List CCatId) (entry : LinInferEntry)
    → Source rules f cats entry
    → Source (r ∷ rules) f cats entry
Source-later r rules f cats entry (args, (i, e), named, fits) = (args, (suc i, e), named, fits)

pub entries_in-Source :
    (rules : Rules) (f : CId) (cats : List CCatId) (j : ℕ) (entry : LinInferEntry)
    → get_elem? (entries_in rules f cats) j ≡ some entry
    → Source rules f cats entry
unfolding entries_in
entries_in-Source [] f cats j entry h = cc
entries_in-Source (r ∷ rules) f cats j entry h =
    elim (elem_of-append (entry_of r f cats) (entries_in rules f cats) j entry h) [
      | inl (k, e) ↦ entry_of-Source r rules f cats k entry e
      | inr (k, e) ↦ Source-later r rules f cats entry (entries_in-Source rules f cats k entry e)
    ]

super_of-Has :
    (r : CCatId × Production) (rules : Rules) (c : CCatId) (j : ℕ) (d : CCatId)
    → get_elem? (super_of r c) j ≡ some d
    → Has (r ∷ rules) (d, coerce c)
super_of-Has (a, apply fun args) rules c j d h = cc
super_of-Has (a, coerce e) rules c j d h = elim (Bool-cases (e == c)) [
  | inl equal ↦
      let listed : get_elem? (a ∷ []) j ≡ some d =
        ap (λ b. get_elem? (if b then a ∷ [] else []) j) (sym equal) ∙ h in
      (0, cc (single a d j listed, ==-IsLawful.sound e c equal))
  | inr other ↦
      let empty : get_elem? {A = CCatId} [] j ≡ some d =
        ap (λ b. get_elem? (if b then a ∷ [] else []) j) (sym other) ∙ h in
      cc (empty)
]

pub supers_in-Has :
    (rules : Rules) (c : CCatId) (j : ℕ) (d : CCatId)
    → get_elem? (supers_in rules c) j ≡ some d
    → Has rules (d, coerce c)
unfolding supers_in
supers_in-Has [] c j d h = cc
supers_in-Has (r ∷ rules) c j d h = elim (elem_of-append (super_of r c) (supers_in rules c) j d h) [
  | inl (k, e) ↦ super_of-Has r rules c k d e
  | inr (k, e) ↦ let (i, p) = supers_in-Has rules c k d e in (suc i, p)
]
