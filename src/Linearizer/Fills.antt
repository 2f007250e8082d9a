-- ===== src/Linearizer/Fills.antt =====
-- The arguments that pgf_lzn_infer_apply_try has filled, and the trees it has for them.
use libpgf.Prelude.{
  ℕ, zero, suc, ◌+◌, ◌≡◌, refl, sym, ◌∙◌, ap, arith, Bool, true, Option, none, some, Option-cases,
  List, [], ◌∷◌, length, drop, get_elem?, inl, inr, ◌==◌, Run, ok, fault, Gives, bind-Gives,
  bind_returned-Gives, mono-Gives, drop-drop,
}
use libpgf.Choice.{Choice, choice_mark, choice_next}
use libpgf.Expr.{Expr}
use libpgf.Grammar.{CCatId}
use libpgf.Parser.Trees.{deref}
use libpgf.Parser.Chart.State.{map_get}
use libpgf.Linearizer.{Lzr, CncTree, CncTrees, tree, no_trees}
use libpgf.Linearizer.Index.{found}
use libpgf.Linearizer.Rules.{Rules, Indexes, supers_in}
use libpgf.Linearizer.Infer.{
  LiteralCats, Inferred, Filled, Filling, pick_supercat, cats_onto, trees_onto, fill_args, fill_arg,
  climb, climb_at,
}
use libpgf.Linearizer.Derivation.{Super, same, up, Derives, DerivesAll, nil, cons, supers_in-Has}
use mathlib.Core.Path.{subst}

pub deref_returned :
    {A : Type 0} (xs : List A) (i : ℕ) (a : A) → deref xs i ≡ ok a → get_elem? xs i ≡ some a
deref_returned xs i a h = elim (Option-cases (get_elem? xs i)) [
  | inl e ↦
      let bad : fault ≡ ok a = ap (λ o. elim o [ none ↦ fault | some x ↦ ok x ]) (sym e) ∙ h in cc
  | inr (b, e) ↦
      let good : ok b ≡ ok a = ap (λ o. elim o [ none ↦ fault | some x ↦ ok x ]) (sym e) ∙ h in cc
]

-- A list put in front of another, its last element first.
onto : List Expr → List Expr → List Expr
onto [] rest = rest
onto (e ∷ done) rest = onto done (e ∷ rest)

drop-onto : (done rest : List Expr) → drop (length done) (onto done rest) ≡ rest
unfolding onto
drop-onto [] rest = refl
drop-onto (e ∷ done) rest =
    ap (λ n. drop n (onto done (e ∷ rest))) {x = suc (length done)} (omega arith)
    ∙ sym (drop-drop (length done) 1 (onto done (e ∷ rest)))
    ∙ ap (drop 1) (drop-onto done (e ∷ rest))

-- In a section over a linearizer that has indexed a grammar.
module _ (rules : Rules) (lits : LiteralCats) (lzr : Lzr) (idx : Indexes rules lzr) where
  -- An expression with the outcome of its inference.
  abbrev pub IsTreeOf : Expr → Option (CCatId × CncTree) → Type 0
  IsTreeOf e none = Unit {0}
  IsTreeOf e (some (c, t)) = Derives rules lits e c t

  climb_at-Super :
      (go : CCatId → Choice → Run (CCatId × Choice)) (c : CCatId) (supers : List CCatId)
      (o : Option ℕ) (ch : Choice)
      → ((d : CCatId) (ch' : Choice) → Gives (λ r. Super rules d r.0) (go d ch'))
      → supers ≡ supers_in rules c
      → Gives (λ r. Super rules c r.0) (climb_at go c supers o ch)
  unfolding climb_at
  climb_at-Super go c supers none ch h e = tt
  climb_at-Super go c supers (some zero) ch h e = same c
  climb_at-Super go c supers (some (suc j)) ch h e =
      bind_returned-Gives (λ r. Super rules c r.0) (deref supers j) (λ d. go d ch)
        λ d found_d.
          let has =
            supers_in-Has rules c j d
              (ap (λ l. get_elem? l j) (sym e) ∙ deref_returned supers j d found_d) in
          mono-Gives (λ r. Super rules d r.0) (λ r. Super rules c r.0) (go d ch) (λ r. up has)
            (h d ch)

  climb-Super :
      (go : CCatId → Choice → Run (CCatId × Choice)) (c : CCatId) (o : Option (List CCatId))
      (ch : Choice)
      → ((d : CCatId) (ch' : Choice) → Gives (λ r. Super rules d r.0) (go d ch'))
      → found o ≡ supers_in rules c
      → Gives (λ r. Super rules c r.0) (climb go c o ch)
  unfolding climb
  climb-Super go c none ch h e = same c
  climb-Super go c (some supers) ch h e =
      bind_returned-Gives (λ r. Super rules c r.0) (choice_next ch (length supers + 1)) _
        λ r _. climb_at-Super go c supers r.0 r.1 h e

  pick_supercat-Super :
      (fuel : ℕ) (c : CCatId) (ch : Choice)
      → Gives (λ r. Super rules c r.0) (pick_supercat fuel lzr c ch)
  unfolding pick_supercat
  pick_supercat-Super zero c ch = tt
  pick_supercat-Super (suc fuel) c ch =
      climb-Super (pick_supercat fuel lzr) c (map_get ◌==◌ lzr.coerce_idx c) ch
        (pick_supercat-Super fuel) (idx.supers c)

  abbrev pub IsArg : Expr → Filled → Type 0
  IsArg e f = (c : CCatId) × Derives rules lits e c f.tree × Super rules c f.cat

  -- The arguments that are filled, both lists from the last.
  abbrev pub Fills : List Expr → List Filled → Type 0
  Fills [] [] = Unit {0}
  Fills [] (f ∷ fs) = ⊥
  Fills (e ∷ es) [] = ⊥
  Fills (e ∷ es) (f ∷ fs) = IsArg e f × Fills es fs

  pub record PartOf (args : List Expr) (filled : List Filled) (rest : List Expr) : Type 0 where
    done : List Expr
    fills : Fills done filled
    order : onto done rest ≡ args

  Fills-length : (es : List Expr) (fs : List Filled) → Fills es fs → length es ≡ length fs
  Fills-length [] [] h = refl
  Fills-length [] (f ∷ fs) h = elim h [ ]
  Fills-length (e ∷ es) [] h = elim h [ ]
  Fills-length (e ∷ es) (f ∷ fs) h = ap suc (Fills-length es fs h.1)

  pub PartOf-drop :
      (args : List Expr) (filled : List Filled) (rest : List Expr)
      → PartOf args filled rest
      → drop (length filled) args ≡ rest
  PartOf-drop args filled rest h =
      ap (λ n. drop n args) (sym (Fills-length h.done filled h.fills))
      ∙ ap (drop (length h.done)) (sym h.order)
      ∙ drop-onto h.done rest

  -- The arguments are all derived once all are filled.
  Fills-DerivesAll :
      (done : List Expr) (filled : List Filled) (rest : List Expr) (cs : List CCatId)
      (ts : CncTrees)
      → Fills done filled
      → DerivesAll rules lits rest cs ts
      → DerivesAll rules lits (onto done rest) (cats_onto filled cs) (trees_onto filled ts)
  unfolding onto cats_onto trees_onto
  Fills-DerivesAll [] [] rest cs ts h d = d
  Fills-DerivesAll [] (f ∷ fs) rest cs ts h d = elim h [ ]
  Fills-DerivesAll (e ∷ es) [] rest cs ts h d = elim h [ ]
  Fills-DerivesAll (e ∷ es) (f ∷ fs) rest cs ts h d =
      let (c, derived, climbed) = h.0 in
      Fills-DerivesAll es fs (e ∷ rest) (f.cat ∷ cs) (tree f.tree ts) h.1 (cons derived climbed d)

  pub PartOf-DerivesAll :
      (args : List Expr) (filled : List Filled) (rest : List Expr)
      → PartOf args filled rest
      → rest ≡ []
      → DerivesAll rules lits args (cats_onto filled []) (trees_onto filled no_trees)
  PartOf-DerivesAll args filled rest part full =
      subst (λ l. DerivesAll rules lits l (cats_onto filled []) (trees_onto filled no_trees))
        (ap (onto part.done) (sym full) ∙ part.order)
        (Fills-DerivesAll part.done filled [] [] no_trees part.fills nil)

  pub no_args-PartOf : (args : List Expr) → PartOf args [] args
  no_args-PartOf args = record { done = []; fills = tt; order = unfold onto in refl }

  -- In a section over the calls for arguments.
  module _ (go : Expr → Choice → Run Inferred)
      (call : (e : Expr) (ch : Choice) → Gives (λ r. IsTreeOf e r.0) (go e ch)) (depth : ℕ)
      (args : List Expr) where
    abbrev pub FilledUp : (Bool × Filling) × Choice → Type 0
    FilledUp r = (rest : List Expr) × PartOf args r.0.1.filled rest × (r.0.0 ≡ true → rest ≡ [])

    fill_arg-FilledUp :
        (others : Filling → Choice → Run ((Bool × Filling) × Choice)) (st : Filling) (e : Expr)
        (todo : List Expr) (o : Option (CCatId × CncTree)) (ch : Choice)
        → PartOf args st.filled (e ∷ todo)
        → IsTreeOf e o
        → ((st' : Filling) (ch' : Choice)
            → PartOf args st'.filled todo
            → Gives FilledUp (others st' ch'))
        → Gives FilledUp (fill_arg depth lzr others st o ch)
    unfolding fill_arg
    fill_arg-FilledUp others st e todo none ch h t k = (e ∷ todo, h, λ no. cc)
    fill_arg-FilledUp others st e todo (some (c, t)) ch h d k =
        bind-Gives (λ s. Super rules c s.0) FilledUp (pick_supercat depth lzr c ch) _
          (pick_supercat-Super depth c ch)
          λ s climbed. bind_returned-Gives FilledUp (choice_mark s.1) _ λ mark _.
            let f : Filled = record { mark = st.mark; cat = s.0; tree = t } in
            k (record { mark = mark; filled = f ∷ st.filled }) s.1
              (record {
                done = e ∷ h.done;
                fills = ((c, d, climbed), h.fills);
                order = unfold onto in h.order;
              })

    pub fill_args-FilledUp :
        (todo : List Expr) (st : Filling) (ch : Choice)
        → PartOf args st.filled todo
        → Gives FilledUp (fill_args depth lzr go todo st ch)
    unfolding fill_args
    fill_args-FilledUp [] st ch h = ([], h, λ _. refl)
    fill_args-FilledUp (e ∷ todo) st ch h =
        bind-Gives (λ r. IsTreeOf e r.0) FilledUp (go e ch) _ (call e ch)
          λ r t.
            fill_arg-FilledUp (fill_args depth lzr go todo) st e todo r.0 r.1 h t
              (fill_args-FilledUp todo)

  -- One argument fewer is filled.
  pub PartOf-back :
      (args : List Expr) (g : Filled) (filled : List Filled) (rest : List Expr)
      → PartOf args (g ∷ filled) rest
      → (rest' : List Expr) × PartOf args filled rest'
  PartOf-back args g filled rest h = back h.done h.fills h.order
    where
      back :
          (done : List Expr)
          → Fills done (g ∷ filled)
          → onto done rest ≡ args
          → (rest' : List Expr) × PartOf args filled rest'
      back [] fills order = elim fills [ ]
      back (x ∷ done) fills order =
          (x ∷ rest, record { done = done; fills = fills.1; order = unfold onto in order })
