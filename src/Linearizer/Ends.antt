-- ===== src/Linearizer/Ends.antt =====
-- The outcomes of a tree of choices, and those of a climb and of an entry.
use libpgf.Prelude.{
  ℕ, zero, suc, ◌<◌, ◌≡◌, refl, sym, arith, Option, none, some, List, [], ◌∷◌, ◌++◌, length,
  get_elem?, All-get_elem?, ◌==◌,
}
use libpgf.Choice.Tree.{Tree, leaf, node}
use libpgf.Choice.Monad.{bind}
use libpgf.Grammar.{CCatId, CncFun, PArg, apply, coerce}
use libpgf.Parser.Chart.State.{map_get}
use libpgf.Linearizer.{LinInferEntry, Lzr, CncTree, CncTrees, app}
use libpgf.Linearizer.Keys.{==-IsLawful, token_eq-IsLawful}
use libpgf.Linearizer.Index.{found, arg_cats}
use libpgf.Linearizer.Rules.{
  Rules, Indexes, entry_of, super_of, entries_in, supers_in, ccat_ids_eq-IsLawful,
}
use libpgf.Linearizer.Derivation.{Has, Super, same, up}
use libpgf.Linearizer.Outcomes.{
  Typed, at_index, super_node, super_tree, entry_leaf, entry_node, IsSearchable,
}
use libpgf.Linearizer.Climb.{AreSupers, lookup-AreSupers}
use mathlib.Core.Path.{subst}

-- An outcome of a tree.
abbrev pub HasEnd : {A : Type 0} → Tree A → A → Type 0
HasEnd (leaf none) a = ⊥
HasEnd (leaf (some b)) a = b ≡ a
HasEnd (node n f) a = (k : ℕ) × (k < n) × HasEnd (f k) a

pub bind-HasEnd :
    {A B : Type 0} (t : Tree A) (g : A → Tree B) (a : A) (b : B)
    → HasEnd t a
    → HasEnd (g a) b
    → HasEnd (bind t g) b
bind-HasEnd (leaf none) g a b h k = elim h [ ]
bind-HasEnd (leaf (some x)) g a b h k = subst (λ y. HasEnd (g y) b) (sym h) k
bind-HasEnd (node n f) g a b (i, lt, h) k = (i, lt, bind-HasEnd (f i) g a b h k)

-- An element that is at some index.
abbrev pub At : {A : Type 0} → List A → A → Type 0
At l a = (i : ℕ) × (get_elem? l i ≡ some a)

pub At-left : {A : Type 0} (xs ys : List A) (a : A) → At xs a → At (xs ++ ys) a
At-left [] ys a (i, e) = cc
At-left (x ∷ xs) ys a (zero, e) = (0, e)
At-left (x ∷ xs) ys a (suc i, e) = let (j, h) = At-left xs ys a (i, e) in (suc j, h)

pub At-right : {A : Type 0} (xs ys : List A) (a : A) → At ys a → At (xs ++ ys) a
At-right [] ys a h = h
At-right (x ∷ xs) ys a h = let (j, e) = At-right xs ys a h in (suc j, e)

pub Has-supers : (rules : Rules) (c d : CCatId) → Has rules (d, coerce c) → At (supers_in rules c) d
unfolding supers_in
Has-supers [] c d (i, e) = cc
Has-supers (r ∷ rules) c d (zero, e) =
    let equal : r ≡ (d, coerce c) = cc in
    At-left (super_of r c) (supers_in rules c) d
      (subst (λ x. At (super_of x c) d) (sym equal) (rw (==-IsLawful.reflexive c) (0, refl)))
Has-supers (r ∷ rules) c d (suc i, e) =
    At-right (super_of r c) (supers_in rules c) d (Has-supers rules c d (i, e))

pub Has-entries :
    (rules : Rules) (c : CCatId) (fun : CncFun) (args : List PArg)
    → Has rules (c, apply fun args)
    → At (entries_in rules fun.fun (arg_cats args)) (record { cat = c; fun = fun })
unfolding entries_in
Has-entries [] c fun args (i, e) = cc
Has-entries (r ∷ rules) c fun args (zero, e) =
    let equal : r ≡ (c, apply fun args) = cc in
    At-left (entry_of r fun.fun (arg_cats args)) (entries_in rules fun.fun (arg_cats args)) _ (
      subst (λ x. At (entry_of x fun.fun (arg_cats args)) (record { cat = c; fun = fun }))
        (sym equal)
        (rw (token_eq-IsLawful.reflexive fun.fun, ccat_ids_eq-IsLawful.reflexive (arg_cats args))
          (0, refl)))
Has-entries (r ∷ rules) c fun args (suc i, e) =
    At-right (entry_of r fun.fun (arg_cats args)) (entries_in rules fun.fun (arg_cats args)) _
      (Has-entries rules c fun args (i, e))

get-lt : {A : Type 0} (l : List A) (i : ℕ) (a : A) → get_elem? l i ≡ some a → i < length l
get-lt [] i a e = cc
get-lt (x ∷ l) zero a e = omega arith
get-lt (x ∷ l) (suc i) a e = omega (arith, get-lt l i a e)

pub entry_node-HasEnd :
    (trees : CncTrees) (o : Option (List LinInferEntry)) (entry : LinInferEntry)
    → At (found o) entry
    → HasEnd (entry_node trees o) (entry.cat, app entry.fun trees)
entry_node-HasEnd trees none entry (i, e) = cc
entry_node-HasEnd trees (some entries) entry (i, e) = (
  i,
  get-lt entries i entry e,
  subst (λ o. HasEnd (at_index (entry_leaf trees) o) (entry.cat, app entry.fun trees)) (sym e) refl,
)

super_node-HasEnd :
    (above : CCatId → Tree Typed) (t : CncTree) (c : CCatId) (o : Option (List CCatId))
    → HasEnd (super_node above (c, t) o) (c, t)
super_node-HasEnd above t c none = refl
super_node-HasEnd above t c (some supers) = (0, omega arith, refl)

super_node-above :
    (above : CCatId → Tree Typed) (t : CncTree) (c d top : CCatId) (o : Option (List CCatId))
    → At (found o) d
    → HasEnd (above d) (top, t)
    → HasEnd (super_node above (c, t) o) (top, t)
super_node-above above t c d top none (i, e) h = cc
super_node-above above t c d top (some supers) (i, e) h = (
  suc i,
  omega (arith, get-lt supers i d e),
  subst (λ o. HasEnd (at_index above o) (top, t)) (sym e) h,
)

-- In a section over a linearizer that has indexed a grammar and can be searched.
module _ (rules : Rules) (lzr : Lzr) (idx : Indexes rules lzr) (depth : ℕ) (rank : CCatId → ℕ)
    (searchable : IsSearchable depth rank lzr) where
  -- The category above has a lower rank.
  lower :
      (c d : CCatId) (o : Option (List CCatId))
      → AreSupers rank c o
      → At (found o) d
      → rank d < rank c
  lower c d none h (i, e) = cc
  lower c d (some supers) h (i, e) =
      let (d', e', lt) = All-get_elem? (λ k. rank k < rank c) supers i h.1 (get-lt supers i d e) in
      let equal : d' ≡ d = cc in subst (λ k. rank k < rank c) equal lt

  pub Super-HasEnd :
      {c top : CCatId}
      → Super rules c top
      → (fuel : ℕ) (t : CncTree) → rank c < fuel
      → HasEnd (super_tree fuel lzr t c) (top, t)
  unfolding super_tree
  Super-HasEnd (same c) zero t lt = absurd (omega arith)
  Super-HasEnd (same c) (suc fuel) t lt =
      super_node-HasEnd (super_tree fuel lzr t) t c (map_get ◌==◌ lzr.coerce_idx c)
  Super-HasEnd (up h s) zero t lt = absurd (omega arith)
  Super-HasEnd (up {c = c} {d = d} {top = top} h s) (suc fuel) t lt =
      let o = map_get ◌==◌ lzr.coerce_idx c in
      let here = subst (λ l. At l d) (sym (idx.supers c)) (Has-supers rules c d h) in
      let less = lower c d o (lookup-AreSupers depth rank lzr c o searchable refl) here in
      super_node-above (super_tree fuel lzr t) t c d top o here
        (Super-HasEnd s fuel t (omega arith))
