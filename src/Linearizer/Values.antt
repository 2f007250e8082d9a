-- ===== src/Linearizer/Values.antt =====
-- The concrete trees as values, the way a grammar means them: a tree is the list of its
-- constituents, and a function makes them from those of its arguments.
use libpgf.Prelude.{ℕ, ◌≡◌, ◌<◌, some, List, [], ◌∷◌, ◌++◌, get_or, get_elem?, All, map}
use libpgf.Expr.{CId, Literal}
use libpgf.Grammar.{Token, Symbol, cat, lit, var, ks, kp, CncFun}
use libpgf.Linearizer.{CncTree, CncTrees, app, no_trees, tree}
use libpgf.Linearizer.Presenter.{n_trees, n_ctnts}

-- What a presenter can be told.
pub data Event : Type 0 where
  tokens : List Token → Event
  begin : CId → ℕ → Event
  constant : Literal → Event

abbrev pub Value : Type 0
Value = List (List Event)

-- A symbol of a sequence is a constituent of an argument, or stands for itself.
unfoldable pub symbol_value : List Value → Symbol → List Event
symbol_value args (cat d r) = get_or (get_or args d []) r []
symbol_value args (var d r) = get_or (get_or args d []) r []
symbol_value args (lit d r) = get_or (get_or args d []) r []
symbol_value args (ks toks) = tokens toks ∷ []
symbol_value args (kp toks alts) = tokens toks ∷ []

unfoldable pub sequence_value : List Value → List Symbol → List Event
unfolding symbol_value
sequence_value args [] = []
sequence_value args (sym ∷ syms) = symbol_value args sym ++ sequence_value args syms

unfoldable mutual
  unfolding sequence_value n_trees

  pub value : CncTree → Value
  value (CncTree.lit l) = (constant l ∷ []) ∷ []
  value (app fun args) =
      map (λ seq. begin fun.fun (n_trees args) ∷ sequence_value (values args) seq) fun.lins

  pub values : CncTrees → List Value
  values no_trees = []
  values (tree t ts) = value t ∷ values ts

-- The numbers of constituents of arguments, and symbols that name such as there are.
unfoldable pub sizes : CncTrees → List ℕ
unfolding n_ctnts
sizes no_trees = []
sizes (tree t ts) = n_ctnts t ∷ sizes ts

abbrev pub IsConstituent : List ℕ → ℕ → ℕ → Type 0
IsConstituent sizes d r = (n : ℕ) × (get_elem? sizes d ≡ some n) × (r < n)

abbrev pub IsSymbol : List ℕ → Symbol → Type 0
IsSymbol sizes (cat d r) = IsConstituent sizes d r
IsSymbol sizes (var d r) = IsConstituent sizes d r
IsSymbol sizes (lit d r) = IsConstituent sizes d r
IsSymbol sizes (ks toks) = Unit {0}
IsSymbol sizes (kp toks alts) = Unit {0}

-- A tree where every symbol that is met names a constituent of an argument.
mutual
  pub data IsTree : CncTree → Type 0 where
    literal : (l : Literal) → IsTree (CncTree.lit l)
    application :
        {fun : CncFun} {args : CncTrees}
        → All (All (IsSymbol (sizes args))) fun.lins
        → AreTrees args
        → IsTree (app fun args)

  pub data AreTrees : CncTrees → Type 0 where
    nil : AreTrees no_trees
    cons : {t : CncTree} {ts : CncTrees} → IsTree t → AreTrees ts → AreTrees (tree t ts)
