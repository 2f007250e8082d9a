-- ===== src/Linearizer/Tests.antt =====
-- A grammar of two functions, where the category of a noun is coerced to that of the argument.
use libpgf.Prelude.{
  ℕ, ◌↔◌, ◌-◌, ◌<◌, ◌≡◌, refl, sym, ◌∙◌, true, some, none, List, [], ◌∷◌, ◌++◌, ok, get_or, arith,
  Bool, abort, ltb, if◌then◌else◌,
}
use libpgf.Choice.{new_choice, choice_mark, choice_next, choice_reset, choice_advance}
use libpgf.Expr.{Expr}
use libpgf.Grammar.{CCatId, cat, ks, CncFun, apply, coerce, null, seq, CncCat, CCatStore}
use libpgf.Linearizer.{Lzr, CncTree, app, no_trees, tree}
use libpgf.Linearizer.Index.{new_lzr}
use libpgf.Linearizer.Rules.{Rules, Indexes, rules_of, listed}
use libpgf.Linearizer.Indexed.{new_lzr-Indexes}
use libpgf.Linearizer.Infer.{LiteralCats, infer}
use libpgf.Linearizer.Enumerate.{concretize, lzn_next}
use libpgf.Linearizer.Presenter.{Writer, linearize_simple, linearize, simple_prtr, n_ctnts}
use libpgf.Linearizer.Linearized.{told, linearize-told}
use libpgf.Linearizer.Written.{IsWriter, spaced_events, linearize_simple-spaced}
use libpgf.Linearizer.Typed.{IsGrammar}
use libpgf.Linearizer.Derivation.{Derives}
use libpgf.Linearizer.Values.{IsTree, value}
use libpgf.Linearizer.Enumerated.{lzn_next-IsTree}
use libpgf.Linearizer.Outcomes.{infer_tree, IsSearchable, height, AreEnough}
use libpgf.Linearizer.Next.{Proceeds, lzn_next-Proceeds, concretize-IsPending, lzn_next-restarts}
use libpgf.Choice.Tree.{leaves, rest}
use libpgf.Parser.Chart.{token_eq}
use libpgf.Parser.Chart.State.{map_get}
use libpgf.Linearizer.Index.{ccat_ids_eq}
use libpgf.Expr.Unapply.{unapply}
use libpgf.Linearizer.Exactly.{called, concretize-Derives}
use mathlib.Core.Path.{subst}

abbrev sentence : CncCat
sentence = record { cid = b'S' ∷ []; cats = some 0 ∷ []; lindefs = []; n_ctnts = 1; ctnts = [] }

abbrev noun : CncCat
noun = record { cid = b'N' ∷ []; cats = none ∷ some 1 ∷ []; lindefs = []; n_ctnts = 1; ctnts = [] }

abbrev pred : CncFun
pred = record { fun = b'p' ∷ []; lins = (cat 0 0 ∷ ks ((b's' ∷ []) ∷ []) ∷ []) ∷ []; fid = 0 }

abbrev name : CncFun
name = record { fun = b'j' ∷ []; lins = (ks ((b'J' ∷ b'o' ∷ []) ∷ []) ∷ []) ∷ []; fid = 1 }

abbrev store : CCatStore
store =
    record {
      cnccat = some sentence;
      fid = 0;
      prods = seq (apply pred (record { hypos = []; ccat = 2 } ∷ []) ∷ []);
    }
    ∷ record { cnccat = some noun; fid = 1; prods = seq (apply name [] ∷ []) }
    ∷ record { cnccat = none; fid = 2; prods = seq (coerce 1 ∷ []) }
    ∷ record { cnccat = none; fid = 0; prods = null }
    ∷ []

abbrev lits : LiteralCats
lits = record { ccat_string = 3; ccat_int = 3; ccat_float = 3 }

abbrev cnccats : List CncCat
cnccats = sentence ∷ noun ∷ []

abbrev rules : Rules
rules =
    (0, apply pred (record { hypos = []; ccat = 2 } ∷ [])) ∷ (1, apply name []) ∷ (2, coerce 1) ∷ []

abbrev lzr : Lzr
lzr = record {
  fun_indices =
      (b'p' ∷ [], ((2 ∷ []), record { cat = 0; fun = pred } ∷ []) ∷ [])
      ∷ (b'j' ∷ [], ([], record { cat = 1; fun = name } ∷ []) ∷ [])
      ∷ [];
  coerce_idx = (1, 2 ∷ []) ∷ [];
}

indexed : new_lzr store cnccats (2 ∷ []) ≡ ok lzr
unfolding new_lzr
indexed = refl

abbrev john_sleeps : Expr
john_sleeps = Expr.app (Expr.fun (b'p' ∷ [])) (Expr.fun (b'j' ∷ []))

abbrev its_tree : CncTree
its_tree = app pred (tree (app name no_trees) no_trees)

-- The argument is first tried as a noun, for which there is no entry.
only_tree :
    lzn_next (infer 5 5 5 lzr lits) 5 (concretize john_sleeps)
    ≡ ok (some its_tree, record { ch = record { path = []; path_idx = 0 }; expr = none })
unfolding lzn_next infer choice_mark choice_next choice_reset choice_advance
only_tree = refl

-- A text that grows.
abbrev text_writer : Writer (List ℕ)
text_writer = record { write = λ bytes w. w ++ bytes; is_ok = λ w. true }

its_text : linearize_simple text_writer its_tree 0 [] ≡ ok (b'J' ∷ b'o' ∷ b' ' ∷ b's' ∷ b' ' ∷ [])
unfolding linearize_simple
its_text = refl

new_lzr-Indexes_example :
    (l : Lzr) × (new_lzr store cnccats (2 ∷ []) ≡ ok l)
    × Indexes (rules_of store (listed cnccats ++ 2 ∷ [])) l
unfolding listed
new_lzr-Indexes_example = new_lzr-Indexes store cnccats (2 ∷ []) (omega arith)

lzr-Indexes : Indexes rules lzr
unfolding new_lzr rules_of listed
lzr-Indexes =
    let (l, e, h) = new_lzr-Indexes store cnccats (2 ∷ []) (omega arith) in
    let same : ok l ≡ ok lzr = sym e ∙ indexed in subst (Indexes rules) (cc) h

-- All categories have one constituent.
abbrev one : CCatId → ℕ
one c = 1

grammar : IsGrammar rules lits one
grammar = record {
  each = ((refl, (((1, refl, omega arith), (tt, tt)), tt)), ((refl, ((tt, tt), tt)), (refl, tt)));
  literals = λ l. refl;
}

lzn_next-IsTree_example :
    ((c : CCatId) × Derives rules lits john_sleeps c its_tree) × IsTree its_tree
lzn_next-IsTree_example =
    lzn_next-IsTree rules lits lzr lzr-Indexes one grammar 5 5 5 5 john_sleeps new_choice its_tree _
      only_tree

its_tree-IsTree : IsTree its_tree
its_tree-IsTree =
    (lzn_next-IsTree rules lits lzr lzr-Indexes one grammar 5 5 5 5 john_sleeps new_choice its_tree
      _ only_tree).1

linearize-told_example : linearize (simple_prtr text_writer) its_tree 0 [] ≡ (
    if ltb 0 (n_ctnts its_tree)
    then ok (told (simple_prtr text_writer) (get_or (value its_tree) 0 []) [])
    else abort)
linearize-told_example = linearize-told (simple_prtr text_writer) its_tree 0 [] its_tree-IsTree

text_writer-IsWriter : IsWriter text_writer (λ w. w)
text_writer-IsWriter = record { stays_ok = λ bytes w h. refl; appends = λ bytes w h. refl }

linearize_simple-spaced_example :
    (w : List ℕ) × (linearize_simple text_writer its_tree 0 [] ≡ ok w)
    × ◌≡◌ {A = Bool} true true
    × (w ≡ [] ++ spaced_events (get_or (value its_tree) 0 []))
linearize_simple-spaced_example =
    linearize_simple-spaced text_writer (λ w. w) text_writer-IsWriter its_tree 0 [] its_tree-IsTree
      (unfold n_ctnts in omega arith) refl

-- Higher categories have lower ranks.
abbrev rank : CCatId → ℕ
rank c = 4 - c

searchable : IsSearchable 5 rank lzr
searchable = record { entries = omega arith; supers = omega arith; ranks = λ c. omega arith }

enough : AreEnough 5 5 lzr lits 3 john_sleeps
unfolding AreEnough unapply leaves map_get token_eq ccat_ids_eq
enough = (omega arith, ((omega arith, tt), tt))

deep : height john_sleeps < 3
unfolding height
deep = omega arith

lzn_next-Proceeds_example :
    Proceeds
      (infer_tree 3 5 lzr lits john_sleeps)
      john_sleeps
      (leaves (infer_tree 3 5 lzr lits john_sleeps))
      (concretize john_sleeps)
      (lzn_next (infer 3 5 5 lzr lits) 1 (concretize john_sleeps))
lzn_next-Proceeds_example =
    lzn_next-Proceeds 3 5 5 0 rank lzr lits john_sleeps searchable deep enough
      (leaves (infer_tree 3 5 lzr lits john_sleeps)) (concretize john_sleeps)
      (concretize-IsPending 3 5 5 0 rank lzr lits john_sleeps searchable deep enough)

-- An application to a function that is not known.
abbrev unknown : Expr
unknown = Expr.app (Expr.fun (b'p' ∷ [])) (Expr.fun (b'x' ∷ []))

enough_unknown : AreEnough 5 5 lzr lits 3 unknown
unfolding AreEnough unapply leaves map_get token_eq ccat_ids_eq
enough_unknown = (omega arith, ((omega arith, tt), tt))

deep_unknown : height unknown < 3
unfolding height
deep_unknown = omega arith

no_tree_of : rest (infer_tree 3 5 lzr lits unknown) [] ≡ none ∷ []
unfolding infer_tree unapply rest map_get token_eq ccat_ids_eq
no_tree_of = refl

lzn_next-restarts_example :
    lzn_next (infer 3 5 5 lzr lits) 1 (concretize unknown) ≡ ok (none, concretize unknown)
lzn_next-restarts_example =
    lzn_next-restarts 3 5 5 0 rank lzr lits unknown searchable deep_unknown enough_unknown 1 [] tt
      no_tree_of

concretize-Derives_example :
    ((k : ℕ) × (called rules lits lzr lzr-Indexes 3 5 5 0 rank john_sleeps searchable deep enough k
          (concretize john_sleeps)
        ≡ ok (some its_tree)))
    ↔ ((c : CCatId) × Derives rules lits john_sleeps c its_tree)
concretize-Derives_example =
    concretize-Derives rules lits lzr lzr-Indexes 3 5 5 0 rank john_sleeps searchable deep enough
      its_tree
