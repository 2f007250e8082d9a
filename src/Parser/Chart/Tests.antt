-- ===== src/Parser/Chart/Tests.antt =====
-- A parse with a grammar of two categories.
use libpgf.Prelude.{
  ℕ, ◌+◌, true, Option, some, none, List, [], ◌∷◌, get_elem?, Run, ok, ◌>>=◌, ◌≡◌, refl,
}
use libpgf.Expr.{Expr, app, fun}
use libpgf.Grammar.{Token, cat, ks, CncFun, apply, seq, CncCat, CCatStore}
use libpgf.Choice.{choice_mark, choice_next, choice_reset, choice_advance}
use libpgf.Parser.Trees.{cat_to_expr}
use libpgf.Parser.Results.{parse_result, result_next}
use libpgf.Parser.Chart.{Item, ItemSet, Heap, Parse}
use libpgf.Parser.Chart.Scan.{parse_token, parser_parse, new_heap, new_parse}
use libpgf.Parser.Chart.Frame.{Frame, parse_token-Frame}

-- The order of insertion.
abbrev enum_next : ItemSet → ℕ → Option (Option Item × ℕ)
enum_next set i = elim (get_elem? set i) [ none ↦ none | some item ↦ some (item, i + 1) ]

abbrev john : Token
john = b'j' ∷ []

abbrev sleeps : Token
sleeps = b's' ∷ []

-- S is category 0, and NP category 1.
abbrev sentence : CncCat
sentence = record { cid = b'S' ∷ []; cats = some 0 ∷ []; lindefs = []; n_ctnts = 1; ctnts = [] }

abbrev noun : CncCat
noun = record { cid = b'N' ∷ []; cats = some 1 ∷ []; lindefs = []; n_ctnts = 1; ctnts = [] }

abbrev pred : CncFun
pred = record { fun = b'p' ∷ []; lins = (cat 0 0 ∷ ks (sleeps ∷ []) ∷ []) ∷ []; fid = 0 }

abbrev name : CncFun
name = record { fun = john; lins = (ks (john ∷ []) ∷ []) ∷ []; fid = 1 }

abbrev store : CCatStore
store =
    record {
      cnccat = some sentence;
      fid = 0;
      prods = seq (apply pred (record { hypos = []; ccat = 1 } ∷ []) ∷ []);
    }
    ∷ record { cnccat = some noun; fid = 1; prods = seq (apply name [] ∷ []) }
    ∷ []

abbrev cnccats : List (List ℕ × CncCat)
cnccats = (b'S' ∷ [], sentence) ∷ []

abbrev start : Run (Parse × Heap)
start = parser_parse enum_next 20 (new_heap store) cnccats true (b'S' ∷ []) 0

-- What a run gives, or nothing.
abbrev got {ℓ} : {A : Type ℓ} → A → Run A → A
got d (ok a) = a
got d _ = d

abbrev nothing : Parse × Heap
nothing = (new_parse, new_heap [])

abbrev null_parse : Option Parse × Heap
null_parse = (none, new_heap [])

abbrev started : Parse × Heap
started = got nothing start

abbrev after_john : Option Parse × Heap
after_john = got null_parse (parse_token enum_next 20 started.1 started.0 john)

parse_token-Frame_example : Frame started.1.store after_john.1.store
unfolding parser_parse parse_token
parse_token-Frame_example =
    parse_token-Frame enum_next 20 started.1 after_john.1 started.0 john after_john.0 refl

abbrev after_sleeps : Option Parse × Heap
after_sleeps = elim (after_john.0) [
  | none ↦ null_parse
  | some parse ↦ got null_parse (parse_token enum_next 20 after_john.1 parse sleeps)
]

abbrev first_tree : Run (Option Expr)
first_tree = elim (after_sleeps.0) [
  | none ↦ ok none
  | some parse ↦ result_next 5 after_sleeps.1.store (parse_result parse.completed) >>= λ t. ok t.0
]

-- "john sleeps" has the tree `pred john`.
john_sleeps : first_tree ≡ ok (some (app (fun (b'p' ∷ [])) (fun john)))
unfolding parser_parse parse_token result_next choice_mark choice_next choice_reset choice_advance
    cat_to_expr
john_sleeps = refl
