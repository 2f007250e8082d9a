-- ===== src/Parser/Tests.antt =====
-- Small stores of categories, and the theorems on them.
use libpgf.Prelude.{ℕ, ◌≡◌, refl, arith, none, some, List, [], ◌∷◌, length, ok, fault}
use libpgf.Choice.{new_choice}
use libpgf.Choice.Tree.{leaves, Fits, complete}
use libpgf.Choice.Runs.{started, ended}
use libpgf.Choice.Monad.{Realizes}
use libpgf.Expr.{fun}
use libpgf.Grammar.{CncFun, apply, coerce, null, seq, buf, CCatStore}
use libpgf.Parser.Trees.{seen_has, production_to_expr, cat_to_expr}
use libpgf.Parser.Trees.Spec.{expr_tree, IsStore, unseen, unseen-le}
use libpgf.Parser.Trees.Realize.{Leaves, cat_to_expr-Realizes}
use libpgf.Parser.Trees.Repeats.{production_to_expr-repeated}
use libpgf.Parser.Results.{ParseResult, parse_result, result_next}
use libpgf.Parser.Results.Order.{
  IsParse, Remaining, result_tree, result_next-first, result_next-fault, parse_result-Remaining,
}

abbrev constant : ℕ → CncFun
constant c = record { fun = c ∷ []; lins = []; fid = 0 }

-- One category with two productions, `f` and `g`, one that is its own coercion, one that is not
-- synthetic, and one that was interned only.
abbrev store : CCatStore
store =
    record {
      cnccat = none;
      prods = buf (apply (constant b'f') [] ∷ apply (constant b'g') [] ∷ []);
      fid = 0;
    }
    ∷ record { cnccat = none; prods = buf (coerce 1 ∷ []); fid = 1 }
    ∷ record { cnccat = none; prods = seq []; fid = 2 }
    ∷ record { cnccat = none; prods = null; fid = 3 }
    ∷ []

store_IsStore : IsStore store
store_IsStore =
    ((omega arith, (tt, (tt, tt))), ((omega arith, ((omega arith, refl), tt)), (tt, (tt, tt))))

abbrev parse_of : ℕ → List ℕ
parse_of c = c ∷ []

two_trees : IsParse store (parse_of 0)
two_trees = record {
  stored = store_IsStore;
  inside = ((omega arith, refl), tt);
  nonempty = omega arith;
  few = omega arith;
}

no_tree : IsParse store (parse_of 1)
no_tree = record {
  stored = store_IsStore;
  inside = ((omega arith, refl), tt);
  nonempty = omega arith;
  few = omega arith;
}

cat_to_expr-Realizes_example :
    Realizes (Leaves 4 (unseen 4 [])) (expr_tree 5 store 0 []) (cat_to_expr 5 store 0 [])
    × ((before p : List ℕ)
        → Fits (expr_tree 5 store 0 []) p
        → cat_to_expr 5 store 0 [] (started before p)
          ≡ ok (
            (complete (expr_tree 5 store 0 []) p).0,
            ended before (complete (expr_tree 5 store 0 []) p).1,
          ))
cat_to_expr-Realizes_example =
    cat_to_expr-Realizes 5 store 0 [] store_IsStore (omega arith, refl)
      (omega (arith, unseen-le (length store) []))

two_leaves :
    leaves (result_tree store (parse_of 0))
    ≡ some (fun (b'f' ∷ []), 0 ∷ []) ∷ some (fun (b'g' ∷ []), 0 ∷ []) ∷ []
unfolding leaves result_tree expr_tree seen_has
two_leaves = refl

two_to_come :
    Remaining two_trees
      (parse_result (parse_of 0))
      (some (fun (b'f' ∷ []), 0 ∷ []) ∷ some (fun (b'g' ∷ []), 0 ∷ []) ∷ [])
two_to_come = rw two_leaves at (parse_result-Remaining two_trees)

result_next-first_example :
    (pr : ParseResult) × (result_next 1 store (parse_result (parse_of 0))
      ≡ ok (some (fun (b'f' ∷ [])), pr))
    × Remaining two_trees pr (some (fun (b'g' ∷ []), 0 ∷ []) ∷ [])
result_next-first_example =
    result_next-first two_trees 0 1 (parse_result (parse_of 0)) (fun (b'f' ∷ []), 0 ∷ [])
      (some (fun (b'g' ∷ []), 0 ∷ []) ∷ []) two_to_come (omega arith)

-- The only category is its own coercion: there is no tree.
nothing_leaves : leaves (result_tree store (parse_of 1)) ≡ none ∷ []
unfolding leaves result_tree expr_tree seen_has
nothing_leaves = refl

nothing_to_come : Remaining no_tree (parse_result (parse_of 1)) (none ∷ [])
nothing_to_come = rw nothing_leaves at (parse_result-Remaining no_tree)

result_next-fault_example : result_next 2 store (parse_result (parse_of 1)) ≡ fault
result_next-fault_example =
    result_next-fault no_tree 0 2 (parse_result (parse_of 1)) nothing_to_come (omega arith)

parse_result-Remaining_example :
    Remaining two_trees (parse_result (parse_of 0)) (leaves (result_tree store (parse_of 0)))
parse_result-Remaining_example = parse_result-Remaining two_trees

production_to_expr-repeated_example :
    production_to_expr
      (cat_to_expr 4 store)
      (apply
        (constant b'h')
        (record { hypos = []; ccat = 2 } ∷ record { hypos = []; ccat = 2 } ∷ []))
      []
      new_choice
    ≡ ok (none, new_choice)
production_to_expr-repeated_example =
    production_to_expr-repeated 3 store (constant b'h') 2
      (record { cnccat = none; prods = seq []; fid = 2 }) [] [] [] new_choice refl refl
