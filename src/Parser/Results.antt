-- ===== src/Parser/Results.antt =====
-- The enumeration of the trees of a parse: PgfParseResult and pgf_parse_result_next of
-- pgf/parser.c, over the choices of gu/choice.c.
pub mod Order
use libpgf.Prelude.{
  ℕ, zero, suc, Bool, true, false, Option, none, some, List, [], ◌∷◌, length, if◌then◌else◌, Run,
  ok, fault, stuck, ◌>>=◌,
}
use libpgf.Choice.{Choice, new_choice, choice_mark, choice_reset, choice_next, choice_advance}
use libpgf.Choice.Monad
use libpgf.Choice.Monad.{Choosing, lift}
use libpgf.Expr.{Expr}
use libpgf.Grammar.{CCatId, CCatStore}
use libpgf.Parser.Trees.{cat_to_expr, deref}

-- `choice` is null, `none` here, once `advance` has found no other alternative.
pub record ParseResult : Type 0 where
  pub completed : List CCatId
  pub choice : Option Choice

-- pgf_parse_result
abbrev pub parse_result : List CCatId → ParseResult
parse_result completed = record { completed = completed; choice = some new_choice }

-- The tree of the i-th completed category, from an empty set of categories met.
unfoldable pub one_result : CCatStore → List CCatId → ℕ → Choosing (Expr × List CCatId)
one_result store completed i =
    Monad.◌>>=◌ (lift (deref completed i)) (λ cat. cat_to_expr (suc (length store)) store cat [])

-- `while (gu_variant_is_null(ret))`. The loop takes a mark of `pr->choice` in each round, also when
-- that is null.
unfoldable pub result_loop : ℕ → CCatStore → ParseResult → Run (Option Expr × ParseResult)
unfolding one_result
result_loop zero store pr = stuck
result_loop (suc fuel) store pr = elim (pr.choice) [
  | none ↦ fault
  | some ch ↦ choice_mark ch >>= λ mark. choice_next ch (length pr.completed) >>= λ r. elim (r.0) [
    | none ↦ ok (none, record pr { choice = some r.1 })
    | some i ↦ one_result store pr.completed i r.1 >>= λ ret. choice_reset ret.1 mark >>= λ back.
        choice_advance back >>= λ a.
        let pr' : ParseResult = record pr { choice = if a.0 then some a.1 else none } in
        elim (ret.0) [ none ↦ result_loop fuel store pr' | some e ↦ ok (some e.0, pr') ]
  ]
]

unfoldable pub result_next : ℕ → CCatStore → ParseResult → Run (Option Expr × ParseResult)
unfolding result_loop
result_next fuel store pr = elim (pr.choice) [
  | none ↦ ok (none, pr)
  | some ch ↦ result_loop fuel store pr
]

-- pgf_parse_result_enum_next: whether there is a tree, and what is stored at `to`.
unfoldable pub result_enum_next :
    ℕ → CCatStore → Option Expr → ParseResult → Run ((Bool × Option Expr) × ParseResult)
unfolding result_next
result_enum_next fuel store to pr = result_next fuel store pr >>= λ r. elim (r.0) [
  | none ↦ ok ((false, to), r.1)
  | some e ↦ ok ((true, some e), r.1)
]
