-- ===== src/Linearizer/Enumerate.antt =====
-- The enumeration of the concrete trees of an expression: pgf_lzr_concretize, pgf_lzn_next and
-- pgf_cnc_tree_enum_next of pgf/linearize.c, over any function that infers.
use libpgf.Prelude.{
  ℕ, zero, suc, Bool, true, false, Option, none, some, ◌==◌, if◌then◌else◌, Run, ok, abort, stuck,
  ◌>>=◌, require,
}
use libpgf.Choice.{Choice, new_choice, choice_mark, choice_reset, choice_advance}
use libpgf.Expr.{Expr}
use libpgf.Grammar.{CCatId}
use libpgf.Linearizer.{CncTree}
use libpgf.Linearizer.Infer.{Inferred}

-- `expr` is null, `none` here, when there are no more trees.
pub record Lzn : Type 0 where
  pub ch : Choice
  pub expr : Option Expr

abbrev pub concretize : Expr → Lzn
concretize e = record { ch = new_choice; expr = some e }

module _ (infer : Expr → Choice → Run Inferred) where
  -- `do { ... } while (!cat && gu_choice_advance(lzn->ch))`
  unfoldable pub first_cat : ℕ → Expr → ℕ → Choice → Run (Option CCatId × Choice)
  first_cat zero e mark ch = stuck
  first_cat (suc fuel) e mark ch = infer e ch >>= λ r. choice_reset r.1 mark >>= λ back.
      elim (r.0) [
        | some found ↦ ok (some found.0, back)
        | none ↦ choice_advance back >>= λ a. elim (a.0) [
          | true ↦ first_cat fuel e mark a.1
          | false ↦ ok (none, a.1)
        ]
      ]

  -- The second call, which stores the tree, is asserted to give the same category.
  unfoldable pub with_tree :
      Expr → ℕ → CCatId → Option (CCatId × CncTree) → Choice → Run (Option CncTree × Lzn)
  with_tree e mark c none ch = abort
  with_tree e mark c (some (cat2, ctree)) ch = require (c == cat2) >>= λ _.
      choice_reset ch mark >>= λ back. choice_advance back >>= λ a.
      ok (some ctree, record { ch = a.1; expr = if a.0 then some e else none })

  unfoldable pub second_tree : Expr → ℕ → Lzn → Option CCatId → Choice → Run (Option CncTree × Lzn)
  unfolding with_tree
  second_tree e mark lzn none ch = ok (none, record lzn { ch = ch })
  second_tree e mark lzn (some c) ch = infer e ch >>= λ r. with_tree e mark c r.0 r.1

  unfoldable pub next_of : ℕ → Lzn → Option Expr → Run (Option CncTree × Lzn)
  unfolding first_cat second_tree
  next_of fuel lzn none = ok (none, lzn)
  next_of fuel lzn (some e) = choice_mark lzn.ch >>= λ mark.
      first_cat fuel e mark lzn.ch >>= λ r. second_tree e mark lzn r.0 r.1

  unfoldable pub lzn_next : ℕ → Lzn → Run (Option CncTree × Lzn)
  unfolding next_of
  lzn_next fuel lzn = next_of fuel lzn lzn.expr

  -- Whether there is a tree, and what is stored at `to`.
  unfoldable pub cnc_tree_enum_next : ℕ → Option CncTree → Lzn → Run ((Bool × Option CncTree) × Lzn)
  unfolding lzn_next
  cnc_tree_enum_next fuel to lzn = lzn_next fuel lzn >>= λ r. elim (r.0) [
    | none ↦ ok ((false, to), r.1)
    | some t ↦ ok ((true, some t), r.1)
  ]
