-- ===== src/Linearizer.antt =====
-- Linearization: pgf/linearize.c. The indices of a linearizer, the concrete trees that stand for an
-- expression, and what a presenter is told of such a tree.
pub mod Index
pub mod Keys
pub mod Rules
pub mod Indexed
pub mod Infer
pub mod Enumerate
pub mod Derivation
pub mod Fills
pub mod Sound
pub mod Values
pub mod Outcomes
pub mod Climb
pub mod Levels
pub mod Entries
pub mod Forward
pub mod Tries
pub mod Loop
pub mod Found
pub mod Next
pub mod Ends
pub mod Every
pub mod Exactly
pub mod Linearized
pub mod Written
pub mod Typed
pub mod Enumerated
mod Tests
pub mod Presenter
use libpgf.Prelude.{ℕ, List}
use libpgf.Expr.{CId, Literal}
use libpgf.Grammar.{CCatId, CncFun}

-- A production read backwards: the category that a function gives to arguments.
pub record LinInferEntry : Type 0 where
  pub cat : CCatId
  pub fun : CncFun

-- The keys are the categories of the arguments.
abbrev pub InferMap : Type 0
InferMap = List (List CCatId × List LinInferEntry)

-- `PgfLzr` without its grammar: maps as lists of their entries.
pub record Lzr : Type 0 where
  pub fun_indices : List (CId × InferMap)
  pub coerce_idx : List (CCatId × List CCatId)

mutual
  pub data CncTree : Type 0 where
    app : CncFun → CncTrees → CncTree
    lit : Literal → CncTree

  pub data CncTrees : Type 0 where
    no_trees : CncTrees
    tree : CncTree → CncTrees → CncTrees
