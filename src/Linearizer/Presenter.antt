-- ===== src/Linearizer/Presenter.antt =====
-- What a presenter is told of a concrete tree: pgf_cnc_tree_n_ctnts, pgf_lzr_linearize and
-- pgf_lzr_linearize_simple of pgf/linearize.c. A writer is what it does with bytes.
use libpgf.Prelude.{
  ℕ, zero, suc, Bool, Option, none, some, List, [], ◌∷◌, length, ltb, ◌==◌, if◌then◌else◌, Run, ok,
  fault, ◌>>=◌, require,
}
use libpgf.Expr.{CId, Literal}
use libpgf.Grammar.{Token, Symbol, cat, lit, var, ks, kp}
use libpgf.Parser.Trees.{deref}
use libpgf.Linearizer.{CncTree, CncTrees, app, no_trees, tree}

-- The functions of a presenter that pgf_lzr_linearize calls, each of which may be null.
pub record Presenter (S : Type 0) : Type 0 where
  pub symbol_tokens : Option (List Token → S → S)
  pub expr_apply : Option (CId → ℕ → S → S)
  pub expr_literal : Option (Literal → S → S)

unfoldable pub n_trees : CncTrees → ℕ
n_trees no_trees = 0
n_trees (tree t ts) = suc (n_trees ts)

unfoldable pub n_ctnts : CncTree → ℕ
n_ctnts (CncTree.lit l) = 1
n_ctnts (app fun args) = length fun.lins

module _ {S : Type 0} (prtr : Presenter S) where
  abbrev pub on_tokens : List Token → S → S
  on_tokens toks s = elim (prtr.symbol_tokens) [ none ↦ s | some f ↦ f toks s ]

  abbrev pub on_apply : CId → ℕ → S → S
  on_apply c n s = elim (prtr.expr_apply) [ none ↦ s | some f ↦ f c n s ]

  abbrev pub on_literal : Literal → S → S
  on_literal l s = elim (prtr.expr_literal) [ none ↦ s | some f ↦ f l s ]

  -- The loop over the symbols; `arg` linearizes a constituent of an argument.
  unfoldable pub linearize_symbols : (ℕ → ℕ → S → Run S) → List Symbol → S → Run S
  linearize_symbols arg [] s = ok s
  linearize_symbols arg (cat d r ∷ syms) s = arg d r s >>= λ s'. linearize_symbols arg syms s'
  linearize_symbols arg (var d r ∷ syms) s = arg d r s >>= λ s'. linearize_symbols arg syms s'
  linearize_symbols arg (lit d r ∷ syms) s = arg d r s >>= λ s'. linearize_symbols arg syms s'
  linearize_symbols arg (ks toks ∷ syms) s = linearize_symbols arg syms (on_tokens toks s)
  linearize_symbols arg (kp default_form alts ∷ syms) s =
      linearize_symbols arg syms (on_tokens default_form s)

  unfoldable mutual
    unfolding linearize_symbols n_trees

    pub linearize : CncTree → ℕ → S → Run S
    linearize (CncTree.lit l) lin_idx s = require (lin_idx == 0) >>= λ _. ok (on_literal l s)
    linearize (app fun args) lin_idx s =
        let s' = on_apply fun.fun (n_trees args) s in
        require (ltb lin_idx (length fun.lins)) >>= λ _.
        deref fun.lins lin_idx >>= λ seq. linearize_symbols (linearize_arg args) seq s'

    -- `gu_seq_get(fapp->args, PgfCncTree, sidx->d)`, linearized.
    pub linearize_arg : CncTrees → ℕ → ℕ → S → Run S
    linearize_arg no_trees d r s = fault
    linearize_arg (tree t ts) zero r s = linearize t r s
    linearize_arg (tree t ts) (suc d) r s = linearize_arg ts d r s

-- A `GuWriter` with its `GuExn`.
pub record Writer (W : Type 0) : Type 0 where
  pub write : List ℕ → W → W
  pub is_ok : W → Bool

module _ {W : Type 0} (wtr : Writer W) where
  -- The loop of pgf_simple_prtr_symbol_tokens: gu_string_write and gu_putc.
  unfoldable pub write_tokens : List Token → W → W
  write_tokens [] w = w
  write_tokens (tok ∷ toks) w = write_tokens toks (wtr.write (b' ' ∷ []) (wtr.write tok w))

  unfoldable pub simple_symbol_tokens : List Token → W → W
  unfolding write_tokens
  simple_symbol_tokens toks w = if wtr.is_ok w then write_tokens toks w else w

  -- `pgf_simple_prtr_funs`
  unfoldable pub simple_prtr : Presenter W
  unfolding simple_symbol_tokens
  simple_prtr = record {
    symbol_tokens = some simple_symbol_tokens;
    expr_apply = none;
    expr_literal = none;
  }

  unfoldable pub linearize_simple : CncTree → ℕ → W → Run W
  unfolding linearize simple_prtr
  linearize_simple ctree lin_idx w = linearize simple_prtr ctree lin_idx w
