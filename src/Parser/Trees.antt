-- ===== src/Parser/Trees.antt =====
-- From completed categories to abstract syntax trees: pgf_cat_to_expr and pgf_production_to_expr of
-- pgf/parser.c. A category with several productions stands for several trees, and `gu_choice_next`
-- decides between them.
pub mod Spec
pub mod Realize
pub mod Repeats
use libpgf.Prelude.{
  ℕ, zero, suc, ◌≡◌, ◌||◌, Bool, true, false, Option, none, some, List, [], ◌∷◌, length, get_elem?,
  ◌==◌, if◌then◌else◌, Run, ok, abort, fault, stuck, require,
}
use libpgf.Choice.{choice_next}
use libpgf.Choice.Monad.{Choosing, return, dead_end, lift, ◌>>=◌}
use libpgf.Expr.{Expr, app, fun, meta}
use libpgf.Grammar.{
  CCatId, PArg, Production, apply, coerce, Productions, null, seq, buf, CCat, CCatStore,
}

-- A set of addresses, `gu_set_has` on it.
unfoldable pub seen_has : List CCatId → CCatId → Bool
seen_has [] c = false
seen_has (s ∷ seen) c = s == c || seen_has seen c

-- A pointer, or an index in an array, that leads nowhere is a fault.
abbrev pub deref {ℓ} : {A : Type ℓ} → List A → ℕ → Run A
deref xs i = elim (get_elem? xs i) [ none ↦ fault | some x ↦ ok x ]

abbrev pub is_empty : List CCatId → Bool
is_empty [] = true
is_empty (h ∷ hs) = false

-- The loop over the arguments of an application; `go` is the call of pgf_cat_to_expr.
pub args_to_expr :
    (CCatId → List CCatId → Choosing (Expr × List CCatId))
    → List PArg
    → Expr
    → List CCatId
    → Choosing (Expr × List CCatId)
args_to_expr go [] e seen = return (e, seen)
args_to_expr go (a ∷ args) e seen = do
  _ ← lift (require (is_empty a.hypos))
  (earg, seen') ← go a.ccat seen
  args_to_expr go args (app e earg) seen'

pub production_to_expr :
    (CCatId → List CCatId → Choosing (Expr × List CCatId))
    → Production
    → List CCatId
    → Choosing (Expr × List CCatId)
unfolding args_to_expr
production_to_expr go (apply f args) seen = args_to_expr go args (fun f.fun) seen
production_to_expr go (coerce c) seen = go c seen

-- `gu_seq_is_buf` reads the word in front of the sequence, which a null sequence has not.
pub synthetic : Productions → Run (Option (List Production))
synthetic (buf ps) = ok (some ps)
synthetic (seq ps) = ok none
synthetic null = fault

-- The expression of a synthetic category is that of one of its productions.
pub choose_production :
    (CCatId → List CCatId → Choosing (Expr × List CCatId))
    → Option (List Production)
    → List CCatId
    → Choosing (Expr × List CCatId)
unfolding production_to_expr
choose_production go none seen = return (meta 0, seen)
choose_production go (some ps) seen = do
  i ← (λ ch. choice_next ch (length ps))
  prod ← lift (deref ps i)
  production_to_expr go prod seen

-- The fuel bounds the depth of the calls: each adds a category to the set.
unfoldable pub cat_to_expr : ℕ → CCatStore → CCatId → List CCatId → Choosing (Expr × List CCatId)
unfolding seen_has choose_production synthetic
cat_to_expr zero store c seen = λ ch. stuck
cat_to_expr (suc fuel) store c seen = if seen_has seen c then dead_end else (do
  cat ← lift (deref store c)
  ps ← lift (synthetic cat.prods)
  choose_production (cat_to_expr fuel store) ps (c ∷ seen))
