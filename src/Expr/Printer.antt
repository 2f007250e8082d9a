-- ===== src/Expr/Printer.antt =====
-- pgf_expr_print of pgf/expr.c.
use libpgf.Prelude.{ℕ, Bool, true, false, List, [], ◌∷◌, ◌++◌, if◌then◌else◌, Run, ok, abort, ◌>>=◌}
use libpgf.Expr.{Expr, abs, app, lit, meta, fun, var, typed, impl_arg}

-- `print_int` is what gu_printf writes for `%d`.
module _ (print_int : ℕ → List ℕ) where
  -- The text written; the expressions that cannot be printed meet gu_impossible.
  unfoldable pub print_with_paren : Expr → Bool → Run (List ℕ)
  print_with_paren (fun c) need_paren = ok c
  print_with_paren (app f a) need_paren = print_with_paren f false >>= λ s.
      print_with_paren a true >>= λ t. ok (
        (if need_paren then b'(' ∷ [] else [])
        ++ (s ++ (b' ' ∷ (t ++ (if need_paren then b')' ∷ [] else [])))))
  print_with_paren (meta m) need_paren = ok (b'?' ∷ print_int m)
  print_with_paren (abs b c e) need_paren = abort
  print_with_paren (lit l) need_paren = abort
  print_with_paren (var v) need_paren = abort
  print_with_paren (typed e t) need_paren = abort
  print_with_paren (impl_arg e) need_paren = abort

  abbrev pub print : Expr → Run (List ℕ)
  print e = print_with_paren e false
