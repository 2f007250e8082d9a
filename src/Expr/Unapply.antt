-- ===== src/Expr/Unapply.antt =====
-- pgf_expr_unwrap, pgf_expr_arity and pgf_expr_unapply of pgf/expr.c: an application taken apart
-- into its function and its arguments.
use libpgf.Prelude.{
  ℕ, zero, suc, ◌+◌, ◌≡◌, refl, ap, ◌∙◌, arith, Bool, true, false, Option, none, some, List, [],
  ◌∷◌, ◌++◌, length, length-append, append_assoc, append-nil, ◌⊎◌, inl, inr, Run, ok, abort, ◌>>=◌,
  ◌>>◌, require,
}
use libpgf.Expr.{Expr, CId, PgfType, abs, app, lit, meta, fun, var, typed, impl_arg}

unfoldable pub unwrap : Expr → Expr
unwrap (impl_arg e) = unwrap e
unwrap (typed e t) = unwrap e
unwrap e = e

-- The loop of pgf_expr_arity; the two first clauses are its call of pgf_expr_unwrap, and `none` is
-- its -1.
unfoldable pub arity_from : ℕ → Expr → Option ℕ
arity_from n (impl_arg e) = arity_from n e
arity_from n (typed e t) = arity_from n e
arity_from n (app f a) = arity_from (n + 1) f
arity_from n (fun c) = some n
arity_from n (abs b c e) = none
arity_from n (lit l) = none
arity_from n (meta m) = none
arity_from n (var v) = none

abbrev pub arity : Expr → Option ℕ
arity e = arity_from 0 e

pub record Application : Type 0 where
  pub fun : Expr
  pub args : List Expr

abbrev is_fun : Expr → Bool
is_fun (fun c) = true
is_fun (abs b c e) = false
is_fun (app f a) = false
is_fun (lit l) = false
is_fun (meta m) = false
is_fun (var v) = false
is_fun (typed e t) = false
is_fun (impl_arg e) = false

-- What is behind the assertion that the expression is an application.
abbrev as_app : Expr → Run (Expr × Expr)
as_app (app f a) = ok (f, a)
as_app (fun c) = abort
as_app (abs b c e) = abort
as_app (lit l) = abort
as_app (meta m) = abort
as_app (var v) = abort
as_app (typed e t) = abort
as_app (impl_arg e) = abort

-- `for (int n = arity - 1; n >= 0; n--)`: the arguments are filled in from the last.
unfoldable pub unapply_loop : ℕ → Expr → List Expr → Run Application
unfolding unwrap
unapply_loop zero e args = do
  require (is_fun (unwrap e))
  ok (record { fun = unwrap e; args = args })
unapply_loop (suc n) e args = do (f, a) ← as_app (unwrap e); unapply_loop n f (a ∷ args)

-- `none` is null.
unfoldable pub unapply : Expr → Run (Option Application)
unfolding arity_from unapply_loop
unapply e = elim (arity e) [ none ↦ ok none | some n ↦ unapply_loop n e [] >>= λ a. ok (some a) ]

-- The function of an expression with its arguments, all wrappers on the way to it left out.
pub data Spine : Expr → CId → List Expr → Type 0 where
  head : (c : CId) → Spine (fun c) c []
  snoc :
      {f : Expr} {c : CId} {args : List Expr} (a : Expr)
      → Spine f c args
      → Spine (app f a) c (args ++ a ∷ [])
  under_impl : {e : Expr} {c : CId} {args : List Expr} → Spine e c args → Spine (impl_arg e) c args
  under_type :
      {e : Expr} {c : CId} {args : List Expr} (t : PgfType)
      → Spine e c args
      → Spine (typed e t) c args

arity-Spine :
    {e : Expr} {c : CId} {args : List Expr}
    → Spine e c args
    → (n : ℕ) → arity_from n e ≡ some (n + length args)
unfolding arity_from
arity-Spine (head c) n = ap some (omega arith)
arity-Spine (snoc {f = f} {c = c} {args = args} a s) n =
    arity-Spine s (n + 1) ∙ ap some (omega (arith, length-append args (a ∷ [])))
arity-Spine (under_impl s) n = arity-Spine s n
arity-Spine (under_type t s) n = arity-Spine s n

loop-Spine :
    {e : Expr} {c : CId} {args : List Expr}
    → Spine e c args
    → (k : ℕ) → k ≡ length args
    → (rest : List Expr) → unapply_loop k e rest ≡ ok (record { fun = fun c; args = args ++ rest })
unfolding unapply_loop unwrap
loop-Spine (head c) k e rest = rw e
loop-Spine (snoc {f = f} {c = c} {args = args} a s) k e rest =
    let size : k ≡ suc (length args) = omega (arith, length-append args (a ∷ [])) in
    rw size (loop-Spine s (length args) refl (a ∷ rest) ∙ rw append_assoc)
loop-Spine (under_impl s) zero e rest = loop-Spine s zero e rest
loop-Spine (under_impl s) (suc k) e rest = loop-Spine s (suc k) e rest
loop-Spine (under_type t s) zero e rest = loop-Spine s zero e rest
loop-Spine (under_type t s) (suc k) e rest = loop-Spine s (suc k) e rest

pub Spine-unapply :
    {e : Expr} {c : CId} {args : List Expr}
    → Spine e c args
    → unapply e ≡ ok (some (record { fun = fun c; args = args }))
unfolding unapply
Spine-unapply {args = args} s =
    rw (arity-Spine s 0, unapply)
      (rw (loop-Spine s (0 + length args) (omega arith) []) (rw append-nil refl))

-- An expression has a function with arguments, or no arity.
Spine-cases :
    (e : Expr)
    → ((c : CId) × (args : List Expr) × Spine e c args) ⊎ ((n : ℕ) → arity_from n e ≡ none)
unfolding arity_from
Spine-cases (fun c) = inl (c, [], head c)
Spine-cases (app f a) = elim (Spine-cases f) [
  | inl (c, args, s) ↦ inl (c, args ++ a ∷ [], snoc a s)
  | inr h ↦ inr (λ n. h (n + 1))
]
Spine-cases (impl_arg e) = elim (Spine-cases e) [
  | inl (c, args, s) ↦ inl (c, args, under_impl s)
  | inr h ↦ inr h
]
Spine-cases (typed e t) = elim (Spine-cases e) [
  | inl (c, args, s) ↦ inl (c, args, under_type t s)
  | inr h ↦ inr h
]
Spine-cases (abs b c e) = inr (λ n. refl)
Spine-cases (lit l) = inr (λ n. refl)
Spine-cases (meta m) = inr (λ n. refl)
Spine-cases (var v) = inr (λ n. refl)

-- pgf_expr_unapply meets none of its assertions on any expression: it returns the function and the
-- arguments, first to last, of an expression that has such, and null for every other.
pub unapply-Spine :
    (e : Expr)
    → ((c : CId) × (args : List Expr) × Spine e c args
        × (unapply e ≡ ok (some (record { fun = fun c; args = args }))))
      ⊎ (((c : CId) (args : List Expr) → ¬ Spine e c args) × (unapply e ≡ ok none))
unfolding unapply
unapply-Spine e = elim (Spine-cases e) [
  | inl (c, args, s) ↦ inl (c, args, s, Spine-unapply s)
  | inr h ↦ inr ((λ c args s. cc (h 0, arity-Spine s 0)), rw (h 0, unapply))
]
