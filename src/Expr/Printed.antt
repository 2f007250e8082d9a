-- ===== src/Expr/Printed.antt =====
-- The texts that the printer writes, and measures of the trees.
use libpgf.Prelude.{
  ℕ, suc, ◌+◌, ◌*◌, ◌≤◌, ◌≡◌, refl, arith, Bool, true, false, List, [], ◌∷◌, ◌++◌, if◌then◌else◌,
  ok,
}
use libpgf.Expr.{Expr, app, fun}
use libpgf.Expr.Printer.{print_with_paren}
use libpgf.Expr.Reader.{CharClass}
use libpgf.Expr.Tokens.{IsAscii, IsId}

-- The text of an expression made of functions and applications.
unfoldable pub text : Expr → Bool → List ℕ
text (fun c) paren = c
text (app f a) paren =
    (if paren then b'(' ∷ [] else [])
    ++ (text f false ++ (b' ' ∷ (text a true ++ (if paren then b')' ∷ [] else []))))
text _ paren = []

-- A measure of the fuel that reading an expression takes, and its number of arguments.
unfoldable pub size : Expr → ℕ
size (app f a) = size f + 2 * size a + 5
size _ = 2

unfoldable pub args : Expr → ℕ
args (app f a) = suc (args f)
args _ = 0

pub size-positive : (e : Expr) → 2 ≤ size e
unfolding size
size-positive (app f a) = omega arith
size-positive _ = omega arith

pub args-le-size : (e : Expr) → args e ≤ size e
unfolding args size
args-le-size (app f a) = omega (arith, args-le-size f)
args-le-size _ = omega arith

module _ {chars : CharClass} (ascii : IsAscii chars) where
  -- Functions with identifiers for names, applied.
  abbrev pub IsPrintable : Expr → Type 0
  IsPrintable (fun c) = IsId ascii c
  IsPrintable (app f a) = IsPrintable f × IsPrintable a
  IsPrintable _ = ⊥

  pub print-text :
      (print_int : ℕ → List ℕ) (e : Expr) (paren : Bool)
      → IsPrintable e
      → print_with_paren print_int e paren ≡ ok (text e paren)
  unfolding print_with_paren text
  print-text pi (fun c) paren h = refl
  print-text pi (app f a) paren h = rw (print-text pi f false h.0, print-text pi a true h.1)
  print-text pi _ paren h = elim h [ ]
