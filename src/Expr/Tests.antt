-- ===== src/Expr/Tests.antt =====
-- Runs of the reader, the printer and the unapplication of pgf/expr.c.
use libpgf.Prelude.{
  ℕ, ◌+◌, Bool, ◌||◌, ◌&&◌, ◌==◌, leb, List, [], ◌∷◌, some, none, ok, ◌≡◌, ◌⊎◌, refl,
}
use libpgf.Expr.{Expr, app, fun, meta, impl_arg}
use libpgf.Expr.Reader.{CharClass}
use libpgf.Expr.Printer.{print_with_paren, print}
use libpgf.Expr.Printed.{args}
use libpgf.Expr.Unapply.{Spine, unapply, unapply-Spine}

abbrev letter : ℕ → Bool
letter c = (leb b'A' c && leb c b'Z') || (leb b'a' c && leb c b'z')

abbrev blank : ℕ → Bool
blank c = c == 32 || (leb 9 c && leb c 13)

abbrev letter_or_digit : ℕ → Bool
letter_or_digit c = letter c || (leb b'0' c && leb c b'9')

abbrev c_locale : CharClass
c_locale = record { is_space = blank; is_alpha = letter; is_alnum = letter_or_digit }

-- f (g x) y
abbrev tree : Expr
tree =
    app (app (fun (b'f' ∷ [])) (app (fun (b'g' ∷ [])) (fun (b'x' ∷ [])))) (fun (b'y' ∷ b'_' ∷ []))

abbrev digit : ℕ → List ℕ
digit n = (b'0' + n) ∷ []

-- f, under an implicit argument and a type, applied to two metavariables.
abbrev wrapped : Expr
wrapped = app (impl_arg (app (fun (b'f' ∷ [])) (meta 1))) (meta 2)

unapply-Spine_example :
    ((c : List ℕ) × (args : List Expr) × Spine wrapped c args
      × (unapply wrapped ≡ ok (some (record { fun = fun c; args = args }))))
    ⊎ (((c : List ℕ) (args : List Expr) → ¬ Spine wrapped c args) × (unapply wrapped ≡ ok none))
unapply-Spine_example = unapply-Spine wrapped

-- The text of the tree.
print-tree :
    print digit tree ≡ ok (b'f' ∷ b' ' ∷ b'(' ∷ b'g' ∷ b' ' ∷ b'x' ∷ b')' ∷ b' ' ∷ b'y' ∷ b'_' ∷ [])
unfolding print_with_paren
print-tree = refl
