-- ===== src/Expr/RoundTrip.antt =====
-- What the printer writes, the reader reads back.
use libpgf.Prelude.{ℕ, suc, ◌+◌, ◌*◌, ◌≤◌, ◌<◌, ◌≡◌, true, false, some, List, ◌∷◌, ◌++◌, ◌⊎◌, ok}
use libpgf.Expr.{Expr}
use libpgf.Expr.Reader.{CharClass, Reader, term, read, read_args}
use libpgf.Expr.Tokens.{IsAscii, Ahead, is_word}
use libpgf.Expr.Printed.{text, size, args}

module _ {chars : CharClass} (ascii : IsAscii chars) where
  -- A character behind which an identifier ends.
  abbrev IsStop : ℕ → Type 0
  IsStop d = (0 < d) × (is_word ascii d ≡ false)

  abbrev Before : List ℕ → Reader → Type 0
  Before w r = Ahead w r ⊎ Ahead (b' ' ∷ w) r

  abbrev ReadsPlain : Expr → Type 0
  ReadsPlain e =
      (n d : ℕ) (w : List ℕ) (r : Reader)
      → IsStop d
      → size e ≤ n
      → Ahead (text e false ++ (d ∷ w)) r
      → (r' : Reader) × (read chars (suc (n + args e)) r ≡ read_args chars n e r')
        × Ahead (d ∷ w) r'

  abbrev ReadsTerm : Expr → Type 0
  ReadsTerm e =
      (n d : ℕ) (w : List ℕ) (r : Reader)
      → IsStop d
      → 2 * size e + 4 ≤ n
      → Before (text e true ++ (d ∷ w)) r
      → (r' : Reader) × (term chars n r ≡ ok (some e, r')) × Ahead (d ∷ w) r'
