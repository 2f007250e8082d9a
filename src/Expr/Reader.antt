-- ===== src/Expr/Reader.antt =====
-- The reader of expressions: PgfExprParser and pgf_read_expr of pgf/expr.c. The text is the list of
-- its characters; a GuReader that fails otherwise than at its end is not modelled.
use libpgf.Prelude.{
  ℕ, zero, suc, ◌+◌, Bool, true, false, ◌||◌, Option, none, some, List, [], ◌∷◌, ◌++◌, length, ltb,
  ◌==◌, if◌then◌else◌, Run, ok, raised, stuck, ◌>>=◌,
}
use libpgf.Expr.{Expr, app, fun}

-- The tests of <ctype.h>.
pub record CharClass : Type 0 where
  pub is_space : ℕ → Bool
  pub is_alpha : ℕ → Bool
  pub is_alnum : ℕ → Bool

-- The strings that `lookahead` points to: the three marks, each told by its address, and interned
-- identifiers.
pub data Tok : Type 0 where
  lpar rpar semic : Tok
  id : List ℕ → Tok

-- `next_char`: none for -1, else a character pushed back, or 0 for the end of the text.
pub record Reader : Type 0 where
  pub input : List ℕ
  pub next_char : Option ℕ
  pub lookahead : Option Tok

-- pgf_expr_parser_next; 0 is the end of the text.
unfoldable pub next : Reader → ℕ × Reader
next r = elim (r.next_char) [
  | some c ↦ (c, if ltb 0 c then record r { next_char = none } else r)
  | none ↦ elim (r.input) [ [] ↦ (0, r) | c ∷ cs ↦ (c, record r { input = cs }) ]
]

module _ (chars : CharClass) where
  open chars use {is_space, is_alpha, is_alnum}

  -- `do { c = next } while (isspace(c))`
  unfoldable pub skip_spaces : ℕ → Reader → Run (ℕ × Reader)
  unfolding next
  skip_spaces zero r = stuck
  skip_spaces (suc fuel) r =
      let (c, r') = next r in
      let rest = skip_spaces fuel r' in if is_space c then rest else ok (c, r')

  -- `while (isalnum(c) || c == '_')`, and the character behind is pushed back.
  unfoldable pub read_id : ℕ → ℕ → Reader → List ℕ → Run (List ℕ × Reader)
  unfolding next
  read_id zero c r s = stuck
  read_id (suc fuel) c r s =
      let (d, r') = next r in
      let rest = read_id fuel d r' (s ++ c ∷ []) in
      if is_alnum c || c == b'_' then rest else ok (s, record r { next_char = some c })

  -- The switch on the first character that is no space.
  unfoldable pub classify : ℕ → Reader → Run (Option Tok × Reader)
  unfolding read_id
  classify c r =
      if c == b'('
      then ok (some lpar, r)
      else if c == b')'
      then ok (some rpar, r)
      else if c == b';'
      then ok (some semic, r)
      else if c == 0
      then ok (none, r)
      else if is_alpha c
      then (read_id (length r.input + 3) c r [] >>= λ s. ok (some (id s.0), s.1))
      else ok (none, r)

  -- Each round of the two loops takes a character of the text, or ends at its end.
  unfoldable pub lookahead : Reader → Run (Option Tok × Reader)
  unfolding skip_spaces classify
  lookahead r = elim (r.lookahead) [
    | some t ↦ ok (some t, r)
    | none ↦ skip_spaces (length r.input + 3) r >>= λ s.
        classify s.0 s.1 >>= λ t. ok (t.0, record (t.1) { lookahead = t.0 })
  ]

  unfoldable pub consume : Reader → Run Reader
  unfolding lookahead
  consume r = lookahead r >>= λ t. ok (record (t.1) { lookahead = none })

  -- The characters of a token.
  abbrev pub spelling : Tok → List ℕ
  spelling lpar = b'(' ∷ []
  spelling rpar = b')' ∷ []
  spelling semic = b';' ∷ []
  spelling (id s) = s

  abbrev starts_id : List ℕ → Bool
  starts_id [] = false
  starts_id (c ∷ s) = is_alpha c || c == b'_'

  -- pgf_expr_parser_token_is_id
  abbrev pub token_is_id : Option Tok → Bool
  token_is_id none = false
  token_is_id (some t) = starts_id (spelling t)

  abbrev is_tok : Tok → Option Tok → Bool
  is_tok t none = false
  is_tok lpar (some lpar) = true
  is_tok rpar (some rpar) = true
  is_tok semic (some semic) = true
  is_tok _ _ = false

  abbrev spelling_of : Option Tok → List ℕ
  spelling_of none = []
  spelling_of (some t) = spelling t

  -- What follows an expression in parentheses.
  unfoldable pub close : Option Expr → Reader → Run (Option Expr × Reader)
  unfolding lookahead consume
  close e r =
      lookahead r >>= λ la. if is_tok rpar la.0 then (consume la.1 >>= λ r'. ok (e, r')) else raised

  -- The fuel bounds the depth of the calls and the rounds of the loop over arguments.
  unfoldable mutual
    unfolding lookahead consume close

    pub term : ℕ → Reader → Run (Option Expr × Reader)
    term zero r = stuck
    term (suc fuel) r = lookahead r >>= λ la.
        if is_tok lpar la.0
        then (consume la.1 >>= λ r1. read fuel r1 >>= λ e. close e.0 e.1)
        else if token_is_id la.0
        then (consume la.1 >>= λ r1. ok (some (fun (spelling_of la.0)), r1))
        else ok (none, la.1)

    pub read : ℕ → Reader → Run (Option Expr × Reader)
    read zero r = stuck
    read (suc fuel) r =
        term fuel r >>= λ e. elim (e.0) [ none ↦ ok (none, e.1) | some f ↦ read_args fuel f e.1 ]

    pub read_args : ℕ → Expr → Reader → Run (Option Expr × Reader)
    read_args zero f r = stuck
    read_args (suc fuel) f r = term fuel r >>= λ a. elim (a.0) [
      | none ↦ ok (some f, a.1)
      | some arg ↦ read_args fuel (app f arg) a.1
    ]

  -- The tail of pgf_read_expr.
  unfoldable pub finish : Option Expr → Reader → Run (Option Expr × Reader)
  unfolding consume
  finish none r = ok (none, r)
  finish (some e) r =
      if is_tok semic r.lookahead
      then (consume r >>= λ r'. ok (some e, r'))
      else elim (r.lookahead) [ none ↦ ok (some e, r) | some t ↦ raised ]

  -- The expression, and the text that is left.
  unfoldable pub read_expr : ℕ → List ℕ → Run (Option Expr × List ℕ)
  unfolding read finish
  read_expr fuel input =
      read fuel (record { input = input; next_char = none; lookahead = none }) >>= λ e.
      finish e.0 e.1 >>= λ f. ok (f.0, f.1.input)
