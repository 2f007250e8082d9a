-- ===== src/Expr.antt =====
-- Abstract syntax trees: pgf/expr.h and pgf/expr.c. An identifier is the list of its bytes. A C int
-- is the pattern of its 32 bits, a double that of its 64.
pub mod Unapply
pub mod Reader
pub mod Printer
pub mod Tokens
pub mod Printed
pub mod RoundTrip
mod Tests
use libpgf.Prelude.{ℕ, List}

abbrev pub CId : Type 0
CId = List ℕ

pub data BindType : Type 0 where
  explicit implicit : BindType

pub data Literal : Type 0 where
  str : List ℕ → Literal
  int : ℕ → Literal
  flt : ℕ → Literal

mutual
  pub data Expr : Type 0 where
    abs : BindType → CId → Expr → Expr
    app : Expr → Expr → Expr
    lit : Literal → Expr
    meta : ℕ → Expr
    fun : CId → Expr
    var : ℕ → Expr
    typed : Expr → PgfType → Expr
    impl_arg : Expr → Expr

  pub data PgfType : Type 0 where
    pgf_type : Hypos → CId → Exprs → PgfType

  pub data Hypos : Type 0 where
    no_hypos : Hypos
    hypo : BindType → CId → PgfType → Hypos → Hypos

  pub data Exprs : Type 0 where
    no_exprs : Exprs
    expr : Expr → Exprs → Exprs
