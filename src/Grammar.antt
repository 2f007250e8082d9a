-- ===== src/Grammar.antt =====
-- The concrete grammar: the structures of pgf/data.h that parsing reads. A pointer to a `PgfCCat`
-- is its index in a store of them.
use libpgf.Prelude.{ℕ, Option, List}
use libpgf.Expr.{CId}

-- The bytes of a token.
abbrev pub Token : Type 0
Token = List ℕ

abbrev pub CCatId : Type 0
CCatId = ℕ

pub record Alternative : Type 0 where
  pub form : List Token
  pub prefixes : List (List ℕ)

pub data Symbol : Type 0 where
  cat : ℕ → ℕ → Symbol
  lit : ℕ → ℕ → Symbol
  var : ℕ → ℕ → Symbol
  ks : List Token → Symbol
  kp : List Token → List Alternative → Symbol

-- A function with its linearizations, one sequence for each constituent.
pub record CncFun : Type 0 where
  pub fun : CId
  pub lins : List (List Symbol)
  pub fid : ℕ

pub record PArg : Type 0 where
  pub hypos : List CCatId
  pub ccat : CCatId

pub data Production : Type 0 where
  apply : CncFun → List PArg → Production
  coerce : CCatId → Production

pub record CncCat : Type 0 where
  pub cid : CId
  pub cats : List (Option CCatId)
  pub lindefs : List CncFun
  pub n_ctnts : ℕ
  pub ctnts : List (List ℕ)

-- A `PgfProductions` is null, a sequence (in a category of the grammar), or a buffer that grows (in
-- a category that the parser made).
pub data Productions : Type 0 where
  null : Productions
  seq : List Production → Productions
  buf : List Production → Productions

-- The literal categories have no `cnccat`.
pub record CCat : Type 0 where
  pub cnccat : Option CncCat
  pub prods : Productions
  pub fid : ℕ

abbrev pub CCatStore : Type 0
CCatStore = List CCat
