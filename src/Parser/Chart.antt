-- ===== src/Parser/Chart.antt =====
-- The chart of the parser: the structures of pgf/parser.c. A pointer to a set of items or to a
-- `PgfCCat` is its index in a heap; other structures, which do not change once they are shared, are
-- values.
pub mod State
pub mod Items
pub mod Agenda
pub mod Scan
pub mod Keeps
pub mod Frame
mod Tests
use libpgf.Prelude.{ℕ, Bool, true, false, ◌&&◌, ◌||◌, Option, none, some, List, [], ◌∷◌, ◌++◌, ◌==◌}
use libpgf.Grammar.{
  Token, CCatId, Symbol, cat, lit, var, ks, kp, Alternative, PArg, Production, apply, coerce,
  CCatStore,
}

abbrev pub SetId : Type 0
SetId = ℕ

pub record ItemBase : Type 0 where
  pub conts : SetId
  pub ccat : CCatId
  pub prod : Production
  pub lin_idx : ℕ

-- `seq_idx` has 16 bits, `tok_idx` and `alt` have 8. A null `curr_sym` is none.
pub record Item : Type 0 where
  pub base : ItemBase
  pub args : List PArg
  pub curr_sym : Option Symbol
  pub seq_idx : ℕ
  pub tok_idx : ℕ
  pub alt : ℕ

-- A set is the list of its keys in the order of their insertion. Only a set of continuations may
-- have the null item.
abbrev pub ItemSet : Type 0
ItemSet = List (Option Item)

-- What all the parses of a parser share: the memory of its pools, and `next_fid`, which is a
-- pattern of 32 bits.
pub record Heap : Type 0 where
  pub sets : List ItemSet
  pub store : CCatStore
  pub next_fid : ℕ

pub record Parse : Type 0 where
  pub transitions : List (Token × ItemSet)
  pub completed : List CCatId

pub record Parsing : Type 0 where
  pub heap : Heap
  pub parse : Parse
  pub seen_items : ItemSet
  pub conts_map : List (CCatId × List (Option SetId))
  pub generated_cats : List (SetId × CCatId)

-- The equality of the hashers in gu/hash.c: sequences and structures by their parts.
unfoldable pub list_eq {ℓ} : {A : Type ℓ} → (A → A → Bool) → List A → List A → Bool
list_eq eq [] [] = true
list_eq eq (x ∷ xs) (y ∷ ys) = eq x y && list_eq eq xs ys
list_eq eq _ _ = false

unfoldable pub option_eq {ℓ} : {A : Type ℓ} → (A → A → Bool) → Option A → Option A → Bool
option_eq eq none none = true
option_eq eq (some x) (some y) = eq x y
option_eq eq _ _ = false

unfoldable pub token_eq : Token → Token → Bool
unfolding list_eq
token_eq = list_eq ◌==◌

unfoldable pub tokens_eq : List Token → List Token → Bool
unfolding token_eq list_eq
tokens_eq = list_eq token_eq

unfoldable pub alternative_eq : Alternative → Alternative → Bool
unfolding tokens_eq
alternative_eq a b = tokens_eq a.form b.form && tokens_eq a.prefixes b.prefixes

unfoldable pub symbol_eq : Symbol → Symbol → Bool
unfolding tokens_eq list_eq alternative_eq
symbol_eq (cat d r) (cat d' r') = d == d' && r == r'
symbol_eq (lit d r) (lit d' r') = d == d' && r == r'
symbol_eq (var d r) (var d' r') = d == d' && r == r'
symbol_eq (ks ts) (ks ts') = tokens_eq ts ts'
symbol_eq (kp ts alts) (kp ts' alts') = tokens_eq ts ts' && list_eq alternative_eq alts alts'
symbol_eq _ _ = false

unfoldable pub parg_eq : PArg → PArg → Bool
unfolding list_eq
parg_eq a b = list_eq ◌==◌ a.hypos b.hypos && a.ccat == b.ccat

-- A `PgfFunId` is compared by its address, which `fid` tells.
unfoldable pub production_eq : Production → Production → Bool
unfolding list_eq parg_eq
production_eq (apply f xs) (apply g ys) = f.fid == g.fid && list_eq parg_eq xs ys
production_eq (coerce c) (coerce d) = c == d
production_eq _ _ = false

unfoldable pub base_eq : ItemBase → ItemBase → Bool
unfolding production_eq
base_eq a b =
    a.conts == b.conts && a.ccat == b.ccat && production_eq a.prod b.prod && a.lin_idx == b.lin_idx

unfoldable pub item_eq : Item → Item → Bool
unfolding base_eq list_eq parg_eq option_eq symbol_eq
item_eq a b =
    base_eq a.base b.base
    && list_eq parg_eq a.args b.args
    && option_eq symbol_eq a.curr_sym b.curr_sym
    && a.seq_idx == b.seq_idx
    && a.tok_idx == b.tok_idx
    && a.alt == b.alt

-- gu_set_has with the item hasher.
unfoldable pub set_has : ItemSet → Option Item → Bool
unfolding option_eq item_eq
set_has [] i = false
set_has (j ∷ set) i = option_eq item_eq j i || set_has set i

-- gu_set_insert
unfoldable pub set_insert : ItemSet → Option Item → ItemSet
unfolding set_has
set_insert set i = elim (set_has set i) [ true ↦ set | false ↦ set ++ i ∷ [] ]
