-- ===== src/Parser/Chart/Items.antt =====
-- The items of the chart: pgf_item_base_symbol, pgf_new_item and pgf_item_advance of pgf/parser.c.
use libpgf.Prelude.{
  ℕ, ◌+◌, ◌%◌, ◌^◌, Option, none, some, List, [], ◌∷◌, length, leb, ◌==◌, if◌then◌else◌, Run, ok,
  ◌>>=◌, ◌>>◌, require,
}
use libpgf.Grammar.{Symbol, cat, PArg, Production, apply, coerce}
use libpgf.Parser.Trees.{deref}
use libpgf.Parser.Chart.{ItemBase, Item}

-- The symbol behind the dot, none where the dot is at the end.
unfoldable pub base_symbol : Production → ℕ → ℕ → Run (Option Symbol)
base_symbol (apply f args) lin_idx seq_idx = do
  seq ← deref f.lins lin_idx
  require (leb seq_idx (length seq))
  if seq_idx == length seq then ok none else (deref seq seq_idx >>= λ sym. ok (some sym))
base_symbol (coerce c) lin_idx seq_idx = do
  require (leb seq_idx 1)
  if seq_idx == 1 then ok none else ok (some (cat 0 lin_idx))

unfoldable pub item_base_symbol : ItemBase → ℕ → Run (Option Symbol)
unfolding base_symbol
item_base_symbol ibase seq_idx = base_symbol ibase.prod ibase.lin_idx seq_idx

abbrev pub initial_args : Production → List PArg
initial_args (apply f args) = args
initial_args (coerce c) = record { hypos = []; ccat = c } ∷ []

unfoldable pub new_item : ItemBase → Run Item
unfolding item_base_symbol
new_item base = do
  sym ← item_base_symbol base 0
  ok (record {
    base = base;
    args = initial_args base.prod;
    curr_sym = sym;
    seq_idx = 0;
    tok_idx = 0;
    alt = 0;
  })

-- The dot moves on in 16 bits.
unfoldable pub item_advance : Item → Run Item
unfolding item_base_symbol
item_advance item = do
  let seq_idx = (item.seq_idx + 1) % 2 ^ 16
  sym ← item_base_symbol item.base seq_idx
  ok (record item { seq_idx = seq_idx; curr_sym = sym })
