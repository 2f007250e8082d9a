-- ===== src/Parser/Chart/Scan.antt =====
-- The step from one token to the next: pgf_parsing_scan_toks to pgf_parse_token, pgf_parser_parse and
-- pgf_new_parser of pgf/parser.c.
use libpgf.Prelude.{
  ℕ, zero, suc, ◌+◌, ◌-◌, ◌%◌, ◌^◌, ◌≡◌, Bool, true, false, ◌||◌, ◌&&◌, Option, none, some, List,
  [], ◌∷◌, ◌++◌, length, get_elem?, ltb, leb, ◌==◌, if◌then◌else◌, Run, ok, abort, fault, stuck,
  require,
}
use libpgf.Prelude
use libpgf.Expr.{CId}
use libpgf.Grammar.{Token, CCatId, Symbol, ks, kp, Alternative, CncCat, CCatStore}
use libpgf.Parser.Trees.{deref}
use libpgf.Parser.Chart.{Item, ItemSet, Heap, Parse, Parsing, token_eq}
use libpgf.Parser.Chart.Items.{item_advance}
use libpgf.Parser.Chart.State.{Action, return, done, lift, ◌>>=◌, ◌>>◌, map_get}
use libpgf.Parser.Chart.Agenda
use libpgf.Parser.Chart.Agenda.{skips}

-- The item behind a token of the form `toks`.
unfoldable pub scanned_item : Item → ℕ → List Token → Run Item
unfolding item_advance
scanned_item old alt toks =
    let tok_idx = (old.tok_idx + 1) % 2 ^ 8 in
    let item : Item = record old { tok_idx = tok_idx; alt = alt % 2 ^ 8 } in
    if tok_idx == length toks then item_advance (record item { tok_idx = 0 }) else ok item

-- pgf_new_parse and pgf_new_parsing.
abbrev pub new_parse : Parse
new_parse = record { transitions = []; completed = [] }

abbrev pub new_parsing : Heap → Parse → Parsing
new_parsing heap parse = record {
  heap = heap;
  parse = parse;
  seen_items = [];
  conts_map = [];
  generated_cats = [];
}

module _ (enum_next : ItemSet → ℕ → Option (Option Item × ℕ)) (fuel : ℕ) where
  unfoldable pub scan_toks : Item → Token → ℕ → List Token → Action Bool
  unfolding scanned_item token_eq Agenda.item
  scan_toks old tok alt toks = do
    next ← lift (deref toks old.tok_idx)
    elim (token_eq next tok) [
      | false ↦ return false
      | true ↦ do
        item ← lift (scanned_item old alt toks)
        Agenda.item enum_next fuel item
        return true
    ]

  -- The loop over the alternatives from the index `i`; `succ` is the result so far.
  unfoldable pub scan_alts :
      Item → Token → List Token → List Alternative → List Alternative → ℕ → Bool → Action Bool
  unfolding scan_toks skips
  scan_alts item tok default before [] i succ = return succ
  scan_alts item tok default before (alt ∷ alts) i succ = do
    succ' ← elim (skips default before alt.form) [
      | true ↦ return succ
      | false ↦ scan_toks item tok (i + 1) alt.form >>= λ b. return (succ || b)
    ]
    scan_alts item tok default (before ++ alt ∷ []) alts (i + 1) succ'

  unfoldable pub scan_symbol : Item → Token → Option Symbol → Action Bool
  unfolding scan_toks scan_alts
  scan_symbol item tok (some (ks tokens)) = scan_toks item tok 0 tokens
  scan_symbol item tok (some (kp default alts)) = elim (item.tok_idx == 0) [
    | true ↦ do succ ← scan_toks item tok 0 default; scan_alts item tok default [] alts 0 succ
    | false ↦ elim (item.alt == 0) [
      | true ↦ scan_toks item tok 0 default
      | false ↦ do
        lift (require (leb item.alt (length alts)))
        alt ← lift (deref alts (item.alt - 1))
        scan_toks item tok item.alt alt.form
    ]
  ]
  scan_symbol item tok _ = lift abort

  unfoldable pub scan : Item → Token → Action (Unit {0})
  unfolding scan_symbol
  scan item tok = do succ ← scan_symbol item tok item.curr_sym; lift (require succ)

  -- `while (gu_enum_next(items, &item))` over the agenda, a set that no other has.
  unfoldable pub scan_loop : ℕ → ItemSet → ℕ → Token → Action (Unit {0})
  unfolding scan
  scan_loop zero agenda i tok = lift stuck
  scan_loop (suc rounds) agenda i tok = elim (enum_next agenda i) [
    | none ↦ done
    | some e ↦ do
      item ← lift (elim (e.0) [ none ↦ fault | some item ↦ ok item ])
      scan item tok
      scan_loop rounds agenda e.1 tok
  ]

  -- The step from the agenda that the transitions have for the token.
  unfoldable pub parse_found : Heap → Token → Option ItemSet → Run (Option Parse × Heap)
  unfolding scan_loop
  parse_found heap tok none = ok (none, heap)
  parse_found heap tok (some agenda) =
      Prelude.◌>>=◌ (scan_loop fuel agenda 0 tok (new_parsing heap new_parse))
        (λ r. ok (some r.1.parse, r.1.heap))

  -- The next parse, none where it is null, and the memory after it.
  unfoldable pub parse_token : Heap → Parse → Token → Run (Option Parse × Heap)
  unfolding map_get token_eq parse_found
  parse_token heap parse tok = parse_found heap tok (map_get token_eq parse.transitions tok)

  -- The loop over the categories of the start category.
  unfoldable pub start_loop : List (Option CCatId) → ℕ → Action (Unit {0})
  unfolding Agenda.predict Agenda.item
  start_loop [] lin_idx = done
  start_loop (c ∷ cats) lin_idx = do
    elim (c) [
      | none ↦ done
      | some ccat ↦ Agenda.predict enum_next (Agenda.item enum_next fuel) none ccat lin_idx
    ]
    start_loop cats lin_idx

  unfoldable pub parse_started : Heap → ℕ → Option CncCat → Run (Parse × Heap)
  unfolding start_loop
  parse_started heap lin_idx none = ok (new_parse, heap)
  parse_started heap lin_idx (some cnc) =
      Prelude.◌>>◌ (require (ltb lin_idx (2 ^ 31) && ltb lin_idx cnc.n_ctnts)) (
        Prelude.◌>>=◌ (start_loop cnc.cats lin_idx (new_parsing heap new_parse))
          (λ r. ok (r.1.parse, r.1.heap)))

  -- pgf_parser_parse: `cnccats` is the grammar's map from categories, and `same_pgf` tells whether
  -- the category is of the parser's grammar. A `lin_idx` is a pattern of 32 bits.
  unfoldable pub parser_parse : Heap → List (CId × CncCat) → Bool → CId → ℕ → Run (Parse × Heap)
  unfolding map_get token_eq parse_started
  parser_parse heap cnccats same_pgf c lin_idx =
      Prelude.◌>>◌ (require same_pgf) (parse_started heap lin_idx (map_get token_eq cnccats c))

-- pgf_new_parser: PGF_FID_SYNTHETIC is -999.
abbrev pub new_heap : CCatStore → Heap
new_heap store = record { sets = []; store = store; next_fid = 2 ^ 32 - 999 }
