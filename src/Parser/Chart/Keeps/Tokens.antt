-- ===== src/Parser/Chart/Keeps/Tokens.antt =====
-- The step over a token and the start of a parse of pgf/parser.c keep what the changes of the
-- categories keep.
use libpgf.Prelude.{
  ℕ, zero, suc, ◌+◌, ◌-◌, Bool, true, false, ◌||◌, Option, none, some, List, [], ◌∷◌, ◌++◌, length,
  leb, ◌==◌, ok, abort, fault, stuck, require,
}
use libpgf.Grammar.{Token, CCatId, Symbol, cat, lit, var, ks, kp, Alternative, CCatStore}
use libpgf.Parser.Trees.{deref}
use libpgf.Parser.Chart.{Item, ItemSet, token_eq}
use libpgf.Parser.Chart.Agenda
use libpgf.Parser.Chart.Agenda.{skips}
use libpgf.Parser.Chart.Scan.{
  scan_toks, scan_alts, scan_symbol, scan, scan_loop, scanned_item, start_loop,
}
use libpgf.Parser.Chart.Keeps.{
  Keeps, Grows, Stored, lift-Keeps, bind-Keeps, return-Keeps, option-Keeps, bool-Keeps,
}
use libpgf.Parser.Chart.Keeps.Work.{predict-Keeps}
use libpgf.Parser.Chart.Keeps.Steps.{item-Keeps}

module _ {J : CCatStore → Type 0} (grows : Grows J)
    (enum_next : ItemSet → ℕ → Option (Option Item × ℕ)) (fuel : ℕ) where
  scan_toks-Keeps :
      (old : Item) (tok : Token) (alt : ℕ) (toks : List Token)
      → Keeps (Stored J) (scan_toks enum_next fuel old tok alt toks)
  unfolding scan_toks
  scan_toks-Keeps old tok alt toks = bind-Keeps _ _ (lift-Keeps (deref toks old.tok_idx)) (λ next.
      bool-Keeps (token_eq next tok) _ _
        (bind-Keeps _ _ (lift-Keeps (scanned_item old alt toks))
          (λ item. bind-Keeps _ _ (item-Keeps grows enum_next fuel item) (λ _. return-Keeps true)))
        (return-Keeps false))

  scan_alts-Keeps :
      (item : Item) (tok : Token) (default : List Token) (before alts : List Alternative) (i : ℕ)
      (succ : Bool)
      → Keeps (Stored J) (scan_alts enum_next fuel item tok default before alts i succ)
  unfolding scan_alts
  scan_alts-Keeps item tok default before [] i succ = return-Keeps succ
  scan_alts-Keeps item tok default before (alt ∷ alts) i succ =
      bind-Keeps _ _
        (bool-Keeps (skips default before alt.form) _ _ (return-Keeps succ) (
          bind-Keeps _ _ (scan_toks-Keeps item tok (i + 1) alt.form)
            (λ b. return-Keeps (succ || b))))
        (λ succ'. scan_alts-Keeps item tok default (before ++ alt ∷ []) alts (i + 1) succ')

  scan_symbol-Keeps :
      (item : Item) (tok : Token) (sym : Option Symbol)
      → Keeps (Stored J) (scan_symbol enum_next fuel item tok sym)
  unfolding scan_symbol
  scan_symbol-Keeps item tok none = lift-Keeps abort
  scan_symbol-Keeps item tok (some (cat d r)) = lift-Keeps abort
  scan_symbol-Keeps item tok (some (lit d r)) = lift-Keeps abort
  scan_symbol-Keeps item tok (some (var d r)) = lift-Keeps abort
  scan_symbol-Keeps item tok (some (ks tokens)) = scan_toks-Keeps item tok 0 tokens
  scan_symbol-Keeps item tok (some (kp default alts)) =
      bool-Keeps (item.tok_idx == 0) _ _
        (bind-Keeps _ _ (scan_toks-Keeps item tok 0 default)
          (λ succ. scan_alts-Keeps item tok default [] alts 0 succ))
        (bool-Keeps (item.alt == 0) _ _ (scan_toks-Keeps item tok 0 default) (
          bind-Keeps _ _ (lift-Keeps (require (leb item.alt (length alts)))) (λ _.
            bind-Keeps _ _ (lift-Keeps (deref alts (item.alt - 1)))
              (λ alt. scan_toks-Keeps item tok item.alt alt.form))))

  scan-Keeps : (item : Item) (tok : Token) → Keeps (Stored J) (scan enum_next fuel item tok)
  unfolding scan
  scan-Keeps item tok =
      bind-Keeps _ _ (scan_symbol-Keeps item tok item.curr_sym) (λ succ. lift-Keeps (require succ))

  pub scan_loop-Keeps :
      (rounds : ℕ) (agenda : ItemSet) (i : ℕ) (tok : Token)
      → Keeps (Stored J) (scan_loop enum_next fuel rounds agenda i tok)
  unfolding scan_loop
  scan_loop-Keeps zero agenda i tok = lift-Keeps stuck
  scan_loop-Keeps (suc rounds) agenda i tok =
      option-Keeps (enum_next agenda i) _ _ (return-Keeps tt) (λ e.
        bind-Keeps _ _ (lift-Keeps (elim e.0 [ none ↦ fault | some item ↦ ok item ])) (λ item.
          bind-Keeps _ _ (scan-Keeps item tok) (λ _. scan_loop-Keeps rounds agenda e.1 tok)))

  pub start_loop-Keeps :
      (cats : List (Option CCatId)) (lin_idx : ℕ)
      → Keeps (Stored J) (start_loop enum_next fuel cats lin_idx)
  unfolding start_loop
  start_loop-Keeps [] lin_idx = return-Keeps tt
  start_loop-Keeps (c ∷ cats) lin_idx =
      bind-Keeps _ _
        (option-Keeps c _ _ (return-Keeps tt) (λ ccat.
          predict-Keeps grows enum_next (Agenda.item enum_next fuel)
            (item-Keeps grows enum_next fuel) none ccat lin_idx))
        (λ _. start_loop-Keeps cats lin_idx)
