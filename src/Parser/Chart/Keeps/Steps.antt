-- ===== src/Parser/Chart/Keeps/Steps.antt =====
-- The work on a symbol, on an item and on a token of pgf/parser.c keeps what the changes of the
-- categories keep.
use libpgf.Prelude.{
  ℕ, zero, suc, ◌-◌, Bool, true, false, Option, some, List, [], ◌∷◌, ◌++◌, length, leb, ◌==◌, abort,
  stuck, require,
}
use libpgf.Grammar.{
  Token, CCatId, Symbol, cat, lit, var, ks, kp, Alternative, Production, apply, coerce, CCatStore,
}
use libpgf.Parser.Trees.{deref, is_empty}
use libpgf.Parser.Chart.{Item, ItemSet, Parsing, set_has, set_insert}
use libpgf.Parser.Chart.State.{Action, lift, ◌>>=◌, add_transition}
use libpgf.Parser.Chart.Agenda
use libpgf.Parser.Chart.Agenda.{
  alts_loop, symbol, dispatch, skips, predict, complete, coerce_at, unseen_item,
}
use libpgf.Parser.Chart.Keeps.{
  Always, Keeps, Grows, Stored, lift-Keeps, bind-Keeps, return-Keeps, bool-Keeps,
  add_transition-Keeps,
}
use libpgf.Parser.Chart.Keeps.Work.{predict-Keeps, complete-Keeps}

module _ {J : CCatStore → Type 0} (grows : Grows J)
    (enum_next : ItemSet → ℕ → Option (Option Item × ℕ)) where
  module _ (item : Item → Action (Unit {0})) (kept : (i : Item) → Keeps (Stored J) (item i)) where
    token-Keeps :
        (i : Item) (toks : List Token) (n : ℕ)
        → Keeps (Stored J) (lift (deref toks n) >>= λ tok. add_transition tok i)
    token-Keeps i toks n = bind-Keeps _ _ (lift-Keeps _) (λ tok. add_transition-Keeps grows tok i)

    alts_loop-Keeps :
        (i : Item) (default : List Token) (before alts : List Alternative)
        → Keeps (Stored J) (alts_loop enum_next item i default before alts)
    unfolding alts_loop
    alts_loop-Keeps i default before [] = return-Keeps tt
    alts_loop-Keeps i default before (alt ∷ alts) =
        bind-Keeps _ _
          (bool-Keeps (skips default before alt.form) _ _ (return-Keeps tt)
            (token-Keeps i alt.form 0))
          (λ _. alts_loop-Keeps i default (before ++ alt ∷ []) alts)

    symbol-Keeps : (i : Item) (sym : Symbol) → Keeps (Stored J) (symbol enum_next item i sym)
    unfolding symbol
    symbol-Keeps i (cat d r) = bind-Keeps _ _ (lift-Keeps (deref i.args d)) (λ parg.
        bind-Keeps _ _ (lift-Keeps (require (is_empty parg.hypos)))
          (λ _. predict-Keeps grows enum_next item kept (some i) parg.ccat r))
    symbol-Keeps i (ks tokens) = token-Keeps i tokens i.tok_idx
    symbol-Keeps i (kp default alts) =
        bool-Keeps (i.tok_idx == 0) _ _
          (bind-Keeps _ _ (lift-Keeps (deref default 0)) (λ tok.
            bind-Keeps _ _ (add_transition-Keeps grows tok i)
              (λ _. alts_loop-Keeps i default [] alts)))
          (bool-Keeps (i.alt == 0) _ _ (token-Keeps i default i.tok_idx) (
            bind-Keeps _ _ (lift-Keeps (require (leb i.alt (length alts)))) (λ _.
              bind-Keeps _ _ (lift-Keeps (deref alts (i.alt - 1)))
                (λ alt. token-Keeps i alt.form i.tok_idx))))
    symbol-Keeps i (lit d r) = return-Keeps tt
    symbol-Keeps i (var d r) = return-Keeps tt

    coerce_at-Keeps :
        (fuel : ℕ) (i : Item) (c : CCatId) (n : ℕ)
        → Keeps (Stored J) (coerce_at enum_next item fuel i c n)
    unfolding coerce_at
    coerce_at-Keeps fuel i c zero =
        predict-Keeps grows enum_next item kept (some i) c i.base.lin_idx
    coerce_at-Keeps fuel i c (suc zero) = complete-Keeps grows enum_next item kept fuel i
    coerce_at-Keeps fuel i c (suc (suc n)) = lift-Keeps abort

    pub dispatch-Keeps :
        (fuel : ℕ) (i : Item) (prod : Production)
        → Keeps (Stored J) (dispatch enum_next item fuel i prod)
    unfolding dispatch
    dispatch-Keeps fuel i (apply f args) =
        bind-Keeps _ _ (lift-Keeps (deref f.lins i.base.lin_idx)) (λ syms.
          bool-Keeps (i.seq_idx == length syms) _ _
            (complete-Keeps grows enum_next item kept fuel i)
            (bind-Keeps _ _ (lift-Keeps (deref syms i.seq_idx)) (λ sym. symbol-Keeps i sym)))
    dispatch-Keeps fuel i (coerce c) = coerce_at-Keeps fuel i c i.seq_idx

  unseen_item-Always :
      (fuel : ℕ) (i : Item) (s : Parsing) (seen : Bool)
      → Keeps (Stored J) (dispatch enum_next (Agenda.item enum_next fuel) fuel i i.base.prod)
      → Stored J s
      → Always (Stored J) (unseen_item enum_next (Agenda.item enum_next fuel) fuel i seen s)
  unfolding Agenda.unseen_item Always
  unseen_item-Always fuel i s true k h = h
  unseen_item-Always fuel i s false k h =
      k.keeps (record s { seen_items = set_insert s.seen_items (some i) }) h

  pub item-Keeps : (fuel : ℕ) (i : Item) → Keeps (Stored J) (Agenda.item enum_next fuel i)
  unfolding Agenda.item
  item-Keeps zero i = lift-Keeps stuck
  item-Keeps (suc fuel) i = record {
    keeps = λ s.
        unseen_item-Always fuel i s (set_has s.seen_items (some i))
          (dispatch-Keeps (Agenda.item enum_next fuel) (item-Keeps fuel) fuel i i.base.prod);
  }
