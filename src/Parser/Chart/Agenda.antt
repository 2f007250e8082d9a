-- ===== src/Parser/Chart/Agenda.antt =====
-- The work on one item: pgf_parsing_combine to pgf_parsing_item of pgf/parser.c. The recursion of
-- the program goes through pgf_parsing_item, which is the parameter `item` of the other functions.
use libpgf.Prelude.{
  ℕ, zero, suc, ◌+◌, ◌-◌, Bool, true, false, ◌||◌, Option, none, some, List, [], ◌∷◌, ◌++◌, length,
  set, leb, ◌==◌, Run, ok, abort, fault, stuck, require,
}
use libpgf.Grammar.{
  Token, CCatId, Symbol, cat, lit, var, ks, kp, Alternative, PArg, Production, apply, coerce,
  Productions, null, seq, buf,
}
use libpgf.Parser.Trees.{deref, is_empty}
use libpgf.Parser.Chart.{SetId, Item, ItemSet, tokens_eq, set_has, set_insert}
use libpgf.Parser.Chart.Items.{new_item, item_advance}
use libpgf.Parser.Chart.State.{
  Action, done, lift, ◌>>=◌, ◌>>◌, get_set, get_ccat, insert_cont, add_transition, get_contss,
  get_conts, create_completed, get_completed, push_prod,
}

-- The test that spares an alternative with the form of the default or of one before it.
unfoldable pub skips : List Token → List Alternative → List Token → Bool
unfolding tokens_eq
skips default [] toks = tokens_eq toks default
skips default (alt ∷ before) toks = skips default before toks || tokens_eq toks alt.form

-- `enum_next set i` is what gu_map_enum_next gives at the slot `i` of the table of a set, with the
-- next slot: the order is that of the hash table.
module _ (enum_next : ItemSet → ℕ → Option (Option Item × ℕ)) where
  module _ (item : Item → Action (Unit {0})) where
    -- The item behind the category `c`, where its symbol is an argument.
    unfoldable pub combine_at : Item → CCatId → Option Symbol → Action (Unit {0})
    unfolding item_advance
    combine_at cont c (some (cat d r)) = do
      _ ← lift (deref cont.args d)
      let arg : PArg = record { hypos = []; ccat = c }
      i ← lift (item_advance (record cont { args = set cont.args d arg }))
      item i
    combine_at cont c _ = lift abort

    unfoldable pub combine : Option Item → CCatId → Action (Unit {0})
    unfolding combine_at
    combine none c = λ s.
        ok (tt, record s { parse = record (s.parse) { completed = s.parse.completed ++ c ∷ [] } })
    combine (some cont) c = combine_at cont c cont.curr_sym

    unfoldable pub production : CCatId → ℕ → Production → SetId → Action (Unit {0})
    unfolding new_item
    production c lin_idx prod conts = do
      i ← lift (new_item (record { conts = conts; ccat = c; prod = prod; lin_idx = lin_idx }))
      item i

    -- The production of an item whose dot is at the end.
    unfoldable pub completed_production : Item → Run Production
    completed_production i = elim (i.base.prod) [
      | apply f args ↦ ok (apply f i.args)
      | coerce c ↦ elim (i.args) [
        | [] ↦ fault
        | a ∷ args ↦ elim (is_empty a.hypos) [ true ↦ ok (coerce a.ccat) | false ↦ abort ]
      ]
    ]

    unfoldable pub predicted_production : CCatId → ℕ → Production → Option SetId → Action (Unit {0})
    unfolding production
    predicted_production c i prod none = done
    predicted_production c i prod (some conts2) = production c i prod conts2

    -- The loop over the indices of a completed category that have been predicted, from the index
    -- `i`, with `n` to go.
    unfoldable pub predicted_loop : ℕ → ℕ → CCatId → Production → Action (Unit {0})
    unfolding predicted_production get_contss
    predicted_loop zero i c prod = done
    predicted_loop (suc n) i c prod = do
      contss ← get_contss c
      conts2 ← lift (deref contss i)
      predicted_production c i prod conts2
      predicted_loop n (i + 1) c prod

    -- `while (gu_enum_next(cenum, &cont))`: the set may grow meanwhile.
    unfoldable pub combine_loop : ℕ → ℕ → SetId → CCatId → Action (Unit {0})
    unfolding combine get_set
    combine_loop zero i conts c = lift stuck
    combine_loop (suc fuel) i conts c = do
      items ← get_set conts
      elim (enum_next items i) [
        | none ↦ done
        | some e ↦ combine e.0 c >> combine_loop fuel e.1 conts c
      ]

    unfoldable pub complete : ℕ → Item → Action (Unit {0})
    unfolding completed_production predicted_loop combine_loop get_completed push_prod get_contss
        get_ccat create_completed
    complete fuel i = do
      prod ← lift (completed_production i)
      completed ← get_completed i.base.conts
      elim (completed) [
        | some c ↦ do
          push_prod c prod
          contss ← get_contss c
          predicted_loop (length contss) 0 c prod
        | none ↦ do
          base ← get_ccat i.base.ccat
          c ← create_completed i.base.conts base.cnccat
          push_prod c prod
          combine_loop fuel 0 i.base.conts c
      ]

    unfoldable pub production_loop : List Production → CCatId → ℕ → SetId → Action (Unit {0})
    unfolding production
    production_loop [] c lin_idx conts = done
    production_loop (prod ∷ prods) c lin_idx conts = do
      production c lin_idx prod conts
      production_loop prods c lin_idx conts

    -- Where the category is not null.
    unfoldable pub predict_from : List Production → Option Item → CCatId → ℕ → Action (Unit {0})
    unfolding get_conts get_set set_has insert_cont production_loop get_completed combine
    predict_from prods i c lin_idx = do
      conts ← get_conts c lin_idx
      items ← get_set conts
      elim (set_has items i) [
        | true ↦ done
        | false ↦ insert_cont conts i >> production_loop prods c lin_idx conts
      ]
      completed ← get_completed conts
      elim (completed) [ none ↦ done | some d ↦ combine i d ]

    unfoldable pub predict_prods : Productions → Option Item → CCatId → ℕ → Action (Unit {0})
    unfolding predict_from
    predict_prods null i c lin_idx = done
    predict_prods (seq prods) i c lin_idx = predict_from prods i c lin_idx
    predict_prods (buf prods) i c lin_idx = predict_from prods i c lin_idx

    unfoldable pub predict : Option Item → CCatId → ℕ → Action (Unit {0})
    unfolding get_ccat predict_prods
    predict i c lin_idx = do ccat ← get_ccat c; predict_prods ccat.prods i c lin_idx

    unfoldable pub alts_loop :
        Item → List Token → List Alternative → List Alternative → Action (Unit {0})
    unfolding skips add_transition
    alts_loop i default before [] = done
    alts_loop i default before (alt ∷ alts) = do
      elim (skips default before alt.form) [
        | true ↦ done
        | false ↦ lift (deref alt.form 0) >>= λ tok. add_transition tok i
      ]
      alts_loop i default (before ++ alt ∷ []) alts

    unfoldable pub symbol : Item → Symbol → Action (Unit {0})
    unfolding predict add_transition alts_loop
    symbol i (cat d r) = do
      parg ← lift (deref i.args d)
      lift (require (is_empty parg.hypos))
      predict (some i) parg.ccat r
    symbol i (ks tokens) = lift (deref tokens i.tok_idx) >>= λ tok. add_transition tok i
    symbol i (kp default alts) = elim (i.tok_idx == 0) [
      | true ↦ do tok ← lift (deref default 0); add_transition tok i; alts_loop i default [] alts
      | false ↦ elim (i.alt == 0) [
        | true ↦ lift (deref default i.tok_idx) >>= λ tok. add_transition tok i
        | false ↦ do
          lift (require (leb i.alt (length alts)))
          alt ← lift (deref alts (i.alt - 1))
          tok ← lift (deref alt.form i.tok_idx)
          add_transition tok i
      ]
    ]
    symbol i (lit d r) = done
    symbol i (var d r) = done

    -- A coercion has its dot at 0 or at 1.
    unfoldable pub coerce_at : ℕ → Item → CCatId → ℕ → Action (Unit {0})
    unfolding complete predict
    coerce_at fuel i c zero = predict (some i) c i.base.lin_idx
    coerce_at fuel i c (suc zero) = complete fuel i
    coerce_at fuel i c (suc (suc n)) = lift abort

    -- The work on an item by its production.
    unfoldable pub dispatch : ℕ → Item → Production → Action (Unit {0})
    unfolding complete symbol coerce_at
    dispatch fuel i (apply f args) = do
      syms ← lift (deref f.lins i.base.lin_idx)
      elim (i.seq_idx == length syms) [
        | true ↦ complete fuel i
        | false ↦ lift (deref syms i.seq_idx) >>= λ sym. symbol i sym
      ]
    dispatch fuel i (coerce c) = coerce_at fuel i c i.seq_idx

    unfoldable pub unseen_item : ℕ → Item → Bool → Action (Unit {0})
    unfolding set_insert dispatch
    unseen_item fuel i true = done
    unseen_item fuel i false = λ s.
        dispatch fuel i i.base.prod (record s { seen_items = set_insert s.seen_items (some i) })

  -- The fuel bounds the depth of the calls, and the rounds of the loop over a set in each.
  unfoldable pub item : ℕ → Item → Action (Unit {0})
  unfolding set_has unseen_item
  item zero i = lift stuck
  item (suc fuel) i = λ s. unseen_item (item fuel) fuel i (set_has s.seen_items (some i)) s
