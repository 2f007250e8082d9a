-- ===== src/Parser/Chart/Keeps/Work.antt =====
-- The work on items keeps what the changes of the categories keep.
use libpgf.Prelude.{ℕ, zero, suc, ◌+◌, Option, none, some, List, [], ◌∷◌, length, set, abort, stuck}
use libpgf.Grammar.{CCatId, Symbol, cat, PArg, Production, null, seq, buf, CCatStore, Productions}
use libpgf.Parser.Trees.{deref}
use libpgf.Parser.Chart.{SetId, Item, ItemSet, set_has}
use libpgf.Parser.Chart.Items.{item_advance}
use libpgf.Parser.Chart.State.{Action, lift, ◌>>=◌}
use libpgf.Parser.Chart.Agenda.{
  combine, combine_at, production, predicted_loop, combine_loop, complete, production_loop,
  predict_from, predict, predict_prods, predicted_production,
}
use libpgf.Parser.Chart.Keeps.{
  Always, Keeps, Grows, Stored, lift-Keeps, bind-Keeps, return-Keeps, option-Keeps, bool-Keeps,
  get_set-Keeps, get_ccat-Keeps, insert_cont-Keeps, get_contss-Keeps, get_conts-Keeps,
  get_completed-Keeps, create_completed-Keeps, push_prod-Keeps,
}

module _ {J : CCatStore → Type 0} (grows : Grows J)
    (enum_next : ItemSet → ℕ → Option (Option Item × ℕ)) where
  module _ (item : Item → Action (Unit {0})) (kept : (i : Item) → Keeps (Stored J) (item i)) where
    combine_at-Keeps :
        (x : Item) (c : CCatId) (sym : Option Symbol)
        → Keeps (Stored J) (combine_at enum_next item x c sym)
    unfolding combine_at
    combine_at-Keeps x c none = lift-Keeps abort
    combine_at-Keeps x c (some (cat d r)) =
        let arg : PArg = record { hypos = []; ccat = c } in
        let moved = item_advance (record x { args = set x.args d arg }) in
        bind-Keeps (lift (deref x.args d)) (λ _. lift moved >>= item) (lift-Keeps _)
          (λ _. bind-Keeps (lift moved) item (lift-Keeps moved) kept)
    combine_at-Keeps x c (some _) = lift-Keeps abort

    pub combine-Keeps :
        (x : Option Item) (c : CCatId) → Keeps (Stored J) (combine enum_next item x c)
    unfolding combine Always
    combine-Keeps none c = record { keeps = λ s i. i }
    combine-Keeps (some x) c = combine_at-Keeps x c x.curr_sym

    production-Keeps :
        (c : CCatId) (lin_idx : ℕ) (prod : Production) (conts : SetId)
        → Keeps (Stored J) (production enum_next item c lin_idx prod conts)
    unfolding production
    production-Keeps c lin_idx prod conts = bind-Keeps _ _ (lift-Keeps _) (λ i. kept i)

    predicted_production-Keeps :
        (c : CCatId) (i : ℕ) (prod : Production) (conts : Option SetId)
        → Keeps (Stored J) (predicted_production enum_next item c i prod conts)
    unfolding predicted_production
    predicted_production-Keeps c i prod none = return-Keeps tt
    predicted_production-Keeps c i prod (some id) = production-Keeps c i prod id

    predicted_loop-Keeps :
        (n i : ℕ) (c : CCatId) (prod : Production)
        → Keeps (Stored J) (predicted_loop enum_next item n i c prod)
    unfolding predicted_loop
    predicted_loop-Keeps zero i c prod = return-Keeps tt
    predicted_loop-Keeps (suc n) i c prod = bind-Keeps _ _ (get_contss-Keeps grows c) (λ contss.
        bind-Keeps _ _ (lift-Keeps _) (λ conts.
          bind-Keeps _ _ (predicted_production-Keeps c i prod conts)
            (λ _. predicted_loop-Keeps n (i + 1) c prod)))

    combine_loop-Keeps :
        (fuel i : ℕ) (conts : SetId) (c : CCatId)
        → Keeps (Stored J) (combine_loop enum_next item fuel i conts c)
    unfolding combine_loop
    combine_loop-Keeps zero i conts c = lift-Keeps stuck
    combine_loop-Keeps (suc fuel) i conts c = bind-Keeps _ _ (get_set-Keeps grows conts) (λ items.
        option-Keeps (enum_next items i) _ _ (return-Keeps tt)
          (λ e. bind-Keeps _ _ (combine-Keeps e.0 c) (λ _. combine_loop-Keeps fuel e.1 conts c)))

    pub complete-Keeps : (fuel : ℕ) (i : Item) → Keeps (Stored J) (complete enum_next item fuel i)
    unfolding complete
    complete-Keeps fuel i = bind-Keeps _ _ (lift-Keeps _) (λ prod.
        bind-Keeps _ _ (get_completed-Keeps grows _) (λ completed.
          option-Keeps completed _ _
            (bind-Keeps _ _ (get_ccat-Keeps grows i.base.ccat) (λ base.
              bind-Keeps _ _ (create_completed-Keeps grows i.base.conts base.cnccat) (λ c.
                bind-Keeps _ _ (push_prod-Keeps grows c prod)
                  (λ _. combine_loop-Keeps fuel 0 i.base.conts c))))
            (λ c. bind-Keeps _ _ (push_prod-Keeps grows c prod) (λ _.
              bind-Keeps _ _ (get_contss-Keeps grows c)
                (λ contss. predicted_loop-Keeps (length contss) 0 c prod)))))

    production_loop-Keeps :
        (prods : List Production) (c : CCatId) (lin_idx : ℕ) (conts : SetId)
        → Keeps (Stored J) (production_loop enum_next item prods c lin_idx conts)
    unfolding production_loop
    production_loop-Keeps [] c lin_idx conts = return-Keeps tt
    production_loop-Keeps (prod ∷ prods) c lin_idx conts =
        bind-Keeps _ _ (production-Keeps c lin_idx prod conts)
          (λ _. production_loop-Keeps prods c lin_idx conts)

    predict_from-Keeps :
        (prods : List Production) (i : Option Item) (c : CCatId) (lin_idx : ℕ)
        → Keeps (Stored J) (predict_from enum_next item prods i c lin_idx)
    unfolding predict_from
    predict_from-Keeps prods i c lin_idx =
        bind-Keeps _ _ (get_conts-Keeps grows c lin_idx) (λ conts.
          bind-Keeps _ _ (get_set-Keeps grows conts) (λ items.
            bind-Keeps _ _
              (bool-Keeps (set_has items i) _ _ (return-Keeps tt) (
                bind-Keeps _ _ (insert_cont-Keeps grows conts i)
                  (λ _. production_loop-Keeps prods c lin_idx conts)))
              (λ _. bind-Keeps _ _ (get_completed-Keeps grows conts) (λ completed.
                option-Keeps completed _ _ (return-Keeps tt) (λ d. combine-Keeps i d)))))

    predict_prods-Keeps :
        (i : Option Item) (c : CCatId) (lin_idx : ℕ) (prods : Productions)
        → Keeps (Stored J) (predict_prods enum_next item prods i c lin_idx)
    unfolding predict_prods
    predict_prods-Keeps i c lin_idx null = return-Keeps tt
    predict_prods-Keeps i c lin_idx (seq prods) = predict_from-Keeps prods i c lin_idx
    predict_prods-Keeps i c lin_idx (buf prods) = predict_from-Keeps prods i c lin_idx

    pub predict-Keeps :
        (i : Option Item) (c : CCatId) (lin_idx : ℕ)
        → Keeps (Stored J) (predict enum_next item i c lin_idx)
    unfolding predict
    predict-Keeps i c lin_idx =
        bind-Keeps _ _ (get_ccat-Keeps grows c) (λ ccat. predict_prods-Keeps i c lin_idx ccat.prods)
