-- ===== src/Linearizer/Loop.antt =====
-- The loop of pgf_lzn_infer_application: tries, and steps back, to the next tree of the application.
use libpgf.Prelude.{
  ℕ, zero, suc, ◌+◌, ◌<◌, ◌≡◌, sym, ◌∙◌, ap, arith, Option, none, some, List, [], ◌∷◌, ◌++◌, length,
  length-append, append_assoc, append-nil, Run, ok, ◌>>=◌, All,
}
use libpgf.Choice.{Choice}
use libpgf.Choice.Tree.{Tree, Fits, rest, after}
use libpgf.Choice.Monad.{Choosing}
use libpgf.Choice.Bind.{IsAt, nones, nones-nones}
use libpgf.Choice.Runs.{started}
use libpgf.Choice.Search.{Seeks}
use libpgf.Expr.{Expr}
use libpgf.Linearizer.{InferMap, Lzr}
use libpgf.Linearizer.Infer.{
  Filled, Filling, infer_apply_try, after_try, resume, application_loop, step_back,
}
use libpgf.Linearizer.Outcomes.{Typed, IsInferMap}
use libpgf.Linearizer.Levels.{
  tree_of, Levels, Levels-drop, Levels-Within, whole, Back, exhausted, resumes, step_back-Back,
}
use mathlib.Core.Path.{subst}
use libpgf.Linearizer.Forward.{coerced, one_try}
use libpgf.Linearizer.Tries.{Tried, success, stopped, try-Tried, try_replays}

-- In a section over an application.
module _ (depth : ℕ) (lzr : Lzr) (go : Expr → Choosing Typed) (infer : InferMap)
    (arg : Expr → Tree Typed) (args : List Expr) (before : List ℕ) where
  abbrev here : List Expr → List Filled → Tree Typed
  here todo filled = tree_of infer arg args before todo filled

  abbrev all : Tree Typed
  all = whole infer arg args before

  -- What the loop comes to where `outcomes` are to come.
  pub data Found (outcomes : List (Option Typed)) (m : Run (Option Typed × Choice)) : Type 0 where
    tree_found :
        (a : Typed) (q : List ℕ) (k : ℕ)
        → IsAt all q (some a)
        → outcomes ≡ nones k ++ some a ∷ after all q
        → m ≡ ok (some a, started (before ++ q) [])
        → Found outcomes m
    no_tree : (k : ℕ) → outcomes ≡ nones k → m ≡ ok (none, started before []) → Found outcomes m

  Found-later :
      (k : ℕ) (outcomes later : List (Option Typed)) (m m' : Run (Option Typed × Choice))
      → outcomes ≡ nones k ++ later
      → m ≡ m'
      → Found later m'
      → Found outcomes m
  Found-later k outcomes later m m' e same (tree_found a q k' at e' run_is) =
      tree_found a q (k + k') at
        (e ∙ ap (λ l. nones k ++ l) e' ∙ nones-nones k k' (some a ∷ after all q)) (same ∙ run_is)
  Found-later k outcomes later m m' e same (no_tree k' e' run_is) =
      no_tree (k + k')
        (e
          ∙ ap (λ l. nones k ++ l) (e' ∙ sym (append-nil (nones k')))
          ∙ nones-nones k k' []
          ∙ append-nil (nones (k + k')))
        (same ∙ run_is)

  -- The try of the arguments that are left.
  apply_try_is :
      (st : Filling) (todo : List Expr) (path : List ℕ) (pending : List (Option Typed))
      (ch : Choice)
      → Levels infer arg args before st.filled todo path pending
      → infer_apply_try depth lzr go infer args st ch ≡ one_try depth lzr go infer todo st ch
  unfolding infer_apply_try one_try
  apply_try_is st todo path pending ch lv =
      ap (λ l. one_try depth lzr go infer l st ch)
        (Levels-drop infer arg args before st.filled todo path pending lv)

  -- An end of what is left ends the loop.
  success-Found :
      (st : Filling) (todo : List Expr) (path p : List ℕ) (pending : List (Option Typed))
      (a : Typed) (q : List ℕ) (k : ℕ) (m : Run (Option Typed × Choice))
      → Levels infer arg args before st.filled todo path pending
      → IsAt (here todo st.filled) q (some a)
      → rest (here todo st.filled) p ≡ nones k ++ some a ∷ after (here todo st.filled) q
      → m ≡ ok (some a, started (path ++ q) [])
      → Found (rest (here todo st.filled) p ++ pending) m
  success-Found st todo path p pending a q k m lv at e run_is =
      let w = Levels-Within infer arg args before st.filled todo path pending lv in
      let (end, behind) = w.end_is q (some a) at in
      tree_found a (w.through ++ q) k end
        (ap (λ l. l ++ pending) e
          ∙ append_assoc (nones k) (some a ∷ after (here todo st.filled) q) pending
          ∙ ap (λ l. nones k ++ some a ∷ l) (sym behind))
        (run_is
          ∙ ap (λ l. ok (some a, started l []))
              (ap (λ l. l ++ q) w.path_is ∙ append_assoc before w.through q))

  shorter :
      (k rounds : ℕ) (outcomes later : List (Option Typed))
      → outcomes ≡ nones (suc k) ++ later
      → length outcomes < suc rounds
      → length later < rounds
  shorter k rounds outcomes later e lt =
      omega (arith, ap length e, length-append (nones {A = Typed} (suc k)) later)

  abbrev AreFound : ℕ → Type 0
  AreFound rounds =
      (todo : List Expr) (st : Filling) (path p : List ℕ) (pending : List (Option Typed))
      → Levels infer arg args before st.filled todo path pending
      → st.mark ≡ length path
      → Fits (here todo st.filled) p
      → length (rest (here todo st.filled) p ++ pending) < rounds
      → Found (rest (here todo st.filled) p ++ pending)
          (application_loop rounds depth lzr go infer args st (started path p))

  -- After the steps back.
  back-Found :
      (rounds : ℕ) (behind : List (Option Typed)) (m : Run (Option Filling × Choice))
      → AreFound rounds
      → length behind < rounds
      → Back infer arg args before behind m
      → Found behind (m >>= λ s. resume (application_loop rounds depth lzr go infer args) s.0 s.1)
  unfolding resume
  back-Found rounds behind m again lt (exhausted run_is none_left) =
      no_tree 0 none_left (
        ap (λ r. r >>= λ s. resume (application_loop rounds depth lzr go infer args) s.0 s.1)
          run_is)
  back-Found rounds behind m again lt (resumes st todo path p behind' lv mk fit e run_is) =
      Found-later 0 behind (rest (here todo st.filled) p ++ behind') _ _ e
        (ap (λ r. r >>= λ s. resume (application_loop rounds depth lzr go infer args) s.0 s.1)
          run_is)
        (again todo st path p behind' lv mk fit (omega (arith, ap length e)))

  tried-Found :
      (rounds : ℕ) (todo : List Expr) (st : Filling) (path p : List ℕ)
      (pending : List (Option Typed)) (m : Run ((Option Typed × Filling) × Choice))
      → AreFound rounds
      → Levels infer arg args before st.filled todo path pending
      → length (rest (here todo st.filled) p ++ pending) < suc rounds
      → Tried depth lzr go infer arg args before (here todo st.filled) path p pending m
      → Found
          (rest (here todo st.filled) p ++ pending)
          (m >>= λ r. after_try (application_loop rounds depth lzr go infer args) r.0.0 r.0.1 r.1)
  unfolding after_try
  tried-Found rounds todo st path p pending m again lv lt (success st' a q k at e run_is) =
      success-Found st todo path p pending a q k _ lv at e (
        ap
          (λ x.
            x >>= λ r. after_try (application_loop rounds depth lzr go infer args) r.0.0 r.0.1 r.1)
          run_is)
  tried-Found rounds todo st path p pending m again lv lt
        (stopped st' todo' path' behind k lv' e run_is) =
      Found-later (suc k) _ behind _ _ e
        (ap
          (λ x.
            x >>= λ r. after_try (application_loop rounds depth lzr go infer args) r.0.0 r.0.1 r.1)
          run_is)
        (back-Found rounds behind (step_back st'.filled (started path' [])) again
          (shorter k rounds _ behind e lt)
          (step_back-Back infer arg args before st'.filled todo' path' behind lv'))

  pub loop-Found :
      (rounds : ℕ)
      → IsInferMap infer
      → ((todo : List Expr) (st : Filling) (path : List ℕ) (pending : List (Option Typed))
          → Levels infer arg args before st.filled todo path pending
          → All (λ e. Seeks (arg e) (coerced depth lzr go e)) todo)
      → AreFound rounds
  unfolding application_loop
  loop-Found zero entries calls todo st path p pending lv mk fit lt = absurd (omega arith)
  loop-Found (suc rounds) entries calls todo st path p pending lv mk fit lt =
      subst
        (λ x.
          Found (rest (here todo st.filled) p ++ pending) (
            x >>= λ r. after_try (application_loop rounds depth lzr go infer args) r.0.0 r.0.1 r.1))
        (sym (apply_try_is st todo path pending (started path p) lv))
        (tried-Found rounds todo st path p pending _ (loop-Found rounds entries calls) lv lt (
          try-Tried depth lzr go infer arg args before todo entries (calls todo st path pending lv)
            st path p pending lv mk fit))

  -- Led to an end of the whole application, with more path behind it.
  pub loop_replays :
      (rounds : ℕ) (q p : List ℕ) (a : Typed)
      → 0 < rounds
      → IsInferMap infer
      → All (λ e. Seeks (arg e) (coerced depth lzr go e)) args
      → IsAt all q (some a)
      → application_loop rounds depth lzr go infer args
          (record { mark = length before; filled = [] })
          (started before (q ++ p))
        ≡ ok (some a, started (before ++ q) p)
  unfolding application_loop infer_apply_try after_try one_try
  loop_replays zero q p a lt entries calls at = absurd (omega arith)
  loop_replays (suc rounds) q p a lt entries calls at =
      let st : Filling = record { mark = length before; filled = [] } in
      let (st', run_is) =
        try_replays depth lzr go infer arg args before args st before q p a entries calls at in
      ap
        (λ x.
          x >>= λ r. after_try (application_loop rounds depth lzr go infer args) r.0.0 r.0.1 r.1)
        run_is
