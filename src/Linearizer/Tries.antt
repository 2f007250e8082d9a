-- ===== src/Linearizer/Tries.antt =====
-- What a try comes to: an end of what is left of the application, or arguments to step back through.
use libpgf.Prelude.{
  ℕ, suc, ◌+◌, ◌≡◌, refl, sym, ◌∙◌, ap, arith, Option, none, some, List, [], ◌∷◌, ◌++◌, length,
  append_assoc, Run, ok, ◌>>=◌, All,
}
use libpgf.Choice.{Choice}
use libpgf.Choice.Tree.{Tree, Fits, rest, after}
use libpgf.Choice.Monad.{Choosing}
use libpgf.Choice.Bind.{IsAt, nones, expand, IsAt-behind, after-behind, ends, nones-nones}
use libpgf.Choice.Runs.{started, mark_started}
use libpgf.Choice.Search.{Search, hit, miss, Seeks, Step, goes, dead}
use libpgf.Choice.Chain.{step}
use libpgf.Expr.{Expr}
use libpgf.Linearizer.{InferMap, Lzr, no_trees}
use libpgf.Linearizer.Infer.{Filled, Filling}
use libpgf.Linearizer.Outcomes.{Typed, args_tree, typed_cats, typed_trees, IsInferMap}
use libpgf.Linearizer.Levels.{unmarked, tree_of, follow, Levels}
use mathlib.Core.Path.{subst}
use libpgf.Linearizer.Entries.{entries_for-Seeks}
use libpgf.Linearizer.Forward.{coerced, put, one_try, try-some, try-none, try-nil}

-- In a section over an application.
module _ (depth : ℕ) (lzr : Lzr) (go : Expr → Choosing Typed) (infer : InferMap)
    (arg : Expr → Tree Typed) (args : List Expr) (before : List ℕ) where
  abbrev pub left : List Expr → List Filled → Tree Typed
  left todo filled = tree_of infer arg args before todo filled

  -- From the path `p` in what is left, with `pending` behind.
  pub data Tried (t : Tree Typed) (path p : List ℕ) (pending : List (Option Typed))
      (m : Run ((Option Typed × Filling) × Choice)) : Type 0 where
    success :
        (st : Filling) (a : Typed) (q : List ℕ) (k : ℕ)
        → IsAt t q (some a)
        → rest t p ≡ nones k ++ some a ∷ after t q
        → m ≡ ok ((some a, st), started (path ++ q) [])
        → Tried t path p pending m
    stopped :
        (st : Filling) (todo : List Expr) (path' : List ℕ) (behind : List (Option Typed)) (k : ℕ)
        → Levels infer arg args before st.filled todo path' behind
        → rest t p ++ pending ≡ nones (suc k) ++ behind
        → m ≡ ok ((none, st), started path' [])
        → Tried t path p pending m

  -- All arguments are filled.
  entry-Tried :
      (st : Filling) (path p : List ℕ) (pending : List (Option Typed))
      (m : Run (Option Typed × Choice))
      → Levels infer arg args before st.filled [] path pending
      → Search (left [] st.filled) path p m
      → Tried (left [] st.filled) path p pending (m >>= λ s. ok ((s.0, st), s.1))
  entry-Tried st path p pending m lv (hit a q k at e run_is) =
      success st a q k at e (ap (λ r. r >>= λ s. ok ((s.0, st), s.1)) run_is)
  entry-Tried st path p pending m lv (miss k e run_is) =
      stopped st [] path pending k lv (ap (λ l. l ++ pending) e)
        (ap (λ r. r >>= λ s. ok ((s.0, st), s.1)) run_is)

  -- An argument is filled, and then the others are tried.
  next-Tried :
      (todo : List Expr) (e : Expr) (st : Filling) (path p : List ℕ) (pending : List (Option Typed))
      (a : Typed) (q p' : List ℕ) (k : ℕ) (m m' : Run ((Option Typed × Filling) × Choice))
      → IsAt (arg e) q (some a)
      → rest (left (e ∷ todo) st.filled) p
        ≡ nones k
          ++ (rest (follow infer arg args before todo st.filled a) p'
              ++ expand (follow infer arg args before todo st.filled) (after (arg e) q))
      → m ≡ m'
      → Tried
          (follow infer arg args before todo st.filled a)
          (path ++ q)
          p'
          (expand (follow infer arg args before todo st.filled) (after (arg e) q) ++ pending)
          m'
      → Tried (left (e ∷ todo) st.filled) path p pending m
  unfolding args_tree
  next-Tried todo e st path p pending a q p' k m m' at rest_is same
        (success st' b q' k' at' e' run_is) =
      let g = follow infer arg args before todo st.filled in
      success st' b (q ++ q') (k + k') (IsAt-behind g a (arg e) q q' (some b) at at')
        (rest_is
          ∙ ap (λ l. nones k ++ (l ++ expand g (after (arg e) q))) e'
          ∙ ap (λ l. nones k ++ l)
              (append_assoc (nones k') (some b ∷ after (g a) q') (expand g (after (arg e) q)))
          ∙ nones-nones k k' (some b ∷ (after (g a) q' ++ expand g (after (arg e) q)))
          ∙ ap (λ l. nones (k + k') ++ some b ∷ l)
              (sym (after-behind g a (arg e) q q' (some b) at at')))
        (same ∙ run_is ∙ ap (λ l. ok ((some b, st'), started l [])) (append_assoc path q q'))
  next-Tried todo e st path p pending a q p' k m m' at rest_is same
        (stopped st' todo' path' behind k' lv e' run_is) =
      let g = follow infer arg args before todo st.filled in
      let more = expand g (after (arg e) q) in
      stopped st' todo' path' behind (k + k') lv
        (ap (λ l. l ++ pending) rest_is
          ∙ append_assoc (nones k) (rest (g a) p' ++ more) pending
          ∙ ap (λ l. nones k ++ l) (append_assoc (rest (g a) p') more pending ∙ e')
          ∙ nones-nones k (suc k') behind
          ∙ ap (λ n. nones n ++ behind) {x = k + suc k'} {y = suc (k + k')} (omega arith))
        (same ∙ run_is)

  -- The tries of the arguments that are left.
  abbrev AreTried : List Expr → Type 0
  AreTried todo =
      (st : Filling) (path p : List ℕ) (pending : List (Option Typed))
      → Levels infer arg args before st.filled todo path pending
      → st.mark ≡ length path
      → Fits (left todo st.filled) p
      → Tried (left todo st.filled) path p pending
          (one_try depth lzr go infer todo st (started path p))

  Step-Tried :
      (todo : List Expr) (e : Expr) (st : Filling) (path p : List ℕ) (pending : List (Option Typed))
      → AreTried todo
      → Levels infer arg args before st.filled (e ∷ todo) path pending
      → st.mark ≡ length path
      → Step
          (arg e)
          (follow infer arg args before todo st.filled)
          path
          p
          (coerced depth lzr go e (started path p))
      → Tried
          (left (e ∷ todo) st.filled)
          path
          p
          pending
          (one_try depth lzr go infer (e ∷ todo) st (started path p))
  unfolding args_tree
  Step-Tried todo e st path p pending others lv mk (goes a q p' k run_is at fit rest_is) =
      let st' = put st (length (path ++ q)) a in
      let more = expand (follow infer arg args before todo st.filled) (after (arg e) q) in
      next-Tried todo e st path p pending a q p' k _ _ at rest_is
        (try-some depth lzr go infer e todo st (started path p) (started (path ++ q) p') a
          (length (path ++ q)) run_is (mark_started (path ++ q) p'))
        (others st' (path ++ q) p' (more ++ pending) (e, path, q, pending, lv, mk, at, refl, refl)
          refl fit)
  Step-Tried todo e st path p pending others lv mk (dead k run_is rest_is) =
      stopped st (e ∷ todo) path pending k lv (ap (λ l. l ++ pending) rest_is)
        (try-none depth lzr go infer e todo st (started path p) (started path []) run_is)

  pub try-Tried :
      (todo : List Expr)
      → IsInferMap infer
      → All (λ e. Seeks (arg e) (coerced depth lzr go e)) todo
      → AreTried todo
  unfolding args_tree
  try-Tried [] entries calls st path p pending lv mk fit =
      let cats = typed_cats (unmarked st.filled) [] in
      let trees = typed_trees (unmarked st.filled) no_trees in
      subst (Tried (left [] st.filled) path p pending)
        (sym (try-nil depth lzr go infer st (started path p)))
        (entry-Tried st path p pending _ lv
          ((entries_for-Seeks infer cats trees entries).finds path p fit))
  try-Tried (e ∷ todo) entries calls st path p pending lv mk fit =
      Step-Tried todo e st path p pending (try-Tried todo entries calls.1) lv mk (
        step (arg e) (follow infer arg args before todo st.filled) (coerced depth lzr go e) path p
          calls.0 fit)

  -- Led to an end, with more path behind it.
  pub try_replays :
      (todo : List Expr) (st : Filling) (path q p : List ℕ) (a : Typed)
      → IsInferMap infer
      → All (λ e. Seeks (arg e) (coerced depth lzr go e)) todo
      → IsAt (left todo st.filled) q (some a)
      → (st' : Filling) × (one_try depth lzr go infer todo st (started path (q ++ p))
          ≡ ok ((some a, st'), started (path ++ q) p))
  unfolding args_tree
  try_replays [] st path q p a entries calls at =
      let cats = typed_cats (unmarked st.filled) [] in
      let trees = typed_trees (unmarked st.filled) no_trees in
      (
        st,
        try-nil depth lzr go infer st (started path (q ++ p))
            ∙ ap (λ r. r >>= λ s. ok ((s.0, st), s.1))
                ((entries_for-Seeks infer cats trees entries).replays path q p a at),
      )
  try_replays (e ∷ todo) st path q p a entries calls at =
      let (q1, q2, b, split_is, at1, at2) =
        ends (follow infer arg args before todo st.filled) (arg e) q a at in
      let mid = length (path ++ q1) in
      let (st', run_is) = try_replays todo (put st mid b) (path ++ q1) q2 p a entries calls.1 at2 in
      (
        st',
        ap (λ l. one_try depth lzr go infer (e ∷ todo) st (started path l))
              (ap (λ l. l ++ p) split_is ∙ append_assoc q1 q2 p)
            ∙ try-some depth lzr go infer e todo st (started path (q1 ++ (q2 ++ p)))
                (started (path ++ q1) (q2 ++ p)) b mid (calls.0.replays path q1 (q2 ++ p) b at1)
                (mark_started (path ++ q1) (q2 ++ p))
            ∙ run_is
            ∙ ap (λ l. ok ((some a, st'), started l p))
                (append_assoc path q1 q2 ∙ ap (λ l. path ++ l) (sym split_is)),
      )
