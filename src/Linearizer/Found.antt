-- ===== src/Linearizer/Found.antt =====
-- pgf_lzn_infer goes to the next of the trees of an expression.
use libpgf.Prelude.{
  ℕ, zero, suc, ◌≤◌, ◌<◌, ◌≡◌, refl, sym, ◌∙◌, ap, arith, Option, none, some, List, [], ◌∷◌, ◌++◌,
  length, drop, append-nil, inl, inr, Run, ok, ◌>>=◌, All,
}
use libpgf.Choice.{Choice}
use libpgf.Choice.Tree.{Tree, run, Fits, rest, leaves, rest-complete}
use libpgf.Choice.Monad.{Choosing}
use libpgf.Choice.Runs.{started, mark_started}
use libpgf.Choice.Search.{Search, hit, miss, Seeks, live-Seeks, dead-Seeks, length-rest}
use libpgf.Expr.{CId, Expr}
use libpgf.Expr.Unapply.{
  Spine, head, snoc, under_impl, under_type, unwrap, unapply-Spine, Application,
}
use libpgf.Grammar.{CCatId}
use libpgf.Parser.Chart.State.{map_get}
use libpgf.Linearizer.{InferMap, Lzr}
use libpgf.Linearizer.Infer.{
  Filling, infer_with, infer_application, infer_appl, infer_other, infer, LiteralCats,
}
use libpgf.Linearizer.Outcomes.{
  Typed, args_tree, IsInferMap, appl_tree, other_tree, parts_tree, arg_tree, super_tree, infer_tree,
  IsSearchable, height, args_in, AreEnough,
}
use libpgf.Linearizer.Climb.{map_get-All}
use libpgf.Linearizer.Levels.{Levels, Levels-drop}
use mathlib.Core.Path.{subst}
use libpgf.Linearizer.Forward.{coerced}
use libpgf.Linearizer.Climb.{super_tree-IsLive, pick_supercat-Follows}
use libpgf.Choice.Chain.{bind-Seeks}
use libpgf.Parser.Chart.{token_eq}
use libpgf.Linearizer.Keys.{token_eq-IsLawful}
use libpgf.Linearizer.Forward.{pick_with}
use libpgf.Linearizer.Loop.{Found, tree_found, no_tree, loop-Found, loop_replays}

All-snoc : (P : Expr → Type 0) (xs : List Expr) (a : Expr) → All P xs → P a → All P (xs ++ a ∷ [])
All-snoc P [] a h k = (k, tt)
All-snoc P (x ∷ xs) a h k = (h.0, All-snoc P xs a h.1 k)

pub Spine-height :
    {e : Expr} {c : CId} {args : List Expr}
    → Spine e c args
    → (b : ℕ) → height e ≤ b
    → All (λ a. height a < b) args
unfolding height
Spine-height (head c) b h = tt
Spine-height (snoc {args = args} a s) b h =
    All-snoc (λ x. height x < b) args a (Spine-height s b (omega arith)) (omega arith)
Spine-height (under_impl s) b h = Spine-height s b h
Spine-height (under_type t s) b h = Spine-height s b h

All-map : (P Q : Expr → Type 0) (xs : List Expr) → ((x : Expr) → P x → Q x) → All P xs → All Q xs
All-map P Q [] f h = tt
All-map P Q (x ∷ xs) f h = (f x h.0, All-map P Q xs f h.1)

All-drop {ℓ} : {A : Type 0} (P : A → Type ℓ) (n : ℕ) (xs : List A) → All P xs → All P (drop n xs)
All-drop P zero xs h = h
All-drop P (suc n) [] h = tt
All-drop P (suc n) (x ∷ xs) h = All-drop P n xs h.1

-- In a section over an application that is given enough rounds.
module _ (rounds depth : ℕ) (lzr : Lzr) (go : Expr → Choosing Typed) (infer : InferMap)
    (arg : Expr → Tree Typed) (args : List Expr) (entries : IsInferMap infer)
    (calls : All (λ e. Seeks (arg e) (coerced depth lzr go e)) args) where
  abbrev this : Tree Typed
  this = args_tree infer arg args []

  abbrev code : Choosing Typed
  code = infer_with rounds depth lzr go (some infer) args

  Found-Search :
      (before p : List ℕ) (m : Run (Option Typed × Choice))
      → Fits this p
      → Found depth lzr go infer arg args before (rest this p ++ []) m
      → Search this before p m
  Found-Search before p m fit (tree_found a q k at e run_is) =
      hit a q k at (sym (append-nil (rest this p)) ∙ e) run_is
  Found-Search before p m fit (no_tree zero e run_is) =
      let next = sym (rest-complete this p fit) ∙ sym (append-nil (rest this p)) ∙ e in cc (next)
  Found-Search before p m fit (no_tree (suc k) e run_is) =
      miss k (sym (append-nil (rest this p)) ∙ e) run_is

  calls_left :
      (before : List ℕ) (todo : List Expr) (st : Filling) (path : List ℕ)
      (pending : List (Option Typed))
      → Levels infer arg args before st.filled todo path pending
      → All (λ e. Seeks (arg e) (coerced depth lzr go e)) todo
  calls_left before todo st path pending lv =
      subst (All (λ e. Seeks (arg e) (coerced depth lzr go e)))
        (Levels-drop infer arg args before st.filled todo path pending lv)
        (All-drop (λ e. Seeks (arg e) (coerced depth lzr go e)) (length st.filled) args calls)

  appl_finds :
      (before p : List ℕ)
      → length (leaves this) < rounds
      → Fits this p
      → Search this before p (code (started before p))
  unfolding infer_with
  appl_finds before p lt fit = rw (mark_started before p) (
      Found-Search before p _ fit (
        loop-Found depth lzr go infer arg args before rounds entries (calls_left before) args
          (record { mark = length before; filled = [] }) before p [] (refl, refl, refl) refl fit
          (omega (arith, length-rest this p fit, ap length (append-nil (rest this p))))))

  pub appl-Seeks : length (leaves this) < rounds → Seeks this code
  unfolding infer_with
  appl-Seeks lt = record {
    replays = λ before q p a at. rw (mark_started before (q ++ p)) (
        loop_replays depth lzr go infer arg args before rounds q p a (omega arith) entries calls
          at);
    finds = λ before p fit. appl_finds before p lt fit;
  }

-- In a section over a linearizer that can be searched.
module _ (rounds depth : ℕ) (rank : CCatId → ℕ) (lzr : Lzr) (lits : LiteralCats)
    (searchable : IsSearchable depth rank lzr) where
  coerced-Seeks :
      (tree : Expr → Tree Typed) (go : Expr → Choosing Typed) (e : Expr)
      → Seeks (tree e) (go e)
      → Seeks (arg_tree depth lzr tree e) (coerced depth lzr go e)
  coerced-Seeks tree go e h =
      bind-Seeks (tree e) (go e) (λ a. super_tree depth lzr a.1 a.0) (pick_with depth lzr) h
        (λ a.
          live-Seeks (super_tree depth lzr a.1 a.0) (pick_with depth lzr a)
            (super_tree-IsLive rank a.1 depth depth lzr a.0 searchable (searchable.ranks a.0))
            (λ ch ch' r run_is.
              pick_supercat-Follows rank a.1 depth depth lzr a.0 ch searchable
                (searchable.ranks a.0) r ch' run_is))
        (λ a. super_tree-IsLive rank a.1 depth depth lzr a.0 searchable (searchable.ranks a.0))

  with-Seeks :
      (tree : Expr → Tree Typed) (go : Expr → Choosing Typed) (f : CId) (args : List Expr)
      (o : Option InferMap)
      → map_get token_eq lzr.fun_indices f ≡ o
      → All (λ e. Seeks (tree e) (go e)) args
      → length (leaves (appl_tree (arg_tree depth lzr tree) o args)) < rounds
      → Seeks (appl_tree (arg_tree depth lzr tree) o args) (infer_with rounds depth lzr go o args)
  with-Seeks tree go f args none e calls lt = unfold infer_with in dead-Seeks
  with-Seeks tree go f args (some infer_map) e calls lt =
      appl-Seeks rounds depth lzr go infer_map (arg_tree depth lzr tree) args
        (map_get-All token_eq token_eq-IsLawful (λ x. IsInferMap x.1) lzr.fun_indices f infer_map
          searchable.entries e)
        (All-map (λ e'. Seeks (tree e') (go e')) _ args (coerced-Seeks tree go) calls) lt

  other-Seeks : (e : Expr) → Seeks (other_tree lits e) (infer_other lits e)
  unfolding other_tree infer_other
  other-Seeks (Expr.lit l) = live-Seeks _ _ tt (λ ch ch' a h. unfold run in h)
  other-Seeks (Expr.abs b c x) = dead-Seeks
  other-Seeks (Expr.app x y) = dead-Seeks
  other-Seeks (Expr.meta n) = dead-Seeks
  other-Seeks (Expr.fun c) = dead-Seeks
  other-Seeks (Expr.var n) = dead-Seeks
  other-Seeks (Expr.typed x t) = dead-Seeks
  other-Seeks (Expr.impl_arg x) = dead-Seeks

  abbrev tree_in : ℕ → Expr → Tree Typed
  tree_in fuel e = infer_tree fuel depth lzr lits e

  abbrev code_in : ℕ → Expr → Choosing Typed
  code_in fuel e = infer fuel rounds depth lzr lits e

  -- An expression taken apart.
  abbrev PartsSeek : ℕ → Expr → Run (Option Application) → Type 0
  PartsSeek fuel e u =
      Seeks (parts_tree (arg_tree depth lzr (tree_in fuel)) lzr lits e u)
        (λ ch. u >>= λ appl. infer_appl rounds depth lzr lits (code_in fuel) e appl ch)

  function-Seeks :
      (fuel : ℕ) (e : Expr) (f : CId) (args : List Expr)
      → All (λ a. Seeks (tree_in fuel a) (code_in fuel a)) args
      → length (
          leaves (
            parts_tree
              (arg_tree depth lzr (tree_in fuel))
              lzr
              lits
              e
              (ok (some (record { fun = Expr.fun f; args = args })))))
        < rounds
      → PartsSeek fuel e (ok (some (record { fun = Expr.fun f; args = args })))
  unfolding infer_appl infer_application
  function-Seeks fuel e f args calls lt =
      with-Seeks (tree_in fuel) (code_in fuel) f args (map_get token_eq lzr.fun_indices f) refl
        calls lt

  All-both :
      (P Q R : Expr → Type 0) (xs : List Expr)
      → ((x : Expr) → P x → Q x → R x)
      → All P xs
      → All Q xs
      → All R xs
  All-both P Q R [] f h k = tt
  All-both P Q R (x ∷ xs) f h k = (f x h.0 k.0, All-both P Q R xs f h.1 k.1)

  pub infer-Seeks :
      (fuel : ℕ) (e : Expr)
      → height e < fuel
      → AreEnough rounds depth lzr lits fuel e
      → Seeks (infer_tree fuel depth lzr lits e) (infer fuel rounds depth lzr lits e)
  unfolding infer_tree infer AreEnough
  infer-Seeks zero e lt enough = absurd (omega arith)
  infer-Seeks (suc fuel) e lt enough = elim (unapply-Spine e) [
    | inl (f, args, spine, h) ↦
        let u : Run (Option Application) = ok (some (record { fun = Expr.fun f; args = args })) in
        let total =
          subst
            (λ x.
              length (leaves (parts_tree (arg_tree depth lzr (tree_in fuel)) lzr lits e x))
              < rounds)
            h enough.0 in
        let each = subst (λ x. All (AreEnough rounds depth lzr lits fuel) (args_in x)) h enough.1 in
        subst (PartsSeek fuel e) (sym h) (
          function-Seeks fuel e f args
            (All-both (λ a. height a < fuel) (AreEnough rounds depth lzr lits fuel)
              (λ a. Seeks (tree_in fuel a) (code_in fuel a)) args (infer-Seeks fuel)
              (Spine-height spine fuel (omega arith)) each)
            total)
    | inr (_, h) ↦ subst (PartsSeek fuel e) (sym h) (unfold infer_appl in other-Seeks (unwrap e))
  ]
