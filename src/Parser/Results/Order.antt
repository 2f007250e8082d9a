-- ===== src/Parser/Results/Order.antt =====
-- In which order the trees of a parse come, and where the enumeration breaks off.
use libpgf.Prelude.{
  ℕ, zero, suc, ◌≤◌, ◌<◌, ◌≡◌, refl, sym, ◌∙◌, ap, arith, Option, none, some, List, [], ◌∷◌, ◌++◌,
  length, replicate, All, All-get_elem?, get_elem?, if◌then◌else◌, inl, inr, Run, ok, fault, ◌>>=◌,
  bind_assoc,
}
use mathlib.Core.Path.{fun_ext, subst}
use libpgf.Choice.{Choice, choice_next}
use libpgf.Choice.Path.{choice_next-push, choice_next-replay}
use libpgf.Choice.Tree.{Tree, leaf, node, Fits, rest, leaves}
use libpgf.Choice.Runs.{started, Attempt, attempt, attempt-Takes, Takes}
use libpgf.Choice.Monad
use libpgf.Choice.Monad.{Choosing, lift, Realizes, Realizes-lift, Realizes-choice, Realizes-mono}
use libpgf.Expr.{Expr}
use libpgf.Grammar.{CCatId, CCatStore}
use libpgf.Parser.Trees.{deref}
use libpgf.Parser.Trees.Spec.{Outcome, expr_tree, IsStore, IsReadable, unseen, unseen-le}
use libpgf.Parser.Trees.Realize.{Leaves, cat_to_expr-Realizes}
use libpgf.Parser.Results.{ParseResult, one_result, result_loop, result_next, parse_result}

-- All choices behind a list of completed categories.
unfoldable pub result_tree : CCatStore → List CCatId → Tree Outcome
result_tree store completed = node (length completed) (λ i. elim (get_elem? completed i) [
  | none ↦ leaf none
  | some c ↦ expr_tree (suc (length store)) store c []
])

-- A parse with at least one result and at most as many as `gu_choice_next` allows, whose categories
-- lie in the store and have productions.
pub record IsParse (store : CCatStore) (completed : List CCatId) : Type 0 where
  pub stored : IsStore store
  pub inside : All (IsReadable store) completed
  pub nonempty : 1 ≤ length completed
  pub few : length completed ≤ 255

-- One round of the loop, without its mark.
body : CCatStore → List CCatId → Choosing Outcome
body store completed =
    Monad.◌>>=◌ (λ ch. choice_next ch (length completed)) (one_result store completed)

cons_behind :
    {A : Type 0} (k : ℕ) (r : A) (rs : List (Option A)) → ¬ (replicate k none ++ some r ∷ rs ≡ [])
cons_behind zero r rs e = cc
cons_behind (suc k) r rs e = cc

module _ {store : CCatStore} {completed : List CCatId} (valid : IsParse store completed) where
  one_result-Realizes :
      (i : ℕ)
      → i < length completed
      → Realizes
          (Leaves (length store) (length store))
          (elim (get_elem? completed i) [
            | none ↦ leaf none
            | some c ↦ expr_tree (suc (length store)) store c []
          ])
          (one_result store completed i)
  unfolding one_result
  one_result-Realizes i lt =
      let (c, found, inside) = All-get_elem? (IsReadable store) completed i valid.inside lt in
      rw found (
        Realizes-lift (Leaves (length store) (length store)) _ (deref completed i) c _
          (rw (found, deref))
          (Realizes-mono (Leaves (length store) (unseen (length store) [])) _ _ _
            (λ r q. omega (arith, unseen-le (length store) []))
            ((cat_to_expr-Realizes (suc (length store)) store c [] valid.stored inside
              (omega (arith, unseen-le (length store) []))).0)))

  body-Realizes :
      Realizes
        (Leaves (length store) (length store))
        (result_tree store completed)
        (body store completed)
  unfolding result_tree body
  body-Realizes = Realizes-choice _ (length completed) _ _ valid.few one_result-Realizes

  next_result :
      (p : List ℕ)
      → Fits (result_tree store completed) p
      → (i : ℕ) × (ch : Choice) × (choice_next (started [] p) (length completed) ≡ ok (some i, ch))
  unfolding result_tree
  next_result [] h = (0, _, choice_next-push [] (length completed) valid.nonempty valid.few)
  next_result (i ∷ p) h = (_, _, choice_next-replay [] p i (length completed) h.0 h.1 valid.few)

  -- What a round does with the attempt.
  abbrev finish : ℕ → Attempt Outcome → Run (Option Expr × ParseResult)
  finish fuel a =
      let pr' : ParseResult = record {
        completed = completed;
        choice = if a.more then some a.choice else none;
      } in
      elim (a.outcome) [ none ↦ result_loop fuel store pr' | some e ↦ ok (some e.0, pr') ]

  round :
      (fuel : ℕ) (p : List ℕ)
      → Fits (result_tree store completed) p
      → result_loop
          (suc fuel)
          store
          (record { completed = completed; choice = some (started [] p) })
        ≡ attempt (body store completed) (started [] p) >>= finish fuel
  unfolding result_loop attempt body
  round fuel p h = let (i, ch, e) = next_result p h in rw e (simp bind_assoc)

  round-Takes :
      (fuel : ℕ) (p : List ℕ)
      → Fits (result_tree store completed) p
      → (a : Attempt Outcome) × (result_loop
            (suc fuel)
            store
            (record { completed = completed; choice = some (started [] p) })
          ≡ finish fuel a)
        × Takes (result_tree store completed) [] p a
  round-Takes fuel p h =
      let (a, e, t) = attempt-Takes (result_tree store completed) [] p body-Realizes.narrow h in
      (
        a,
        round fuel p h
            ∙ ap (λ m. attempt m (started [] p) >>= finish fuel) (fun_ext body-Realizes.runs)
            ∙ ap (λ r. r >>= finish fuel) e,
        t,
      )

  -- The trees that are still to come, null for each dead end among them.
  pub data Remaining (pr : ParseResult) (rs : List (Option Outcome)) : Type 0 where
    over : pr ≡ record { completed = completed; choice = none } → rs ≡ [] → Remaining pr rs
    going :
        (p : List ℕ)
        → pr ≡ record { completed = completed; choice = some (started [] p) }
        → Fits (result_tree store completed) p
        → rs ≡ rest (result_tree store completed) p
        → Remaining pr rs

  Takes-Remaining :
      (p : List ℕ) (a : Attempt Outcome) (t : Takes (result_tree store completed) [] p a)
      → Remaining
          (record { completed = completed; choice = if a.more then some a.choice else none })
          t.others
  Takes-Remaining p a t = elim (t.stays) [
    | inl (done, e) ↦ over (rw done) e
    | inr (q, more, c, fits, e) ↦ going q (rw (more, c)) fits e
  ]

  loop_first :
      (k fuel : ℕ) (p : List ℕ) (r : Outcome) (rs : List (Option Outcome))
      → Fits (result_tree store completed) p
      → rest (result_tree store completed) p ≡ replicate k none ++ some r ∷ rs
      → k < fuel
      → (pr' : ParseResult) × (result_loop fuel store
            (record { completed = completed; choice = some (started [] p) })
          ≡ ok (some r.0, pr'))
        × Remaining pr' rs
  loop_first k zero p r rs h e lt = absurd (omega arith)
  loop_first zero (suc fuel) p r rs h e lt =
      let (a, run_a, t) = round-Takes fuel p h in
      let hit : a.outcome ≡ some r = cc (t.first) in
      let same : t.others ≡ rs = cc (t.first) in
      (_, run_a ∙ rw (hit, finish), subst (Remaining _) same (Takes-Remaining p a t))
  loop_first (suc k) (suc fuel) p r rs h e lt =
      let (a, run_a, t) = round-Takes fuel p h in
      let miss : a.outcome ≡ none = cc (t.first) in
      let same : t.others ≡ replicate k none ++ some r ∷ rs = cc (t.first) in
      elim (t.stays) [
        | inl (done, over_now) ↦ absurd (cons_behind k r rs (sym same ∙ over_now))
        | inr (q, more, c, fits, left) ↦
            let (pr', run_q, rem) = loop_first k fuel q r rs fits (sym left ∙ same) (omega arith) in
            (pr', run_a ∙ rw (miss, more, c, finish) run_q, rem)
      ]

  -- For a parse that is `IsParse`, with at most 255 results whose categories have productions, in a
  -- store that is `IsStore`, with at most 255 productions of a category and none that binds
  -- variables or leads to a category without productions: while another tree is to come,
  -- pgf_parse_result_next, with a round for it and for each dead end before it, passes over those
  -- dead ends, returns the tree, and leaves exactly the outcomes behind it to come.
  pub result_next-first :
      (k fuel : ℕ) (pr : ParseResult) (r : Outcome) (rs : List (Option Outcome))
      → Remaining pr (replicate k none ++ some r ∷ rs)
      → k < fuel
      → (pr' : ParseResult) × (result_next fuel store pr ≡ ok (some r.0, pr')) × Remaining pr' rs
  unfolding result_next
  result_next-first k fuel pr r rs (over e done) lt = absurd (cons_behind k r rs done)
  result_next-first k fuel pr r rs (going p e fits left) lt =
      rw e (loop_first k fuel p r rs fits (sym left) lt)

  loop_fault :
      (k fuel : ℕ) (p : List ℕ)
      → Fits (result_tree store completed) p
      → rest (result_tree store completed) p ≡ replicate (suc k) none
      → suc k < fuel
      → result_loop fuel store (record { completed = completed; choice = some (started [] p) })
        ≡ fault
  loop_fault k zero p h e lt = absurd (omega arith)
  loop_fault k (suc zero) p h e lt = absurd (omega arith)
  loop_fault zero (suc (suc fuel)) p h e lt =
      let (a, run_a, t) = round-Takes (suc fuel) p h in
      let miss : a.outcome ≡ none = cc (t.first) in
      let same : t.others ≡ [] = cc (t.first) in
      elim (t.stays) [
        | inl (done, over_now) ↦ run_a ∙ rw (miss, done, finish) (unfold result_loop in refl)
        | inr (q, more, c, fits, left) ↦
            let (b, run_b, u) = round-Takes 0 q fits in cc (u.first, same, left)
      ]
  loop_fault (suc k) (suc (suc fuel)) p h e lt =
      let (a, run_a, t) = round-Takes (suc fuel) p h in
      let miss : a.outcome ≡ none = cc (t.first) in
      let same : t.others ≡ replicate (suc k) none = cc (t.first) in
      elim (t.stays) [
        | inl (done, over_now) ↦ cc (same, over_now)
        | inr (q, more, c, fits, left) ↦
            run_a
            ∙ rw (miss, more, c, finish)
                (loop_fault k (suc fuel) q fits (sym left ∙ same) (omega arith))
      ]

  -- For a parse that is `IsParse`, so that it has at least one result and at most 255, in a store
  -- that is `IsStore`: where at least one outcome is to come and all that are to come are dead ends,
  -- pgf_parse_result_next does not return null: behind the last of them it takes a mark of the
  -- choice that it has just set to null, a read through a null pointer.
  pub result_next-fault :
      (k fuel : ℕ) (pr : ParseResult)
      → Remaining pr (replicate (suc k) none)
      → suc k < fuel
      → result_next fuel store pr ≡ fault
  unfolding result_next
  result_next-fault k fuel pr (over e none_left) lt = cc none_left
  result_next-fault k fuel pr (going p e fits left) lt =
      rw e (loop_fault k fuel p fits (sym left) lt)

  -- A fresh enumeration has the leaves of the whole tree to come, from left to right.
  pub parse_result-Remaining :
      Remaining (parse_result completed) (leaves (result_tree store completed))
  unfolding rest
  parse_result-Remaining = going [] refl tt refl
