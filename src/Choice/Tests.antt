-- ===== src/Choice/Tests.antt =====
-- A small computation that chooses twice, and the theorems on it.
use libpgf.Prelude.{ℕ, zero, suc, true, ◌<◌, ◌≡◌, refl, arith, none, some, [], ◌∷◌, ok}
use libpgf.Choice.{choice_advance}
use libpgf.Choice.Path.{succ_path, advanced, advance-succ_path}
use libpgf.Choice.Tree.{Tree, leaf, node, run, IsNarrow, leaves, complete}
use libpgf.Choice.Runs.{started, ended, Attempt, attempt, Takes, run-complete, attempt-Takes}

-- Two ways, the first of which has three ways on.
abbrev ways : Tree ℕ
ways = node 2 (λ i. elim i [ zero ↦ node 3 (λ j. leaf (some j)) | suc k ↦ leaf none ])

ways-leaves : leaves ways ≡ some 0 ∷ some 1 ∷ some 2 ∷ none ∷ []
unfolding leaves
ways-leaves = refl

ways-IsNarrow : IsNarrow ways
ways-IsNarrow = (omega arith, narrow_way)
  where
    narrow_way :
        (k : ℕ)
        → k < 2
        → IsNarrow {A = ℕ} (elim k [ zero ↦ node 3 (λ j. leaf (some j)) | suc i ↦ leaf none ])
    narrow_way zero h = (omega arith, λ j hj. tt)
    narrow_way (suc k) h = tt

advance-succ_path_example :
    choice_advance (record { path = 9 ∷ 2 ∷ 3 ∷ 1 ∷ []; path_idx = 1 })
    ≡ ok (advanced (9 ∷ []) (succ_path (2 ∷ 3 ∷ 1 ∷ [])))
advance-succ_path_example = advance-succ_path (9 ∷ []) (2 ∷ 3 ∷ 1 ∷ [])

advance_run :
    choice_advance (record { path = 9 ∷ 2 ∷ 3 ∷ 1 ∷ []; path_idx = 1 })
    ≡ ok (true, record { path = 9 ∷ 2 ∷ 2 ∷ []; path_idx = 1 })
unfolding choice_advance
advance_run = refl

run-complete_example :
    run ways (started [] (2 ∷ 1 ∷ []))
    ≡ ok ((complete ways (2 ∷ 1 ∷ [])).0, ended [] (complete ways (2 ∷ 1 ∷ [])).1)
run-complete_example = run-complete ways [] (2 ∷ 1 ∷ []) ways-IsNarrow (omega arith)

attempt-Takes_example :
    (a : Attempt ℕ) × (attempt (run ways) (started [] []) ≡ ok a) × Takes ways [] [] a
attempt-Takes_example = attempt-Takes ways [] [] ways-IsNarrow tt
