-- ===== src/Choice.antt =====
-- Backtracking choices: gu/choice.c. A computation asks `next` for one of n alternatives at each of
-- its choice points; run again from the same mark after `advance`, it is led to its next outcome.
pub mod Path
pub mod Tree
pub mod Runs
pub mod Monad
pub mod Bind
pub mod Search
pub mod Chain
mod Tests
use libpgf.Prelude.{
  ℕ, zero, suc, ◌+◌, ◌-◌, Bool, true, false, Option, none, some, List, [], ◌∷◌, ◌++◌, length,
  get_elem?, ltb, leb, ◌==◌, if◌then◌else◌, Run, ok, raised, abort, fault, stuck, ◌>>=◌, ◌>>◌,
  require,
}

-- `path` holds, for each choice point passed, how many of its alternatives are left, the present
-- one included.
pub record Choice : Type 0 where
  pub path : List ℕ
  pub path_idx : ℕ

abbrev pub new_choice : Choice
new_choice = record { path = []; path_idx = 0 }

-- The end of a `GuBuf` taken off; `none` where it is empty.
pub pop : List ℕ → Option (ℕ × List ℕ)
pop [] = none
pop (x ∷ xs) = elim (pop xs) [ none ↦ some (x, []) | some (y, ys) ↦ some (y, x ∷ ys) ]

unfoldable pub choice_mark : Choice → Run ℕ
choice_mark ch = do require (leb ch.path_idx (length ch.path)); ok ch.path_idx

unfoldable pub choice_reset : Choice → ℕ → Run Choice
choice_reset ch mark = do
  require (leb ch.path_idx (length ch.path))
  require (leb mark ch.path_idx)
  ok (record ch { path_idx = mark })

-- `(i == 0) ? -1 : n_choices - i`, with `none` for -1.
abbrev pub alternative : ℕ → ℕ → Option ℕ
alternative n i = if i == 0 then none else some (n - i)

-- What stands at the index, or else the first alternative, which is pushed.
choice_at : Choice → ℕ → Run (ℕ × List ℕ)
choice_at ch n = elim (get_elem? ch.path ch.path_idx) [
  | some i ↦ require (leb i n) >>= λ _. ok (i, ch.path)
  | none ↦ ok (n, ch.path ++ n ∷ [])
]

unfoldable pub choice_next : Choice → ℕ → Run (Option ℕ × Choice)
unfolding choice_at
choice_next ch n = do
  require (leb n 255)
  require (leb ch.path_idx (length ch.path))
  (if n == 0
      then ok (none, ch)
      else (choice_at ch n >>= λ r.
          ok (alternative n r.0, record { path = r.1; path_idx = ch.path_idx + 1 })))

-- The loop pops while the path is longer than the index, so its length is fuel enough.
advance_loop : ℕ → Choice → Run (Bool × Choice)
unfolding pop
advance_loop zero ch = if ltb ch.path_idx (length ch.path) then stuck else ok (false, ch)
advance_loop (suc fuel) ch =
    if ltb ch.path_idx (length ch.path)
    then elim (pop ch.path) [
      | none ↦ abort
      | some (last, path) ↦
          let rest = advance_loop fuel (record ch { path = path }) in
          if ltb 1 last then ok (true, record ch { path = path ++ (last - 1) ∷ [] }) else rest
    ]
    else ok (false, ch)

unfoldable pub choice_advance : Choice → Run (Bool × Choice)
unfolding advance_loop
choice_advance ch = do require (leb ch.path_idx (length ch.path)); advance_loop (length ch.path) ch
