-- ===== src/Choice/Path.antt =====
-- Paths of choices: what `advance` makes of the stretch behind the index.
use libpgf.Prelude.{
  ℕ, zero, suc, ◌+◌, ◌-◌, ◌≤◌, ◌<◌, ◌≡◌, refl, ap, arith, Bool, true, false, Option, none, some,
  List, [], ◌∷◌, ◌++◌, length, length-append, lt→ltb, leb, get_elem?, get_elem?_behind,
  append_assoc, append-nil, ltb, leb, if◌then◌else◌, Bool-cases, inl, inr, ok,
}
use libpgf.Choice.{Choice, choice_next, choice_at, pop, advance_loop, choice_advance}

pop-append : (xs : List ℕ) (x : ℕ) → pop (xs ++ x ∷ []) ≡ some (x, xs)
unfolding pop
pop-append [] x = refl
pop-append (y ∷ xs) x = rw (pop-append xs x)

-- The path after the present one: the last entry that leaves an alternative is counted down, and
-- what stands behind it is dropped.
unfoldable pub succ_path : List ℕ → Option (List ℕ)
succ_path [] = none
succ_path (i ∷ p) = elim (succ_path p) [
  | some q ↦ some (i ∷ q)
  | none ↦ if ltb 1 i then some ((i - 1) ∷ []) else none
]

succ_path-append :
    (p : List ℕ) (x : ℕ)
    → succ_path (p ++ x ∷ []) ≡ (if ltb 1 x then some (p ++ (x - 1) ∷ []) else succ_path p)
unfolding succ_path
succ_path-append [] x = ground arith
succ_path-append (i ∷ p) x = rw (succ_path-append p x) (ground arith)

-- A list that is not empty, split at its end.
split_last : (x : ℕ) (xs : List ℕ) → (q : List ℕ) × (y : ℕ) × (x ∷ xs ≡ q ++ y ∷ [])
split_last x [] = ([], x, refl)
split_last x (z ∷ xs) = let (q, y, e) = split_last z xs in (x ∷ q, y, ap (λ l. x ∷ l) e)

-- `advance`, started at the index `length before` of the path `before ++ p`.
abbrev pub advanced : List ℕ → Option (List ℕ) → Bool × Choice
advanced before none = (false, record { path = before; path_idx = length before })
advanced before (some q) = (true, record { path = before ++ q; path_idx = length before })

advance_loop_step :
    (fuel : ℕ) (before q : List ℕ) (y : ℕ)
    → advance_loop (suc fuel) (record { path = before ++ q ++ y ∷ []; path_idx = length before })
      ≡ (if ltb 1 y
          then ok (true, record { path = (before ++ q) ++ (y - 1) ∷ []; path_idx = length before })
          else advance_loop fuel (record { path = before ++ q; path_idx = length before }))
unfolding advance_loop
advance_loop_step fuel before q y =
    let longer : length before < length ((before ++ q) ++ y ∷ []) =
      rw (length-append, length-append) (omega arith) in
    rw (lt→ltb _ _ longer, pop-append (before ++ q) y)

advance_loop-succ_path :
    (fuel : ℕ) (before p : List ℕ)
    → length p ≤ fuel
    → advance_loop fuel (record { path = before ++ p; path_idx = length before })
      ≡ ok (advanced before (succ_path p))
advance_loop-succ_path zero before [] h =
    rw append-nil (unfold advance_loop succ_path in ground arith)
advance_loop-succ_path (suc fuel) before [] h =
    rw append-nil (unfold advance_loop succ_path in ground arith)
advance_loop-succ_path zero before (x ∷ p) h = absurd (omega arith)
advance_loop-succ_path (suc fuel) before (x ∷ p) h =
    let (q, y, e) = split_last x p in
    let shorter : length q ≤ fuel = omega (arith, ap length e, length-append q (y ∷ [])) in
    rw
      (
        e,
        ← append_assoc before q (y ∷ []),
        advance_loop_step fuel before q y,
        succ_path-append q y,
        advance_loop-succ_path fuel before q shorter,
      )
      (elim (Bool-cases (ltb 1 y)) [ inl more ↦ rw (more, append_assoc) | inr last ↦ rw last ])

-- `advance` ends, and takes the stretch behind the index to its successor.
pub advance-succ_path :
    (before p : List ℕ)
    → choice_advance (record { path = before ++ p; path_idx = length before })
      ≡ ok (advanced before (succ_path p))
unfolding choice_advance
advance-succ_path before p =
    let inside : leb (length before) (length (before ++ p)) ≡ true =
      rw length-append (ground arith) in
    rw inside (advance_loop-succ_path _ before p (rw length-append (omega arith)))

-- `next` at the end of the path takes the first alternative.
pub choice_next-push :
    (before : List ℕ) (n : ℕ)
    → 1 ≤ n
    → n ≤ 255
    → choice_next (record { path = before; path_idx = length before }) n
      ≡ ok (some 0, record { path = before ++ n ∷ []; path_idx = length before + 1 })
unfolding choice_next
choice_next-push before n lo hi =
    let nothing : get_elem? before (length before) ≡ none =
      rw append-nil at (get_elem?_behind before []) in
    rw (nothing, choice_at) (ground arith)

-- `next` inside the path takes the alternative that stands there.
pub choice_next-replay :
    (before p : List ℕ) (i n : ℕ)
    → 1 ≤ i
    → i ≤ n
    → n ≤ 255
    → choice_next (record { path = before ++ i ∷ p; path_idx = length before }) n
      ≡ ok (some (n - i), record { path = before ++ i ∷ p; path_idx = length before + 1 })
unfolding choice_next
choice_next-replay before p i n lo le hi =
    rw (get_elem?_behind before (i ∷ p), choice_at, length-append) (ground arith)

-- `next` without an alternative changes nothing.
pub choice_next-none :
    (before : List ℕ)
    → choice_next (record { path = before; path_idx = length before }) 0
      ≡ ok (none, record { path = before; path_idx = length before })
unfolding choice_next
choice_next-none before = ground arith
