-- ===== src/Choice/Search.antt =====
-- Functions that make choices and go on by themselves to the next outcome that is no dead end.
use libpgf.Prelude.{
  ℕ, zero, suc, ◌+◌, ◌-◌, ◌≤◌, ◌<◌, ◌≡◌, refl, sym, ◌∙◌, ap, arith, Option, none, some, List, [],
  ◌∷◌, ◌++◌, length, length-append, append_assoc, append-nil, Run, ok,
}
use libpgf.Choice.{Choice}
use libpgf.Choice.Path.{choice_next-replay}
use libpgf.Choice.Tree.{
  Tree, leaf, node, run, IsNarrow, Fits, leaves, from, rest, complete, after, rest-complete,
}
use libpgf.Choice.Monad.{Choosing, bind}
use libpgf.Choice.Bind.{IsAt, IsAt-below, nones, expand, complete-IsAt, rest-bind, expand-nones}
use libpgf.Choice.Runs.{started, ended, run-complete, started_snoc}
use mathlib.Core.Path.{subst}

-- What such a function does from a path that fits its tree: it returns the first of the outcomes to
-- come that is no dead end, and leaves the path that goes to it; or there is none.
pub data Search {A : Type 0} (t : Tree A) (before p : List ℕ) (m : Run (Option A × Choice))
    : Type 0 where
  hit :
      (a : A) (q : List ℕ) (k : ℕ)
      → IsAt t q (some a)
      → rest t p ≡ nones k ++ some a ∷ after t q
      → m ≡ ok (some a, started (before ++ q) [])
      → Search t before p m
  miss : (k : ℕ) → rest t p ≡ nones (suc k) → m ≡ ok (none, started before []) → Search t before p m

pub record Seeks {A : Type 0} (t : Tree A) (m : Choosing A) : Type 0 where
  -- Led to an outcome, with more path behind it.
  pub replays :
      (before q p : List ℕ) (a : A)
      → IsAt t q (some a)
      → m (started before (q ++ p)) ≡ ok (some a, started (before ++ q) p)
  pub finds : (before p : List ℕ) → Fits t p → Search t before p (m (started before p))

pub started_behind :
    (before q p : List ℕ)
    → record { path = before ++ (q ++ p); path_idx = length (before ++ q) }
      ≡ started (before ++ q) p
started_behind before q p =
    ap (λ l. record { path = l; path_idx = length (before ++ q) }) (sym (append_assoc before q p))

-- A computation without dead ends, which need not search.
abbrev pub IsLive : {A : Type 0} → Tree A → Type 0
IsLive (leaf none) = ⊥
IsLive (leaf (some a)) = Unit {0}
IsLive (node n f) = (1 ≤ n) × (n ≤ 255) × ((k : ℕ) → k < n → IsLive (f k))

pub rest_nil : {A : Type 0} (t : Tree A) → rest t [] ≡ leaves t
unfolding rest
rest_nil (leaf r) = refl
rest_nil (node n f) = refl

run-replays :
    {A : Type 0} (t : Tree A) (before q p : List ℕ) (a : A)
    → IsLive t
    → IsAt t q (some a)
    → run t (started before (q ++ p)) ≡ ok (some a, started (before ++ q) p)
unfolding run complete
run-replays (leaf none) before q p a live h = elim live [ ]
run-replays (leaf (some b)) before [] p a live h =
    let same : b ≡ a = cc (h.1) in
    ap (λ x. ok (some x, started before p)) same
    ∙ ap (λ l. ok (some a, started l p)) (sym (append-nil before))
run-replays (leaf r) before (i ∷ q) p a live h = elim (h.0) [ ]
run-replays (node zero f) before q p a live h = absurd (omega (arith, live.0))
run-replays (node (suc m) f) before [] p a live h = cc (h.2)
run-replays (node (suc m) f) before (i ∷ q) p a live h =
    let (lo, hi, below) = IsAt-below m i f q (some a) h in
    let k = suc m - i in
    rw (choice_next-replay before (q ++ p) i (suc m) lo hi live.1) (
      ap (run (f k)) (started_snoc before (q ++ p) i)
      ∙ run-replays (f k) (before ++ i ∷ []) q p a (live.2 k (omega (arith, lo))) below
      ∙ ap (λ l. ok (some a, started l p)) (append_assoc before (i ∷ []) q))

live-IsNarrow : {A : Type 0} (t : Tree A) → IsLive t → IsNarrow t
live-IsNarrow (leaf r) h = tt
live-IsNarrow (node n f) h = (h.1, λ k lt. live-IsNarrow (f k) (h.2 k lt))

pub live_outcome :
    {A : Type 0} (t : Tree A) (p : List ℕ)
    → IsLive t
    → Fits t p
    → (a : A) × ((complete t p).0 ≡ some a)
unfolding complete
live_outcome (leaf none) p live h = elim live [ ]
live_outcome (leaf (some a)) p live h = (a, refl)
live_outcome (node zero f) p live h = absurd (omega (arith, live.0))
live_outcome (node (suc m) f) [] live h = live_outcome (f 0) [] (live.2 0 (omega arith)) tt
live_outcome (node (suc m) f) (i ∷ p) live h =
    live_outcome (f (suc m - i)) p (live.2 (suc m - i) (omega (arith, h.0))) h.2

pub ended-started : (before q : List ℕ) → ended before q ≡ started (before ++ q) []
ended-started before q =
    ap (λ k. record { path = before ++ q; path_idx = k }) (sym (length-append before q))
    ∙ ap (λ l. record { path = l; path_idx = length (before ++ q) })
        (sym (append-nil (before ++ q)))

-- The next outcome at a path is that of the path completed.
next_outcome :
    {A : Type 0} (t : Tree A) (p : List ℕ) (r : Option A)
    → Fits t p
    → (complete t p).0 ≡ r
    → rest t p ≡ r ∷ after t (complete t p).1
next_outcome t p r h e = rest-complete t p h ∙ ap (λ x. x ∷ after t (complete t p).1) e

-- A function that does as the run of a tree without dead ends, where that gets to an end.
pub live-Seeks :
    {A : Type 0} (t : Tree A) (m : Choosing A)
    → IsLive t
    → ((ch ch' : Choice) (a : A) → run t ch ≡ ok (some a, ch') → m ch ≡ ok (some a, ch'))
    → Seeks t m
live-Seeks t m live same = record {
  replays = λ before q p a h.
      same (started before (q ++ p)) (started (before ++ q) p) a
        (run-replays t before q p a live h);
  finds = λ before p h.
      let (a, e) = live_outcome t p live h in
      let q = (complete t p).1 in
      hit a q 0 (subst (IsAt t q) e (complete-IsAt t p h)) (next_outcome t p (some a) h e) (
        same (started before p) (started (before ++ q) []) a (
          run-complete t before p (live-IsNarrow t live) h
          ∙ ap (λ r. ok (r, ended before q)) e
          ∙ ap (λ c. ok (some a, c)) (ended-started before q)));
}

-- A function that returns null at once.
pub dead-Seeks : {A : Type 0} → Seeks {A = A} (leaf none) (λ ch. ok (none, ch))
unfolding rest complete
dead-Seeks {A} = record { replays = λ before q p a h. absurd (dead_end q a h); finds = none_found }
  where
    dead_end : (q : List ℕ) (a : A) → IsAt (leaf none) q (some a) → ⊥
    dead_end [] a h = cc (h.1)
    dead_end (i ∷ q) a h = h.0

    none_found :
        (before p : List ℕ)
        → Fits {A = A} (leaf none) p
        → Search {A = A} (leaf none) before p (ok (none, started before p))
    none_found before [] fit = miss 0 refl refl
    none_found before (i ∷ p) fit = elim fit [ ]

-- No more is to come at a path than there is.
length-from :
    {A : Type 0} (g : ℕ → List (Option A)) (j i c : ℕ)
    → length (from g (j + i) c) ≤ length (from g i (j + c))
length-from g zero i c = omega (
  arith,
  ap (λ k. length (from g k c)) {x = 0 + i} {y = i} (omega arith),
  ap (λ k. length (from g i k)) {x = 0 + c} {y = c} (omega arith),
)
length-from g (suc j) i c = omega (
  arith,
  ap (λ k. length (from g k c)) {x = suc j + i} {y = j + suc i} (omega arith),
  length-from g j (suc i) c,
  length-append (g i) (from g (suc i) (j + c)),
  ap (λ k. length (from g i k)) {x = suc j + c} {y = suc (j + c)} (omega arith),
)

pub length-rest :
    {A : Type 0} (t : Tree A) (p : List ℕ) → Fits t p → length (rest t p) ≤ length (leaves t)
unfolding rest leaves
length-rest (leaf r) [] h = omega arith
length-rest (leaf r) (i ∷ p) h = elim h [ ]
length-rest (node n f) [] h = omega arith
length-rest (node zero f) (i ∷ p) h = absurd (omega arith)
length-rest (node (suc m) f) (i ∷ p) h =
    let k = suc m - i in
    let g : ℕ → List (Option _) = λ j. leaves (f j) in
    omega (
      arith,
      length-rest (f k) p h.2,
      length-append (rest (f k) p) (from g (suc k) (i - 1)),
      length-append (g k) (from g (suc k) (i - 1)),
      length-from g k 0 (suc (i - 1)),
      ap (λ j. length (from g j (suc (i - 1)))) {x = k + 0} {y = k} (omega arith),
      ap (λ j. length (from g 0 j)) {x = k + suc (i - 1)} {y = suc m} (omega (arith, h.0)),
    )

-- The first of two computations has led on into the second, or there is nothing to come.
pub data Step {A B : Type 0} (t : Tree A) (g : A → Tree B) (before path : List ℕ)
    (m : Run (Option A × Choice)) : Type 0 where
  goes :
      (a : A) (q p : List ℕ) (k : ℕ)
      → m ≡ ok (some a, started (before ++ q) p)
      → IsAt t q (some a)
      → Fits (g a) p
      → rest (bind t g) path ≡ nones k ++ (rest (g a) p ++ expand g (after t q))
      → Step t g before path m
  dead :
      (k : ℕ)
      → m ≡ ok (none, started before [])
      → rest (bind t g) path ≡ nones (suc k)
      → Step t g before path m

pub Search-Step :
    {A B : Type 0} (t : Tree A) (g : A → Tree B) (before path : List ℕ)
    (m : Run (Option A × Choice))
    → Fits t path
    → Search t before path m
    → Step t g before path m
Search-Step t g before path m fit (hit a q k at e run_is) = goes a q [] k run_is at tt (
    rest-bind g t path fit
    ∙ ap (expand g) e
    ∙ expand-nones g k (some a ∷ after t q)
    ∙ ap (λ l. nones k ++ (l ++ expand g (after t q))) (sym (rest_nil (g a))))
Search-Step t g before path m fit (miss k e run_is) = dead k run_is (
    rest-bind g t path fit
    ∙ ap (expand g) (e ∙ sym (append-nil (nones (suc k))))
    ∙ expand-nones g (suc k) []
    ∙ append-nil (nones (suc k)))
