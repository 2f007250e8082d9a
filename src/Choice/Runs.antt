-- ===== src/Choice/Runs.antt =====
-- A run of a choosing computation, and the protocol of mark, run, reset and advance around it.
use libpgf.Prelude.{
  ℕ, zero, suc, ◌+◌, ◌-◌, ◌≡◌, refl, ◌∙◌, ap, arith, Bool, true, false, Option, none, List, [], ◌∷◌,
  ◌++◌, length, length-append, append_assoc, append-nil, ◌⊎◌, inl, inr, Option-cases, Run, ok,
  ◌>>=◌,
}
use libpgf.Choice.{Choice, choice_mark, choice_reset, choice_advance}
use libpgf.Choice.Path.{
  succ_path, advanced, advance-succ_path, choice_next-none, choice_next-push, choice_next-replay,
}
use libpgf.Choice.Tree.{
  Tree, leaf, node, run, IsNarrow, Fits, complete, rest, after, rest-complete, complete-Fits,
  succ_path-Fits,
}

-- The choice whose path is `before ++ p`, with the index behind `before ++ p`, or behind `before`.
abbrev pub ended : List ℕ → List ℕ → Choice
ended before p = record { path = before ++ p; path_idx = length before + length p }

abbrev pub started : List ℕ → List ℕ → Choice
started before p = record { path = before ++ p; path_idx = length before }

snoc_ended :
    (before : List ℕ) (i : ℕ) (q : List ℕ) → ended (before ++ i ∷ []) q ≡ ended before (i ∷ q)
snoc_ended before i q =
    let size : length (before ++ i ∷ []) + length q ≡ length before + length (i ∷ q) =
      rw length-append (omega arith) in
    rw (append_assoc, size)

pub started_snoc :
    (before p : List ℕ) (i : ℕ)
    → record { path = before ++ i ∷ p; path_idx = length before + 1 } ≡ started (before ++ i ∷ []) p
started_snoc before p i = rw (append_assoc, length-append)

pub mark_started : (before p : List ℕ) → choice_mark (started before p) ≡ ok (length before)
unfolding choice_mark
mark_started before p = rw length-append (ground arith)

pub reset_ended :
    (before p : List ℕ) → choice_reset (ended before p) (length before) ≡ ok (started before p)
unfolding choice_reset
reset_ended before p = rw length-append (ground arith)

module _ {ℓ} {A : Type ℓ} where
  -- A run started behind `before` reads the alternatives of `p`, takes first alternatives from
  -- there on, and leaves the path that it took.
  pub run-complete :
      (t : Tree A) (before p : List ℕ)
      → IsNarrow t
      → Fits t p
      → run t (started before p) ≡ ok ((complete t p).0, ended before (complete t p).1)
  unfolding run complete
  run-complete (leaf r) before [] nar h =
      ap (λ k. ok (r, record { path = before ++ []; path_idx = k })) {x = length before}
        (omega arith)
  run-complete (leaf r) before (i ∷ p) nar h = elim h [ ]
  run-complete (node zero f) before [] nar h =
      rw (append-nil, choice_next-none before)
        (ap (λ k. ok (none, record { path = before; path_idx = k })) {x = length before}
          (omega arith))
  run-complete (node zero f) before (i ∷ p) nar h = absurd (omega arith)
  run-complete (node (suc m) f) before [] nar h =
      rw (append-nil, choice_next-push before (suc m) (omega arith) nar.0)
        (ap (run (f 0)) (started_snoc before [] (suc m))
          ∙ run-complete (f 0) (before ++ suc m ∷ []) [] (nar.1 0 (omega arith)) tt
          ∙ ap (λ c. ok ((complete (f 0) []).0, c)) (snoc_ended before (suc m) _))
  run-complete (node (suc m) f) before (i ∷ p) nar h =
      rw (choice_next-replay before p i (suc m) h.0 h.1 nar.0) (
        ap (run (f (suc m - i))) (started_snoc before p i)
        ∙ run-complete (f (suc m - i)) (before ++ i ∷ []) p (nar.1 (suc m - i) (omega (arith, h.0)))
            h.2
        ∙ ap (λ c. ok ((complete (f (suc m - i)) p).0, c)) (snoc_ended before i _))

-- One attempt: the outcome, whether `advance` found another alternative, and the choice then.
pub record Attempt {ℓ} (A : Type ℓ) : Type ℓ where
  pub outcome : Option A
  pub more : Bool
  pub choice : Choice

module _ {ℓ} {A : Type ℓ} where
  -- Mark, run, reset to the mark and advance, as `pgf_parse_result_next` does it.
  unfoldable pub attempt : (Choice → Run (Option A × Choice)) → Choice → Run (Attempt A)
  attempt m ch = choice_mark ch >>= λ mark. m ch >>= λ r. choice_reset r.1 mark >>= λ back.
      choice_advance back >>= λ a. ok (record { outcome = r.0; more = a.0; choice = a.1 })

  -- The attempt at the path `p` behind `before` took the first of the outcomes to come. `advance`
  -- tells whether there are others, and leaves the choice at the path that has them to come.
  pub record Takes (t : Tree A) (before p : List ℕ) (a : Attempt A) : Type ℓ where
    pub others : List (Option A)
    pub first : rest t p ≡ a.outcome ∷ others
    pub stays :
        ((a.more ≡ false) × (others ≡ []))
        ⊎ ((q : List ℕ) × (a.more ≡ true)
            × (a.choice ≡ started before q)
            × Fits t q
            × (others ≡ rest t q))

  attempt-run :
      (t : Tree A) (before p : List ℕ)
      → IsNarrow t
      → Fits t p
      → attempt (run t) (started before p) ≡ (
          let a = advanced before (succ_path (complete t p).1) in
          ok (record { outcome = (complete t p).0; more = a.0; choice = a.1 }))
  unfolding attempt
  attempt-run t before p nar h = rw (
    mark_started before p,
    run-complete t before p nar h,
    reset_ended before (complete t p).1,
    advance-succ_path before (complete t p).1,
  )

  -- On a path that fits a computation of at most 255 alternatives at each choice, mark, run, reset
  -- and advance return, with the first of the outcomes still to come, and leave a path that fits the
  -- computation and has exactly the others to come, or say that there are none.
  pub attempt-Takes :
      (t : Tree A) (before p : List ℕ)
      → IsNarrow t
      → Fits t p
      → (a : Attempt A) × (attempt (run t) (started before p) ≡ ok a) × Takes t before p a
  unfolding after
  attempt-Takes t before p nar h =
      let q = (complete t p).1 in
      elim (Option-cases (succ_path q)) [
        | inl e ↦ (
          record {
            outcome = (complete t p).0;
            more = false;
            choice = record { path = before; path_idx = length before };
          },
          attempt-run t before p nar h ∙ rw e,
          record {
            others = [];
            first = rest-complete t p h ∙ rw (e, after);
            stays = inl (refl, refl);
          },
        )
        | inr (q', e) ↦ (
          record { outcome = (complete t p).0; more = true; choice = started before q' },
          attempt-run t before p nar h ∙ rw e,
          record {
            others = rest t q';
            first = rest-complete t p h ∙ rw (e, after);
            stays = inr (q', refl, refl, succ_path-Fits t q q' (complete-Fits t p h) e, refl);
          },
        )
      ]
