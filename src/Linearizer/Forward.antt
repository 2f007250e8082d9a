-- ===== src/Linearizer/Forward.antt =====
-- One try of pgf_lzn_infer_apply_try, from where the inference of an application stands.
use libpgf.Prelude.{
  ℕ, ◌≡◌, refl, sym, ◌∙◌, ap, Bool, false, Option, none, some, List, [], ◌∷◌, Run, ok, raised,
  abort, fault, stuck, ◌>>=◌, bind_assoc,
}
use libpgf.Choice.{Choice, choice_mark}
use libpgf.Choice.Monad
use libpgf.Choice.Monad.{Choosing, bind, continue, choice_next-lt}
use libpgf.Expr.{Expr}
use libpgf.Parser.Chart.State.{map_get}
use libpgf.Linearizer.{InferMap, Lzr, no_trees}
use libpgf.Linearizer.Index.{ccat_ids_eq}
use libpgf.Linearizer.Infer.{
  Inferred, Filling, pick_supercat, fill_args, fill_arg, pick_entry, finish_try,
}
use libpgf.Linearizer.Outcomes.{Typed, typed_cats, typed_trees}
use libpgf.Linearizer.Levels.{unmarked, typed_cats-unmarked, typed_trees-unmarked}

-- pgf_lzn_pick_supercat, with the tree of the argument carried along.
abbrev pub pick_with : ℕ → Lzr → Typed → Choosing Typed
pick_with depth lzr a ch = pick_supercat depth lzr a.0 ch >>= λ s. ok (some (s.0, a.1), s.1)

-- An argument inferred and coerced.
abbrev pub coerced : ℕ → Lzr → (Expr → Choosing Typed) → Expr → Choosing Typed
coerced depth lzr go e = Monad.◌>>=◌ (go e) (pick_with depth lzr)

abbrev pub put : Filling → ℕ → Typed → Filling
put st mark a = record {
  mark = mark;
  filled = record { mark = st.mark; cat = a.0; tree = a.1 } ∷ st.filled;
}

abbrev placed :
    (Filling → Choice → Run ((Bool × Filling) × Choice))
    → Filling
    → Option Typed
    → Choice
    → Run ((Bool × Filling) × Choice)
placed others st none ch = ok ((false, st), ch)
placed others st (some a) ch = choice_mark ch >>= λ mark. others (put st mark a) ch

fill_arg-placed :
    (depth : ℕ) (lzr : Lzr) (others : Filling → Choice → Run ((Bool × Filling) × Choice))
    (st : Filling) (r : Run Inferred)
    → ◌≡◌ {A = Run ((Bool × Filling) × Choice)}
        (r >>= λ x. fill_arg depth lzr others st x.0 x.1)
        (continue (pick_with depth lzr) r >>= λ x. placed others st x.0 x.1)
unfolding fill_arg
fill_arg-placed depth lzr others st (ok (none, ch)) = refl
fill_arg-placed depth lzr others st (ok (some a, ch)) = sym (
    bind_assoc (pick_supercat depth lzr a.0 ch) (λ s. ok (some (s.0, a.1), s.1))
      (λ x. placed others st x.0 x.1))
fill_arg-placed depth lzr others st raised = refl
fill_arg-placed depth lzr others st abort = refl
fill_arg-placed depth lzr others st fault = refl
fill_arg-placed depth lzr others st stuck = refl

-- The arguments that are left, and then an entry.
unfoldable pub one_try :
    ℕ
    → Lzr
    → (Expr → Choosing Typed)
    → InferMap
    → List Expr
    → Filling
    → Choice
    → Run ((Option Typed × Filling) × Choice)
one_try depth lzr go infer todo st ch =
    fill_args depth lzr go todo st ch >>= λ r. finish_try infer r.0.0 r.0.1 r.1

module _ (depth : ℕ) (lzr : Lzr) (go : Expr → Choosing Typed) (infer : InferMap) where
  abbrev pub try : List Expr → Filling → Choice → Run ((Option Typed × Filling) × Choice)
  try = one_try depth lzr go infer

  -- An argument that is filled, and one that is not.
  pub try-some :
      (e : Expr) (todo : List Expr) (st : Filling) (ch ch' : Choice) (a : Typed) (mark : ℕ)
      → coerced depth lzr go e ch ≡ ok (some a, ch')
      → choice_mark ch' ≡ ok mark
      → try (e ∷ todo) st ch ≡ try todo (put st mark a) ch'
  unfolding one_try fill_args
  try-some e todo st ch ch' a mark h k =
      ap (λ m. m >>= λ r. finish_try infer r.0.0 r.0.1 r.1)
        (fill_arg-placed depth lzr (fill_args depth lzr go todo) st (go e ch)
          ∙ ap (λ m. m >>= λ x. placed (fill_args depth lzr go todo) st x.0 x.1) h
          ∙ ap (λ m. m >>= λ n. fill_args depth lzr go todo (put st n a) ch') k)

  pub try-none :
      (e : Expr) (todo : List Expr) (st : Filling) (ch ch' : Choice)
      → coerced depth lzr go e ch ≡ ok (none, ch')
      → try (e ∷ todo) st ch ≡ ok ((none, st), ch')
  unfolding one_try fill_args finish_try
  try-none e todo st ch ch' h =
      ap (λ m. m >>= λ r. finish_try infer r.0.0 r.0.1 r.1)
        (fill_arg-placed depth lzr (fill_args depth lzr go todo) st (go e ch)
          ∙ ap (λ m. m >>= λ x. placed (fill_args depth lzr go todo) st x.0 x.1) h)

  -- No argument left.
  pub try-nil :
      (st : Filling) (ch : Choice)
      → try [] st ch ≡ (
          pick_entry
            (map_get ccat_ids_eq infer (typed_cats (unmarked st.filled) []))
            (typed_trees (unmarked st.filled) no_trees)
            ch
          >>= λ s. ok ((s.0, st), s.1))
  unfolding one_try fill_args finish_try
  try-nil st ch =
      rw (typed_cats-unmarked st.filled [], typed_trees-unmarked st.filled no_trees) refl
