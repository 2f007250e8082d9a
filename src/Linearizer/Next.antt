-- ===== src/Linearizer/Next.antt =====
-- pgf_lzn_next goes through the concrete trees of an expression.
use libpgf.Prelude.{
  ℕ, zero, suc, ◌<◌, ◌≡◌, refl, sym, ◌∙◌, ap, Bool, ==_iff, Option, none, some, List, [], ◌∷◌, ◌++◌,
  append-nil, drop, ◌⊎◌, inl, inr, Run, ok, if◌then◌else◌,
}
use libpgf.Choice.{Choice, new_choice, choice_reset}
use libpgf.Choice.Path.{succ_path, advanced, advance-succ_path}
use libpgf.Choice.Tree.{Tree, Fits, leaves, rest, after, succ_path-Fits}
use libpgf.Choice.Monad.{Choosing}
use libpgf.Choice.Bind.{IsAt, nones}
use libpgf.Choice.Runs.{started, mark_started, reset_ended}
use libpgf.Choice.Search.{Search, hit, miss, Seeks, ended-started, rest_nil}
use libpgf.Expr.{Expr}
use libpgf.Grammar.{CCatId}
use libpgf.Linearizer.{Lzr, CncTree}
use libpgf.Linearizer.Infer.{LiteralCats, infer}
use libpgf.Linearizer.Enumerate.{
  Lzn, concretize, first_cat, with_tree, second_tree, next_of, lzn_next,
}
use libpgf.Linearizer.Outcomes.{Typed, infer_tree, IsSearchable, height, AreEnough}
use libpgf.Linearizer.Levels.{after_last, after_next}
use libpgf.Linearizer.Found.{infer-Seeks}
use mathlib.Core.Path.{subst}

-- The outcomes that an enumeration of the trees of `e` has to come: none when its expression is
-- null.
pub data IsPending (t : Tree Typed) (e : Expr) (outcomes : List (Option Typed)) (lzn : Lzn)
    : Type 0 where
  at_path :
      (p : List ℕ)
      → Fits t p
      → outcomes ≡ rest t p
      → lzn ≡ record { ch = started [] p; expr = some e }
      → IsPending t e outcomes lzn
  at_end : outcomes ≡ [] → lzn.expr ≡ none → IsPending t e outcomes lzn

-- The next of the outcomes that is no dead end, with those behind it still to come; or null, after
-- which the enumeration is where it was or at its beginning.
pub data Proceeds (t : Tree Typed) (e : Expr) (outcomes : List (Option Typed)) (lzn : Lzn)
    (m : Run (Option CncTree × Lzn)) : Type 0 where
  tree_next :
      (a : Typed) (k : ℕ) (behind : List (Option Typed)) (lzn' : Lzn)
      → outcomes ≡ nones k ++ some a ∷ behind
      → m ≡ ok (some a.1, lzn')
      → IsPending t e behind lzn'
      → Proceeds t e outcomes lzn m
  none_next :
      (k : ℕ) (lzn' : Lzn)
      → outcomes ≡ nones k
      → m ≡ ok (none, lzn')
      → (lzn' ≡ lzn) ⊎ (lzn' ≡ concretize e)
      → Proceeds t e outcomes lzn m

-- In a section over an expression whose inference goes to the next of its trees.
module _ (t : Tree Typed) (go : Expr → Choosing Typed) (e : Expr) (seeks : Seeks t (go e)) where
  -- The reset to the beginning.
  reset_all : (q : List ℕ) → choice_reset (started q []) 0 ≡ ok (started [] q)
  reset_all q = ap (λ c. choice_reset c 0) (sym (ended-started [] q)) ∙ reset_ended [] q

  first_cat_hit :
      (tries : ℕ) (p q : List ℕ) (a : Typed)
      → go e (started [] p) ≡ ok (some a, started q [])
      → first_cat go (suc tries) e 0 (started [] p) ≡ ok (some a.0, started [] q)
  unfolding first_cat
  first_cat_hit tries p q a h = rw (h, reset_all q) refl

  first_cat_miss :
      (tries : ℕ) (p : List ℕ)
      → go e (started [] p) ≡ ok (none, started [] [])
      → first_cat go (suc tries) e 0 (started [] p) ≡ ok (none, new_choice)
  unfolding first_cat succ_path
  first_cat_miss tries p h = rw (h, reset_all [], advance-succ_path [] []) refl

  -- What is left of the enumeration behind an end.
  abbrev advanced_lzn : Bool × Choice → Lzn
  advanced_lzn a = record { ch = a.1; expr = if a.0 then some e else none }

  with_tree_is :
      (a : Typed) (q : List ℕ)
      → with_tree go e 0 a.0 (some a) (started q [])
        ≡ ok (some a.1, advanced_lzn (advanced [] (succ_path q)))
  unfolding with_tree
  with_tree_is a q = rw ((==_iff a.0 a.0).1 refl, reset_all q, advance-succ_path [] q) refl

  advanced-IsPending :
      (q : List ℕ) (r : Option Typed) (o : Option (List ℕ))
      → IsAt t q r
      → succ_path q ≡ o
      → IsPending t e (after t q) (advanced_lzn (advanced [] o))
  advanced-IsPending q r none at h = at_end (after_last t q h) refl
  advanced-IsPending q r (some q') at h =
      at_path q' (succ_path-Fits t q q' at.0 h) (after_next t q q' h) refl

  next_hit :
      (tries : ℕ) (p q : List ℕ) (a : Typed) (m : Run (Option Typed × Choice))
      → go e (started [] p) ≡ ok (some a, started q [])
      → go e (started [] q) ≡ ok (some a, started q [])
      → lzn_next go (suc tries) (record { ch = started [] p; expr = some e })
        ≡ ok (some a.1, advanced_lzn (advanced [] (succ_path q)))
  unfolding lzn_next next_of second_tree
  next_hit tries p q a m h k =
      rw (mark_started [] p, first_cat_hit tries p q a h, k) (with_tree_is a q)

  next_miss :
      (tries : ℕ) (p : List ℕ)
      → go e (started [] p) ≡ ok (none, started [] [])
      → lzn_next go (suc tries) (record { ch = started [] p; expr = some e })
        ≡ ok (none, concretize e)
  unfolding lzn_next next_of second_tree
  next_miss tries p h = rw (mark_started [] p, first_cat_miss tries p h) refl

  -- Replayed along the path that it left, the inference comes to the same end.
  again :
      (q : List ℕ) (a : Typed) → IsAt t q (some a) → go e (started [] q) ≡ ok (some a, started q [])
  again q a at = ap (λ l. go e (started [] l)) (sym (append-nil q)) ∙ seeks.replays [] q [] a at

  Search-Proceeds :
      (tries : ℕ) (p : List ℕ) (outcomes : List (Option Typed)) (lzn : Lzn)
      → outcomes ≡ rest t p
      → Search t [] p (go e (started [] p))
      → Proceeds t e outcomes lzn
          (lzn_next go (suc tries) (record { ch = started [] p; expr = some e }))
  Search-Proceeds tries p outcomes lzn h (hit a q k at e' run_is) =
      tree_next a k (after t q) (advanced_lzn (advanced [] (succ_path q))) (h ∙ e')
        (next_hit tries p q a (go e (started [] p)) run_is (again q a at))
        (advanced-IsPending q (some a) (succ_path q) at refl)
  Search-Proceeds tries p outcomes lzn h (miss k e' run_is) =
      none_next (suc k) (concretize e) (h ∙ e') (next_miss tries p run_is) (inr refl)

  any-Proceeds :
      (tries : ℕ) (outcomes : List (Option Typed)) (lzn : Lzn)
      → IsPending t e outcomes lzn
      → Proceeds t e outcomes lzn (lzn_next go (suc tries) lzn)
  any-Proceeds tries outcomes lzn (at_path p fit h is) =
      subst (λ l. Proceeds t e outcomes lzn (lzn_next go (suc tries) l)) (sym is)
        (Search-Proceeds tries p outcomes lzn h (seeks.finds [] p fit))
  any-Proceeds tries outcomes lzn (at_end h k) =
      none_next 0 lzn h (unfold lzn_next next_of in rw k refl) (inl refl)

  restart :
      (tries k : ℕ) (p : List ℕ)
      → Search t [] p (go e (started [] p))
      → rest t p ≡ nones k
      → lzn_next go (suc tries) (record { ch = started [] p; expr = some e })
        ≡ ok (none, concretize e)
  restart tries k p (miss j e' run_is) h = next_miss tries p run_is
  restart tries k p (hit a q j at e' run_is) h = absurd (not_dead j k a (after t q) (sym e' ∙ h))
    where
      not_dead :
          (j k : ℕ) (a : Typed) (l : List (Option Typed)) → nones j ++ some a ∷ l ≡ nones k → ⊥
      not_dead zero zero a l h = cc
      not_dead zero (suc k) a l h = cc
      not_dead (suc j) zero a l h = cc
      not_dead (suc j) (suc k) a l h = not_dead j k a l (ap (drop 1) h)

-- In a section over a linearizer whose coercions are not cyclic and at most 254 of a category, whose
-- entries are at most 255 for each application, and fuel enough for an expression.
module _ (fuel rounds depth tries : ℕ) (rank : CCatId → ℕ) (lzr : Lzr) (lits : LiteralCats)
    (e : Expr) (searchable : IsSearchable depth rank lzr) (deep : height e < fuel)
    (enough : AreEnough rounds depth lzr lits fuel e) where
  abbrev its_trees : Tree Typed
  its_trees = infer_tree fuel depth lzr lits e

  abbrev next_call : Lzn → Run (Option CncTree × Lzn)
  next_call = lzn_next (infer fuel rounds depth lzr lits) (suc tries)

  its-Seeks : Seeks its_trees (infer fuel rounds depth lzr lits e)
  its-Seeks = infer-Seeks rounds depth rank lzr lits searchable fuel e deep enough

  -- On a linearizer whose coercions are not cyclic and at most 254 of a category, with at most
  -- 255 entries for an application, with fuel for the height of the expression, for the longest
  -- climb from a category, and a round for each outcome of an application, pgf_lzn_next returns,
  -- on an enumeration that is pending: the next concrete tree of the expression in the order of
  -- the choices, with every dead end in front of it passed over and exactly the outcomes behind
  -- it still to come; or null, where only dead ends were to come. It neither faults nor aborts,
  -- and its two inferences agree.
  pub lzn_next-Proceeds :
      (outcomes : List (Option Typed)) (lzn : Lzn)
      → IsPending its_trees e outcomes lzn
      → Proceeds its_trees e outcomes lzn (next_call lzn)
  lzn_next-Proceeds outcomes lzn h =
      any-Proceeds its_trees (infer fuel rounds depth lzr lits) e its-Seeks tries outcomes lzn h

  -- pgf_lzr_concretize has all concrete trees of its expression to come.
  pub concretize-IsPending : IsPending its_trees e (leaves its_trees) (concretize e)
  concretize-IsPending = at_path [] tt (sym (rest_nil its_trees)) refl

  -- On a linearizer whose coercions are not cyclic and at most 254 of a category, with at most
  -- 255 entries for an application, with fuel for the height of the expression, for the longest
  -- climb from a category, and a round for each outcome of an application: where only dead ends
  -- are to come, at a path of choices that there are, pgf_lzn_next returns null and leaves the
  -- enumeration as pgf_lzr_concretize made it, so that a further call begins again with the
  -- first tree.
  pub lzn_next-restarts :
      (k : ℕ) (p : List ℕ)
      → Fits its_trees p
      → rest its_trees p ≡ nones k
      → next_call (record { ch = started [] p; expr = some e }) ≡ ok (none, concretize e)
  lzn_next-restarts k p fit h =
      restart its_trees (infer fuel rounds depth lzr lits) e its-Seeks tries k p
        (its-Seeks.finds [] p fit) h
