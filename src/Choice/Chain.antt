-- ===== src/Choice/Chain.antt =====
-- One searching function after another.
use libpgf.Prelude.{
  ℕ, ◌+◌, ◌≡◌, sym, ◌∙◌, ap, some, List, [], ◌∷◌, ◌++◌, append_assoc, inl, inr, ok,
}
use libpgf.Choice.Tree.{Tree, Fits, rest, after, rest-complete}
use libpgf.Choice.Monad.{Choosing, bind, continue, ◌>>=◌}
use libpgf.Choice.Bind.{
  IsAt, nones, expand, rest-behind, after-behind, IsAt-behind, split, ends, nones-nones,
}
use libpgf.Choice.Search.{
  Search, hit, miss, Seeks, Step, goes, dead, Search-Step, IsLive, live_outcome,
}
use libpgf.Choice.Runs.{started}
use mathlib.Core.Path.{subst}

pub step :
    {A B : Type 0} (t : Tree A) (g : A → Tree B) (m : Choosing A) (before path : List ℕ)
    → Seeks t m
    → Fits (bind t g) path
    → Step t g before path (m (started before path))
step t g m before path h fit = elim (split g t path fit) [
  | inl inside ↦ Search-Step t g before path _ inside (h.finds before path inside)
  | inr (q, p, a, e, at, beyond) ↦
      subst (λ l. Step t g before l (m (started before l))) (sym e)
        (goes a q p 0 (h.replays before q p a at) at beyond (rest-behind g a p t q at))
]

-- In a section over a searching function, and what follows it, which has no dead ends.
module _ {A B : Type 0} (t : Tree A) (m : Choosing A) (g : A → Tree B) (f : A → Choosing B)
    (first : Seeks t m) (second : (a : A) → Seeks (g a) (f a)) (live : (a : A) → IsLive (g a)) where
  bind-replays :
      (before path p : List ℕ) (b : B)
      → IsAt (bind t g) path (some b)
      → (m >>= f) (started before (path ++ p)) ≡ ok (some b, started (before ++ path) p)
  bind-replays before path p b h =
      let (q, q', a, e, at, at') = ends g t path b h in
      subst (λ l. (m >>= f) (started before (l ++ p)) ≡ ok (some b, started (before ++ l) p))
        (sym e)
        (ap (λ l. (m >>= f) (started before l)) (append_assoc q q' p)
          ∙ ap (continue f) (first.replays before q (q' ++ p) a at)
          ∙ (second a).replays (before ++ q) q' p b at'
          ∙ ap (λ l. ok (some b, started l p)) (append_assoc before q q'))

  bind_goes :
      (before path : List ℕ) (a : A) (q p : List ℕ) (k : ℕ)
      → m (started before path) ≡ ok (some a, started (before ++ q) p)
      → IsAt t q (some a)
      → Fits (g a) p
      → rest (bind t g) path ≡ nones k ++ (rest (g a) p ++ expand g (after t q))
      → Search (g a) (before ++ q) p (f a (started (before ++ q) p))
      → Search (bind t g) before path ((m >>= f) (started before path))
  bind_goes before path a q p k run_is at fit rest_is (hit b q' k' at' e run_on) =
      hit b (q ++ q') (k + k') (IsAt-behind g a t q q' (some b) at at')
        (rest_is
          ∙ ap (λ l. nones k ++ (l ++ expand g (after t q))) e
          ∙ ap (λ l. nones k ++ l)
              (append_assoc (nones k') (some b ∷ after (g a) q') (expand g (after t q)))
          ∙ nones-nones k k' (some b ∷ (after (g a) q' ++ expand g (after t q)))
          ∙ ap (λ l. nones (k + k') ++ some b ∷ l) (sym (after-behind g a t q q' (some b) at at')))
        (ap (continue f) run_is
          ∙ run_on
          ∙ ap (λ l. ok (some b, started l [])) (append_assoc before q q'))
  bind_goes before path a q p k run_is at fit rest_is (miss k' e run_on) =
      let (b, out) = live_outcome (g a) p (live a) fit in
      let next = sym e ∙ rest-complete (g a) p fit in cc

  Step-Search :
      (before path : List ℕ)
      → Step t g before path (m (started before path))
      → Search (bind t g) before path ((m >>= f) (started before path))
  Step-Search before path (goes a q p k run_is at fit rest_is) =
      bind_goes before path a q p k run_is at fit rest_is ((second a).finds (before ++ q) p fit)
  Step-Search before path (dead k run_is rest_is) = miss k rest_is (ap (continue f) run_is)

  pub bind-Seeks : Seeks (bind t g) (m >>= f)
  bind-Seeks = record {
    replays = bind-replays;
    finds = λ before path fit. Step-Search before path (step t g m before path first fit);
  }
