-- ===== src/Linearizer/Entries.antt =====
-- The choice of an entry in pgf_lzn_infer_apply_try makes its choices as the specification's tree says.
use libpgf.Prelude.{
  ℕ, ◌<◌, ◌≡◌, refl, sym, ◌∙◌, ap, Option, none, some, List, length, Run, ok, raised, abort, fault,
  stuck, ◌>>=◌, get_elem?, get_elem?-lt,
}
use libpgf.Choice.{Choice, choice_next}
use libpgf.Choice.Tree.{run}
use libpgf.Choice.Monad.{choice_next-lt}
use libpgf.Choice.Search.{Seeks, IsLive, live-Seeks, dead-Seeks}
use libpgf.Grammar.{CCatId}
use libpgf.Parser.Trees.{deref}
use libpgf.Parser.Chart.State.{map_get}
use libpgf.Linearizer.{LinInferEntry, InferMap, CncTrees}
use libpgf.Linearizer.Index.{ccat_ids_eq}
use libpgf.Linearizer.Rules.{ccat_ids_eq-IsLawful}
use libpgf.Linearizer.Infer.{pick_entry, entry_at}
use libpgf.Linearizer.Outcomes.{Typed, at_index, entry_leaf, entry_node, IsEntryList, IsInferMap}
use libpgf.Linearizer.Climb.{map_get-All}

-- A run that gets to an end.
abbrev Ends : Typed → Choice → Run (Option Typed × Choice) → Type 0
Ends a ch m = m ≡ ok (some a, ch)

-- The choice of an entry does as the run of its tree.
entry_at-run :
    (trees : CncTrees) (entries : List LinInferEntry) (ch ch2 : Choice) (a : Typed)
    (r : Run (Option ℕ × Choice))
    → choice_next ch (length entries) ≡ r
    → Ends a ch2 (
        r >>= λ s. elim (s.0) [
          | none ↦ ok (none, s.1)
          | some k ↦ run (at_index (entry_leaf trees) (get_elem? entries k)) s.1
        ])
    → Ends a ch2 (r >>= λ s. entry_at entries trees s.0 s.1)
unfolding entry_at
entry_at-run trees entries ch ch2 a (ok (none, ch')) e h = cc (h)
entry_at-run trees entries ch ch2 a (ok (some k, ch')) e h =
    let lt = choice_next-lt (length entries) k ch ch' e in
    let (en, here) = get_elem?-lt entries k lt in
    let h' = ap (λ o. run (at_index (entry_leaf trees) o) ch') (sym here) ∙ h in
    rw (here, deref) (unfold run in h')
entry_at-run trees entries ch ch2 a raised e h = cc (h)
entry_at-run trees entries ch ch2 a abort e h = cc (h)
entry_at-run trees entries ch ch2 a fault e h = cc (h)
entry_at-run trees entries ch ch2 a stuck e h = cc (h)

-- What is known of the entries that are found.
abbrev pub AreEntries : Option (List LinInferEntry) → Type 0
AreEntries none = Unit {0}
AreEntries (some entries) = IsEntryList entries

entry_points-IsLive :
    (trees : CncTrees) (entries : List LinInferEntry) (k : ℕ)
    → k < length entries
    → IsLive (at_index (entry_leaf trees) (get_elem? entries k))
entry_points-IsLive trees entries k lt = let (en, here) = get_elem?-lt entries k lt in rw here tt

entries-Seeks :
    (trees : CncTrees) (entries : List LinInferEntry)
    → IsEntryList entries
    → Seeks (entry_node trees (some entries)) (pick_entry (some entries) trees)
unfolding pick_entry
entries-Seeks trees entries h =
    live-Seeks (entry_node trees (some entries)) (pick_entry (some entries) trees)
      (h.0, h.1, entry_points-IsLive trees entries)
      (λ ch ch2 a e.
        entry_at-run trees entries ch ch2 a (choice_next ch (length entries)) refl
          (unfold run in e))

pub entry_node-Seeks :
    (trees : CncTrees) (o : Option (List LinInferEntry))
    → AreEntries o
    → Seeks (entry_node trees o) (pick_entry o trees)
entry_node-Seeks trees none h = unfold pick_entry in dead-Seeks
entry_node-Seeks trees (some entries) h = entries-Seeks trees entries h

lookup-AreEntries :
    (infer : InferMap) (cats : List CCatId) (o : Option (List LinInferEntry))
    → IsInferMap infer
    → map_get ccat_ids_eq infer cats ≡ o
    → AreEntries o
lookup-AreEntries infer cats none h e = tt
lookup-AreEntries infer cats (some entries) h e =
    map_get-All ccat_ids_eq ccat_ids_eq-IsLawful (λ x. IsEntryList x.1) infer cats entries h e

-- For the arguments that are filled.
pub entries_for-Seeks :
    (infer : InferMap) (cats : List CCatId) (trees : CncTrees)
    → IsInferMap infer
    → Seeks
        (entry_node trees (map_get ccat_ids_eq infer cats))
        (pick_entry (map_get ccat_ids_eq infer cats) trees)
entries_for-Seeks infer cats trees h =
    entry_node-Seeks trees (map_get ccat_ids_eq infer cats)
      (lookup-AreEntries infer cats (map_get ccat_ids_eq infer cats) h refl)
