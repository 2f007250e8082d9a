-- ===== src/Linearizer/Indexed.antt =====
-- What the indices of a linearizer hold, against the list of the productions of a grammar.
use libpgf.Prelude.{
  ◌<◌, ◌≡◌, refl, sym, ◌∙◌, ap, Bool-cases, inl, inr, Option, none, some, List, [], ◌∷◌, ◌++◌,
  append_assoc, append-nil, length, get_elem?, get_elem?-lt, map, All, ◌==◌, if◌then◌else◌, Run, ok,
  ◌>>=◌,
}
use libpgf.Expr.{CId}
use libpgf.Grammar.{CCatId, Production, apply, coerce, CncCat, CCat, CCatStore}
use libpgf.Parser.Trees.{deref}
use libpgf.Parser.Chart.{token_eq}
use libpgf.Parser.Chart.State.{map_get}
use libpgf.Linearizer.{InferMap, Lzr}
use libpgf.Linearizer.Index.{
  ccat_ids_eq, found, arg_cats, prods_of, add_infer_entry, index, index_prods, index_ccat,
  index_cnccat, index_cnccats, index_extras, new_lzr,
}
use mathlib.Core.Path.{subst}
use libpgf.Linearizer.Keys.{==-IsLawful, token_eq-IsLawful, map_get-map_put}
use libpgf.Linearizer.Rules.{
  Rules, entry_of, super_of, entries_in, supers_in, entries_of, supers_of, Indexes, rules_from,
  rules_at, rules_of, present, listed, entries_in-append, supers_in-append, ccat_ids_eq-IsLawful,
}

add_infer_entry-found :
    (table : InferMap) (c : CCatId) (fun : _) (args : _) (cats : List CCatId)
    → found (map_get ccat_ids_eq (add_infer_entry table c fun args) cats)
      ≡ found (map_get ccat_ids_eq table cats)
        ++ (if ccat_ids_eq (arg_cats args) cats then record { cat = c; fun = fun } ∷ [] else [])
unfolding add_infer_entry
add_infer_entry-found table c fun args cats =
    let get = map_get-map_put ccat_ids_eq ccat_ids_eq-IsLawful table (arg_cats args) cats in
    elim (Bool-cases (ccat_ids_eq (arg_cats args) cats)) [
      | inl same ↦
          let e = ccat_ids_eq-IsLawful.sound (arg_cats args) cats same in rw (get _, same, e) refl
      | inr other ↦ rw (get _, other, append-nil) refl
    ]

index-entries :
    (lzr : Lzr) (c : CCatId) (prod : Production) (f : CId) (cats : List CCatId)
    → entries_of (index lzr c prod) f cats ≡ entries_of lzr f cats ++ entry_of (c, prod) f cats
unfolding index
index-entries lzr c (coerce d) f cats = sym (append-nil (entries_of lzr f cats))
index-entries lzr c (apply fun args) f cats =
    let infer = found (map_get token_eq lzr.fun_indices fun.fun) in
    let get = map_get-map_put token_eq token_eq-IsLawful lzr.fun_indices fun.fun f in
    elim (Bool-cases (token_eq fun.fun f)) [
      | inl same ↦
          let e : fun.fun ≡ f = token_eq-IsLawful.sound fun.fun f same in
          rw (get _, same)
            (add_infer_entry-found infer c fun args cats
              ∙ ap
                  (λ g.
                    found (map_get ccat_ids_eq (found (map_get token_eq lzr.fun_indices g)) cats)
                    ++ (if ccat_ids_eq (arg_cats args) cats
                        then record { cat = c; fun = fun } ∷ []
                        else []))
                  e)
      | inr other ↦ rw (get _, other) (sym (append-nil (entries_of lzr f cats)))
    ]

index-supers :
    (lzr : Lzr) (c : CCatId) (prod : Production) (d : CCatId)
    → supers_of (index lzr c prod) d ≡ supers_of lzr d ++ super_of (c, prod) d
unfolding index
index-supers lzr c (apply fun args) d = sym (append-nil (supers_of lzr d))
index-supers lzr c (coerce e) d =
    let get = map_get-map_put ◌==◌ ==-IsLawful lzr.coerce_idx e d in
    elim (Bool-cases (e == d)) [
      | inl same ↦
          let p : e ≡ d = ==-IsLawful.sound e d same in
          rw (get _, same) (ap (λ g. supers_of lzr g ++ c ∷ []) p)
      | inr other ↦ rw (get _, other) (sym (append-nil (supers_of lzr d)))
    ]

index-Indexes :
    (rules : Rules) (lzr : Lzr) (c : CCatId) (prod : Production)
    → Indexes rules lzr
    → Indexes (rules ++ (c, prod) ∷ []) (index lzr c prod)
index-Indexes rules lzr c prod h = record {
  entries = λ f cats.
      index-entries lzr c prod f cats
      ∙ ap (λ l. l ++ entry_of (c, prod) f cats) (h.entries f cats)
      ∙ sym (
          entries_in-append rules ((c, prod) ∷ []) f cats
          ∙ ap (λ l. entries_in rules f cats ++ l)
              (unfold entries_in in append-nil (entry_of (c, prod) f cats)));
  supers = λ d.
      index-supers lzr c prod d
      ∙ ap (λ l. l ++ super_of (c, prod) d) (h.supers d)
      ∙ sym (
          supers_in-append rules ((c, prod) ∷ []) d
          ∙ ap (λ l. supers_in rules d ++ l)
              (unfold supers_in in append-nil (super_of (c, prod) d)));
}

index_prods-Indexes :
    (rules : Rules) (lzr : Lzr) (c : CCatId) (prods : List Production)
    → Indexes rules lzr
    → Indexes (rules ++ map (λ p. (c, p)) prods) (index_prods lzr c prods)
unfolding index_prods
index_prods-Indexes rules lzr c [] h = rw append-nil h
index_prods-Indexes rules lzr c (p ∷ prods) h =
    subst (λ r. Indexes r (index_prods (index lzr c p) c prods))
      (append_assoc rules ((c, p) ∷ []) (map (λ q. (c, q)) prods))
      (index_prods-Indexes (rules ++ (c, p) ∷ []) (index lzr c p) c prods
        (index-Indexes rules lzr c p h))

-- A step of the indexing that returns, and has indexed more.
abbrev Adds : Rules → Rules → Run Lzr → Type 0
Adds rules more m = (lzr : Lzr) × (m ≡ ok lzr) × Indexes (rules ++ more) lzr

deref_found :
    (store : CCatStore) (c : CCatId) (cat : CCat)
    → get_elem? store c ≡ some cat
    → deref store c ≡ ok cat
deref_found store c cat e = rw (e, deref) refl

index_ccat-Adds :
    (store : CCatStore) (rules : Rules) (lzr : Lzr) (c : CCatId)
    → c < length store
    → Indexes rules lzr
    → Adds rules (rules_at store c) (index_ccat store lzr c)
unfolding index_ccat
index_ccat-Adds store rules lzr c lt h =
    let (cat, e) = get_elem?-lt store c lt in
    let lzr' = index_prods lzr c (prods_of cat.prods) in
    (
      lzr',
      ap (λ m. m >>= λ k. ok (index_prods lzr c (prods_of k.prods))) (deref_found store c cat e),
      subst (λ o. Indexes (rules ++ rules_from c o) lzr') (sym e)
          (index_prods-Indexes rules lzr c (prods_of cat.prods) h),
    )

Adds-bind :
    (rules xs ys : Rules) (m : Run Lzr) (f : Lzr → Run Lzr)
    → Adds rules xs m
    → ((lzr : Lzr) → Indexes (rules ++ xs) lzr → Adds (rules ++ xs) ys (f lzr))
    → Adds rules (xs ++ ys) (m >>= f)
Adds-bind rules xs ys m f (lzr, e, h) step =
    let (lzr', e', h') = step lzr h in
    (lzr', ap (λ r. r >>= f) e ∙ e', subst (λ r. Indexes r lzr') (append_assoc rules xs ys) h')

index_extras-Adds :
    (store : CCatStore) (rules : Rules) (lzr : Lzr) (cs : List CCatId)
    → All (λ c. c < length store) cs
    → Indexes rules lzr
    → Adds rules (rules_of store cs) (index_extras store lzr cs)
unfolding index_extras rules_of
index_extras-Adds store rules lzr [] all h = (lzr, refl, rw append-nil h)
index_extras-Adds store rules lzr (c ∷ cs) all h =
    Adds-bind rules (rules_at store c) (rules_of store cs) _ _
      (index_ccat-Adds store rules lzr c all.0 h)
      (λ lzr' h'. index_extras-Adds store (rules ++ rules_at store c) lzr' cs all.1 h')

index_cnccat-Adds :
    (store : CCatStore) (rules : Rules) (lzr : Lzr) (cs : List (Option CCatId))
    → All (λ c. c < length store) (present cs)
    → Indexes rules lzr
    → Adds rules (rules_of store (present cs)) (index_cnccat store lzr cs)
unfolding index_cnccat rules_of present
index_cnccat-Adds store rules lzr [] all h = (lzr, refl, rw append-nil h)
index_cnccat-Adds store rules lzr (none ∷ cs) all h = index_cnccat-Adds store rules lzr cs all h
index_cnccat-Adds store rules lzr (some c ∷ cs) all h =
    Adds-bind rules (rules_at store c) (rules_of store (present cs)) _ _
      (index_ccat-Adds store rules lzr c all.0 h)
      (λ lzr' h'. index_cnccat-Adds store (rules ++ rules_at store c) lzr' cs all.1 h')

rules_of-append :
    (store : CCatStore) (xs ys : List CCatId)
    → rules_of store (xs ++ ys) ≡ rules_of store xs ++ rules_of store ys
unfolding rules_of
rules_of-append store [] ys = refl
rules_of-append store (c ∷ xs) ys =
    ap (λ l. rules_at store c ++ l) (rules_of-append store xs ys)
    ∙ sym (append_assoc (rules_at store c) (rules_of store xs) (rules_of store ys))

All-append {ℓ} :
    {A : Type 0} (P : A → Type ℓ) (xs ys : List A) → All P (xs ++ ys) → All P xs × All P ys
All-append P [] ys h = (tt, h)
All-append P (x ∷ xs) ys h = let (l, r) = All-append P xs ys h.1 in ((h.0, l), r)

index_cnccats-Adds :
    (store : CCatStore) (rules : Rules) (lzr : Lzr) (cnccats : List CncCat)
    → All (λ c. c < length store) (listed cnccats)
    → Indexes rules lzr
    → Adds rules (rules_of store (listed cnccats)) (index_cnccats store lzr cnccats)
unfolding index_cnccats listed
index_cnccats-Adds store rules lzr [] all h = (lzr, refl, unfold rules_of in rw append-nil h)
index_cnccats-Adds store rules lzr (c ∷ cnccats) all h =
    let (here, there) = All-append (λ k. k < length store) (present c.cats) (listed cnccats) all in
    subst (λ r. Adds rules r (index_cnccats store lzr (c ∷ cnccats)))
      (sym (rules_of-append store (present c.cats) (listed cnccats)))
      (Adds-bind rules (rules_of store (present c.cats)) (rules_of store (listed cnccats)) _ _
        (index_cnccat-Adds store rules lzr c.cats here h)
        (λ lzr' h'.
          index_cnccats-Adds store (rules ++ rules_of store (present c.cats)) lzr' cnccats there
            h'))

-- Over categories that are in memory, pgf_new_lzr returns a linearizer whose two indices hold
-- exactly the productions of those categories, in the order of the categories and of their
-- productions: under a function and the categories of its arguments the applications of that
-- function to those, under a category the coercions of it.
pub new_lzr-Indexes :
    (store : CCatStore) (cnccats : List CncCat) (extra_ccats : List CCatId)
    → All (λ c. c < length store) (listed cnccats ++ extra_ccats)
    → (lzr : Lzr) × (new_lzr store cnccats extra_ccats ≡ ok lzr)
      × Indexes (rules_of store (listed cnccats ++ extra_ccats)) lzr
unfolding new_lzr
new_lzr-Indexes store cnccats extra_ccats all =
    let (named, extra) = All-append (λ k. k < length store) (listed cnccats) extra_ccats all in
    let none_yet : Lzr = record { fun_indices = []; coerce_idx = [] } in
    let start : Indexes [] none_yet = record {
      entries = λ f cats. unfold entries_in map_get in refl;
      supers = λ c. unfold supers_in map_get in refl;
    } in
    let (lzr, e, h) =
      Adds-bind [] (rules_of store (listed cnccats)) (rules_of store extra_ccats)
        (index_cnccats store none_yet cnccats) (λ l. index_extras store l extra_ccats)
        (index_cnccats-Adds store [] none_yet cnccats named start)
        (λ lzr' h'. index_extras-Adds store _ lzr' extra_ccats extra h') in
    (
      lzr,
      e,
      subst (λ r. Indexes r lzr) (sym (rules_of-append store (listed cnccats) extra_ccats)) h,
    )
