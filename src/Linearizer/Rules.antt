-- ===== src/Linearizer/Rules.antt =====
-- The productions of a grammar as a list, and what the two indices of pgf_new_lzr hold of it.
use libpgf.Prelude.{
  ◌≡◌, refl, sym, ◌∙◌, ap, ◌&&◌, Option, none, some, List, [], ◌∷◌, ◌++◌, append_assoc, get_elem?,
  map, ◌==◌, if◌then◌else◌,
}
use libpgf.Expr.{CId}
use libpgf.Grammar.{CCatId, Production, apply, coerce, CncCat, CCat, CCatStore}
use libpgf.Parser.Chart.{token_eq}
use libpgf.Parser.Chart.State.{map_get}
use libpgf.Linearizer.{LinInferEntry, Lzr}
use libpgf.Linearizer.Index.{ccat_ids_eq, found, arg_cats, prods_of}
use libpgf.Linearizer.Keys.{IsLawful, ==-IsLawful, list_eq-IsLawful}

-- The productions of a grammar, each with its category.
abbrev pub Rules : Type 0
Rules = List (CCatId × Production)

abbrev pub entry_of : CCatId × Production → CId → List CCatId → List LinInferEntry
entry_of (c, apply fun args) f cats =
    if token_eq fun.fun f && ccat_ids_eq (arg_cats args) cats
    then record { cat = c; fun = fun } ∷ []
    else []
entry_of (c, coerce d) f cats = []

abbrev pub super_of : CCatId × Production → CCatId → List CCatId
super_of (c, apply fun args) d = []
super_of (c, coerce e) d = if e == d then c ∷ [] else []

unfoldable pub entries_in : Rules → CId → List CCatId → List LinInferEntry
entries_in [] f cats = []
entries_in (r ∷ rules) f cats = entry_of r f cats ++ entries_in rules f cats

unfoldable pub supers_in : Rules → CCatId → List CCatId
supers_in [] d = []
supers_in (r ∷ rules) d = super_of r d ++ supers_in rules d

abbrev pub entries_of : Lzr → CId → List CCatId → List LinInferEntry
entries_of lzr f cats =
    found (map_get ccat_ids_eq (found (map_get token_eq lzr.fun_indices f)) cats)

abbrev pub supers_of : Lzr → CCatId → List CCatId
supers_of lzr c = found (map_get ◌==◌ lzr.coerce_idx c)

-- A linearizer that has indexed `rules`, in their order.
pub record Indexes (rules : Rules) (lzr : Lzr) : Type 0 where
  pub entries : (f : CId) (cats : List CCatId) → entries_of lzr f cats ≡ entries_in rules f cats
  pub supers : (c : CCatId) → supers_of lzr c ≡ supers_in rules c

-- The productions of the categories listed.
abbrev pub rules_from : CCatId → Option CCat → Rules
rules_from c none = []
rules_from c (some cat) = map (λ p. (c, p)) (prods_of cat.prods)

abbrev pub rules_at : CCatStore → CCatId → Rules
rules_at store c = rules_from c (get_elem? store c)

unfoldable pub rules_of : CCatStore → List CCatId → Rules
rules_of store [] = []
rules_of store (c ∷ cs) = rules_at store c ++ rules_of store cs

-- The categories of a `PgfCncCat` that are not null.
unfoldable pub present : List (Option CCatId) → List CCatId
present [] = []
present (none ∷ cats) = present cats
present (some c ∷ cats) = c ∷ present cats

unfoldable pub listed : List CncCat → List CCatId
unfolding present
listed [] = []
listed (c ∷ cnccats) = present c.cats ++ listed cnccats

pub entries_in-append :
    (xs ys : Rules) (f : CId) (cats : List CCatId)
    → entries_in (xs ++ ys) f cats ≡ entries_in xs f cats ++ entries_in ys f cats
unfolding entries_in
entries_in-append [] ys f cats = refl
entries_in-append (x ∷ xs) ys f cats =
    ap (λ l. entry_of x f cats ++ l) (entries_in-append xs ys f cats)
    ∙ sym (append_assoc (entry_of x f cats) (entries_in xs f cats) (entries_in ys f cats))

pub supers_in-append :
    (xs ys : Rules) (c : CCatId) → supers_in (xs ++ ys) c ≡ supers_in xs c ++ supers_in ys c
unfolding supers_in
supers_in-append [] ys c = refl
supers_in-append (x ∷ xs) ys c =
    ap (λ l. super_of x c ++ l) (supers_in-append xs ys c)
    ∙ sym (append_assoc (super_of x c) (supers_in xs c) (supers_in ys c))

pub ccat_ids_eq-IsLawful : IsLawful ccat_ids_eq
unfolding ccat_ids_eq
ccat_ids_eq-IsLawful = list_eq-IsLawful ◌==◌ ==-IsLawful
