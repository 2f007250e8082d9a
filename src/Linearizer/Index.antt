-- ===== src/Linearizer/Index.antt =====
-- pgf_new_lzr and what it calls, of pgf/linearize.c: the productions of a grammar, indexed by their
-- functions and the categories of their arguments, and the coercions by what they coerce.
use libpgf.Prelude.{Bool, Option, none, some, List, [], ◌∷◌, ◌++◌, map, ◌==◌, Run, ok, ◌>>=◌}
use libpgf.Grammar.{
  CCatId, CncFun, PArg, Production, apply, coerce, CncCat, Productions, null, seq, buf, CCatStore,
}
use libpgf.Parser.Trees.{deref}
use libpgf.Parser.Chart.{list_eq, token_eq}
use libpgf.Parser.Chart.State.{map_get, map_put}
use libpgf.Linearizer.{InferMap, Lzr}

-- The equality that the hasher of `PgfCCatIds` has: addresses, one by one.
unfoldable pub ccat_ids_eq : List CCatId → List CCatId → Bool
unfolding list_eq
ccat_ids_eq = list_eq ◌==◌

abbrev pub found {ℓ} : {A : Type ℓ} → Option (List A) → List A
found none = []
found (some xs) = xs

abbrev pub arg_cats : List PArg → List CCatId
arg_cats args = map (λ a. a.ccat) args

-- Entries are pushed to the buffer of their categories, which is new where there is none.
unfoldable pub add_infer_entry : InferMap → CCatId → CncFun → List PArg → InferMap
unfolding map_get map_put ccat_ids_eq
add_infer_entry table cat fun args =
    let entries = found (map_get ccat_ids_eq table (arg_cats args)) in
    map_put ccat_ids_eq table (arg_cats args) (entries ++ record { cat = cat; fun = fun } ∷ [])

unfoldable pub index : Lzr → CCatId → Production → Lzr
unfolding map_get map_put token_eq add_infer_entry
index lzr cat (apply fun args) =
    let infer = found (map_get token_eq lzr.fun_indices fun.fun) in
    record lzr {
      fun_indices = map_put token_eq lzr.fun_indices fun.fun (add_infer_entry infer cat fun args);
    }
index lzr cat (coerce c) =
    let cats = found (map_get ◌==◌ lzr.coerce_idx c) in
    record lzr { coerce_idx = map_put ◌==◌ lzr.coerce_idx c (cats ++ cat ∷ []) }

unfoldable pub index_prods : Lzr → CCatId → List Production → Lzr
unfolding index
index_prods lzr cat [] = lzr
index_prods lzr cat (prod ∷ prods) = index_prods (index lzr cat prod) cat prods

-- `gu_seq_is_null` and the elements of a sequence or of a buffer.
abbrev pub prods_of : Productions → List Production
prods_of null = []
prods_of (seq ps) = ps
prods_of (buf ps) = ps

unfoldable pub index_ccat : CCatStore → Lzr → CCatId → Run Lzr
unfolding index_prods
index_ccat store lzr c = deref store c >>= λ cat. ok (index_prods lzr c (prods_of cat.prods))

-- The loop of `pgf_lzr_index_cnccat_cb` over the categories of one `PgfCncCat`.
unfoldable pub index_cnccat : CCatStore → Lzr → List (Option CCatId) → Run Lzr
unfolding index_ccat
index_cnccat store lzr [] = ok lzr
index_cnccat store lzr (none ∷ cats) = index_cnccat store lzr cats
index_cnccat store lzr (some c ∷ cats) =
    index_ccat store lzr c >>= λ lzr'. index_cnccat store lzr' cats

-- `gu_map_iter` over the values of the map of categories.
unfoldable pub index_cnccats : CCatStore → Lzr → List CncCat → Run Lzr
unfolding index_cnccat
index_cnccats store lzr [] = ok lzr
index_cnccats store lzr (c ∷ cnccats) =
    index_cnccat store lzr c.cats >>= λ lzr'. index_cnccats store lzr' cnccats

unfoldable pub index_extras : CCatStore → Lzr → List CCatId → Run Lzr
unfolding index_ccat
index_extras store lzr [] = ok lzr
index_extras store lzr (c ∷ extras) =
    index_ccat store lzr c >>= λ lzr'. index_extras store lzr' extras

unfoldable pub new_lzr : CCatStore → List CncCat → List CCatId → Run Lzr
unfolding index_cnccats index_extras
new_lzr store cnccats extra_ccats =
    index_cnccats store (record { fun_indices = []; coerce_idx = [] }) cnccats >>= λ lzr.
    index_extras store lzr extra_ccats
