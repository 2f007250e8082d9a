-- ===== src/Parser/Chart/State.antt =====
-- What the functions of the chart do to the memory and to their maps: pgf_parsing_add_transition to
-- pgf_parsing_get_completed of pgf/parser.c.
use libpgf.Prelude
use libpgf.Prelude.{
  ℕ, zero, suc, ◌+◌, ◌-◌, ◌%◌, ◌^◌, Bool, true, false, Option, none, some, List, [], ◌∷◌, ◌++◌,
  length, get_elem?, set, replicate, ltb, ◌==◌, if◌then◌else◌, Run, ok, abort, fault, stuck,
  require,
}
use libpgf.Grammar.{Token, CCatId, Production, Productions, null, seq, buf, CncCat, CCat}
use libpgf.Parser.Trees.{deref}
use libpgf.Parser.Chart.{SetId, Item, ItemSet, Heap, Parsing, token_eq, set_insert}

-- A function that changes the state of the parsing.
abbrev pub Action : Type 0 → Type 0
Action A = Parsing → Run (A × Parsing)

abbrev pub return : {A : Type 0} → A → Action A
return a s = ok (a, s)

abbrev pub done : Action (Unit {0})
done = return tt

abbrev pub lift : {A : Type 0} → Run A → Action A
lift m s = Prelude.◌>>=◌ m (λ a. ok (a, s))

infixl 5 ◌>>=◌ ◌>>◌
abbrev pub ◌>>=◌ : {A B : Type 0} → Action A → (A → Action B) → Action B
◌>>=◌ m f s = Prelude.◌>>=◌ (m s) (λ r. f r.0 r.1)

abbrev pub ◌>>◌ : {B : Type 0} → Action (Unit {0}) → Action B → Action B
m >> k = m >>= λ _. k

-- A map's value at a key that `eq` finds, and the map with another.
unfoldable pub map_get {ℓ κ} :
    {K : Type ℓ} {V : Type κ} → (K → K → Bool) → List (K × V) → K → Option V
map_get eq [] k = none
map_get eq (e ∷ map) k = if eq e.0 k then some e.1 else map_get eq map k

unfoldable pub map_put {ℓ κ} :
    {K : Type ℓ} {V : Type κ} → (K → K → Bool) → List (K × V) → K → V → List (K × V)
map_put eq [] k v = (k, v) ∷ []
map_put eq (e ∷ map) k v = if eq e.0 k then (k, v) ∷ map else e ∷ map_put eq map k v

abbrev pub with_heap : Parsing → Heap → Parsing
with_heap s h = record s { heap = h }

unfoldable pub get_set : SetId → Action ItemSet
get_set id s = lift (deref s.heap.sets id) s

unfoldable pub get_ccat : CCatId → Action CCat
get_ccat c s = lift (deref s.heap.store c) s

-- gu_set_insert into a set of the heap.
unfoldable pub insert_cont : SetId → Option Item → Action (Unit {0})
unfolding get_set set_insert
insert_cont id item = do
  items ← get_set id
  λ s. ok (tt, with_heap s (record (s.heap) { sets = set s.heap.sets id (set_insert items item) }))

-- gu_new_set
unfoldable pub new_set : Action SetId
new_set s = ok (length s.heap.sets, with_heap s (record (s.heap) { sets = s.heap.sets ++ [] ∷ [] }))

unfoldable pub add_transition : Token → Item → Action (Unit {0})
unfolding map_get map_put set_insert token_eq
add_transition tok item s =
    let tmap = s.parse.transitions in
    let items : ItemSet = elim (map_get token_eq tmap tok) [ none ↦ [] | some set ↦ set ] in
    ok (
      tt,
      record s {
        parse = record (s.parse) {
          transitions = map_put token_eq tmap tok (set_insert items (some item));
        };
      },
    )

-- The `cnccat` of a category; a null one is read through.
unfoldable pub get_cnccat : CCatId → Action CncCat
unfolding get_ccat
get_cnccat c = do cat ← get_ccat c; lift (elim (cat.cnccat) [ none ↦ fault | some cnc ↦ ok cnc ])

-- The continuations of a category: those that the map has, else null at each index.
unfoldable pub new_contss : CCatId → Action (List (Option SetId))
unfolding map_put get_cnccat
new_contss c = do
  cnc ← get_cnccat c
  λ s.
      let contss = replicate cnc.n_ctnts none in
      ok (contss, record s { conts_map = map_put ◌==◌ s.conts_map c contss })

unfoldable pub known_contss : CCatId → Option (List (Option SetId)) → Action (List (Option SetId))
unfolding new_contss
known_contss c none = new_contss c
known_contss c (some contss) = return contss

unfoldable pub get_contss : CCatId → Action (List (Option SetId))
unfolding map_get known_contss
get_contss c s = known_contss c (map_get ◌==◌ s.conts_map c) s

-- A new set at an index of the continuations of a category.
unfoldable pub new_conts : CCatId → List (Option SetId) → ℕ → Action SetId
unfolding new_set map_put
new_conts c contss lin_idx = do
  id ← new_set
  λ s. ok (id, record s { conts_map = map_put ◌==◌ s.conts_map c (set contss lin_idx (some id)) })

unfoldable pub known_conts : CCatId → List (Option SetId) → ℕ → Option SetId → Action SetId
unfolding new_conts
known_conts c contss lin_idx none = new_conts c contss lin_idx
known_conts c contss lin_idx (some id) = return id

unfoldable pub get_conts : CCatId → ℕ → Action SetId
unfolding get_cnccat get_contss known_conts
get_conts c lin_idx = do
  cnc ← get_cnccat c
  lift (require (ltb lin_idx cnc.n_ctnts))
  contss ← get_contss c
  conts ← lift (deref contss lin_idx)
  known_conts c contss lin_idx conts

-- `--next_fid` on 32 bits.
abbrev pred_fid : ℕ → ℕ
pred_fid fid = (fid + (2 ^ 32 - 1)) % 2 ^ 32

unfoldable pub create_completed : SetId → Option CncCat → Action CCatId
unfolding map_put
create_completed conts cnccat s =
    let c = length s.heap.store in
    let fid = pred_fid s.heap.next_fid in
    let cat : CCat = record { cnccat = cnccat; prods = buf []; fid = fid } in
    ok (
      c,
      record s {
        heap = record (s.heap) { store = s.heap.store ++ cat ∷ []; next_fid = fid };
        generated_cats = map_put ◌==◌ s.generated_cats conts c;
      },
    )

unfoldable pub get_completed : SetId → Action (Option CCatId)
unfolding map_get
get_completed conts s = ok (map_get ◌==◌ s.generated_cats conts, s)

-- `gu_seq_buf(cat->prods)`, then `gu_buf_push`.
unfoldable pub push_to : CCatId → CCat → Production → Productions → Action (Unit {0})
push_to c cat prod null = lift fault
push_to c cat prod (seq ps) = lift abort
push_to c cat prod (buf ps) = λ s. ok (
  tt,
  with_heap s (record (s.heap) {
    store = set s.heap.store c (record cat { prods = buf (ps ++ prod ∷ []) });
  }),
)

unfoldable pub push_prod : CCatId → Production → Action (Unit {0})
unfolding get_ccat push_to
push_prod c prod = do cat ← get_ccat c; push_to c cat prod cat.prods
