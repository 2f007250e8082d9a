-- ===== src/Parser/Chart/Frame.antt =====
-- The categories of the grammar under the parser of pgf/parser.c, which adds productions to those
-- that it made itself only.
use libpgf.Prelude
use libpgf.Prelude.{
  ℕ, zero, suc, ◌+◌, ◌-◌, ◌≡◌, ◌≢◌, refl, sym, ◌∙◌, ap, arith, Bool, true, false, ◌||◌, ◌&&◌,
  Option, none, some, List, [], ◌∷◌, ◌++◌, length, leb, ltb, ◌==◌, get_elem?, set, Run, ok, raised,
  abort, fault, stuck, require, ◌^◌, ◌⊎◌, inl, inr,
}
use libpgf.Expr.{CId}
use libpgf.Grammar.{Token, CCatId, Production, buf, CCat, CCatStore, CncCat}
use libpgf.Parser.Chart.{Item, ItemSet, Heap, Parse, Parsing, token_eq}
use libpgf.Parser.Chart.State.{map_get}
use libpgf.Parser.Chart.Scan.{
  parse_found, parse_started, parse_token, parser_parse, new_parse, new_parsing,
}
use libpgf.Parser.Chart.Keeps.{Always, Grows, Stored}
use libpgf.Parser.Chart.Keeps.Tokens.{scan_loop-Keeps, start_loop-Keeps}

-- A category whose productions are no buffer.
abbrev pub IsGrammar : CCat → Type 0
IsGrammar x = (ps : List Production) → x.prods ≢ buf ps

-- The categories of the grammar in `old` are in `st` as they were.
abbrev pub Frame : CCatStore → CCatStore → Type 0
Frame old st =
    (c : CCatId) (x : CCat) → get_elem? old c ≡ some x → IsGrammar x → get_elem? st c ≡ some x

get_elem?-append {ℓ} :
    {A : Type ℓ} (xs ys : List A) (i : ℕ) (x : A)
    → get_elem? xs i ≡ some x
    → get_elem? (xs ++ ys) i ≡ some x
get_elem?-append [] ys i x h = cc (h)
get_elem?-append (y ∷ xs) ys zero x h = h
get_elem?-append (y ∷ xs) ys (suc i) x h = get_elem?-append xs ys i x h

get_elem?-set {ℓ} :
    {A : Type ℓ} (xs : List A) (c i : ℕ) (v : A)
    → (c ≡ i) ⊎ (get_elem? (set xs c v) i ≡ get_elem? xs i)
get_elem?-set [] c i v = inr refl
get_elem?-set (x ∷ xs) zero zero v = inl refl
get_elem?-set (x ∷ xs) zero (suc i) v = inr refl
get_elem?-set (x ∷ xs) (suc c) zero v = inr refl
get_elem?-set (x ∷ xs) (suc c) (suc i) v = elim (get_elem?-set xs c i v) [
  | inl e ↦ inl (ap suc e)
  | inr e ↦ inr e
]

Frame-Grows : (old : CCatStore) → Grows (Frame old)
Frame-Grows old = record {
  made = λ st x f c y h g. get_elem?-append st (x ∷ []) c y (f c y h g);
  pushed = λ st c x ps prod e b f i y h g. elim (get_elem?-set st c i _) [
    | inl eq ↦ absurd (g ps (cc (f i y h g, e, b, eq)))
    | inr eq ↦ eq ∙ f i y h g
  ];
}

-- What a parse gives its caller, from the state behind it.
abbrev result : {A B : Type 0} → (Parsing → B) → A × Parsing → Run (B × Heap)
result f r = ok (f r.1, r.1.heap)

abbrev returned : {B : Type 0} → B → Heap → Run (B × Heap)
returned b heap = ok (b, heap)

same_heap : {B : Type 0} (a b : B) (h h' : Heap) → returned a h ≡ returned b h' → h ≡ h'
same_heap a b h h' e = cc (e)

behind :
    {A B : Type 0} (J : CCatStore → Type 0) (r : Run (A × Parsing)) (f : Parsing → B) (b : B)
    (heap : Heap)
    → Always (Stored J) r
    → Prelude.◌>>=◌ r (result f) ≡ returned b heap
    → J heap.store
unfolding Always
behind J (ok p) f b heap h e = rw (sym (same_heap _ _ _ _ e)) h
behind J raised f b heap h e = absurd (cc (e))
behind J abort f b heap h e = absurd (cc (e))
behind J fault f b heap h e = absurd (cc (e))
behind J stuck f b heap h e = absurd (cc (e))

parse_found-Frame :
    (enum_next : ItemSet → ℕ → Option (Option Item × ℕ)) (fuel : ℕ) (heap heap' : Heap)
    (tok : Token) (next : Option Parse) (found : Option ItemSet)
    → parse_found enum_next fuel heap tok found ≡ ok (next, heap')
    → Frame heap.store heap'.store
unfolding parse_found
parse_found-Frame enum_next fuel heap heap' tok next none e =
    rw (sym (same_heap _ _ _ _ e)) (λ c x h g. h)
parse_found-Frame enum_next fuel heap heap' tok next (some agenda) e =
    behind (Frame heap.store) _ (λ s. some s.parse) next heap'
      ((scan_loop-Keeps (Frame-Grows heap.store) enum_next fuel fuel agenda 0 tok).keeps
        (new_parsing heap new_parse) (λ c x h g. h))
      e

-- If pgf_parse_token returns, be it null or the next parse, every category whose productions are no
-- buffer, that is every category of the grammar, is in memory as it was.
pub parse_token-Frame :
    (enum_next : ItemSet → ℕ → Option (Option Item × ℕ)) (fuel : ℕ) (heap heap' : Heap)
    (parse : Parse) (tok : Token) (next : Option Parse)
    → parse_token enum_next fuel heap parse tok ≡ ok (next, heap')
    → Frame heap.store heap'.store
unfolding parse_token
parse_token-Frame enum_next fuel heap heap' parse tok next e =
    parse_found-Frame enum_next fuel heap heap' tok next (map_get token_eq parse.transitions tok) e

required :
    {B : Type 0} (b : Bool) (k : Run B) (x : B) → Prelude.◌>>◌ (require b) k ≡ ok x → k ≡ ok x
required true k x e = e
required false k x e = absurd (cc (e))

parse_started-Frame :
    (enum_next : ItemSet → ℕ → Option (Option Item × ℕ)) (fuel : ℕ) (heap heap' : Heap)
    (lin_idx : ℕ) (parse : Parse) (found : Option CncCat)
    → parse_started enum_next fuel heap lin_idx found ≡ ok (parse, heap')
    → Frame heap.store heap'.store
unfolding parse_started
parse_started-Frame enum_next fuel heap heap' lin_idx parse none e =
    rw (sym (same_heap _ _ _ _ e)) (λ c x h g. h)
parse_started-Frame enum_next fuel heap heap' lin_idx parse (some cnc) e =
    behind (Frame heap.store) _ (λ s. s.parse) parse heap'
      ((start_loop-Keeps (Frame-Grows heap.store) enum_next fuel cnc.cats lin_idx).keeps
        (new_parsing heap new_parse) (λ c x h g. h))
      (required (ltb lin_idx (2 ^ 31) && ltb lin_idx cnc.n_ctnts) _ _ e)

-- If pgf_parser_parse returns, every category whose productions are no buffer, that is every
-- category of the grammar, is in memory as it was.
pub parser_parse-Frame :
    (enum_next : ItemSet → ℕ → Option (Option Item × ℕ)) (fuel : ℕ) (heap heap' : Heap)
    (cnccats : List (CId × CncCat)) (same_pgf : Bool) (c : CId) (lin_idx : ℕ) (parse : Parse)
    → parser_parse enum_next fuel heap cnccats same_pgf c lin_idx ≡ ok (parse, heap')
    → Frame heap.store heap'.store
unfolding parser_parse
parser_parse-Frame enum_next fuel heap heap' cnccats same_pgf c lin_idx parse e =
    parse_started-Frame enum_next fuel heap heap' lin_idx parse (map_get token_eq cnccats c)
      (required same_pgf _ _ e)
