-- ===== src/Parser/Chart/Keeps.antt =====
-- Predicates on the state that the functions of the chart, in pgf/parser.c, keep.
pub mod Work
pub mod Steps
pub mod Tokens
use libpgf.Prelude
use libpgf.Prelude.{
  ℕ, zero, suc, ◌+◌, ◌-◌, ◌≡◌, refl, Bool, true, false, Option, none, some, List, [], ◌∷◌, ◌++◌,
  length, set, get_elem?, ◌==◌, Run, ok, raised, abort, fault, stuck, require,
}
use libpgf.Grammar.{
  Token, CCatId, Symbol, cat, lit, var, ks, kp, Alternative, PArg, Production, apply, coerce,
  Productions, null, seq, buf, CncCat, CCat, CCatStore,
}
use libpgf.Parser.Trees.{deref}
use libpgf.Parser.Chart.{SetId, Item, ItemSet, Parsing}
use libpgf.Parser.Chart.State.{
  Action, return, done, lift, ◌>>=◌, ◌>>◌, get_set, get_ccat, insert_cont, add_transition,
  get_contss, map_get, new_contss, known_contss, known_conts, push_to, new_conts, new_set,
  get_cnccat, get_conts, create_completed, get_completed, push_prod,
}
use libpgf.Parser.Chart.Agenda

-- The state behind a function that returns.
unfoldable pub Always : {A : Type 0} → (Parsing → Type 0) → Run (A × Parsing) → Type 0
Always I (ok r) = I r.1
Always I _ = Unit {0}

-- Called in a state with `I`, the function leaves one with `I`, if it returns.
pub record Keeps {A : Type 0} (I : Parsing → Type 0) (m : Action A) : Type 0 where
  pub keeps : (s : Parsing) → I s → Always I (m s)

bind-Always :
    {A B : Type 0} {I : Parsing → Type 0} (r : Run (A × Parsing)) (f : A → Action B)
    → Always I r
    → ((a : A) → Keeps I (f a))
    → Always I (Prelude.◌>>=◌ r (λ r. f r.0 r.1))
unfolding Always
bind-Always (ok r) f h hf = (hf r.0).keeps r.1 h
bind-Always raised f h hf = tt
bind-Always abort f h hf = tt
bind-Always fault f h hf = tt
bind-Always stuck f h hf = tt

lift-Always :
    {A : Type 0} (I : Parsing → Type 0) (m : Run A) (s : Parsing) → I s → Always I (lift m s)
unfolding Always
lift-Always I (ok a) s i = i
lift-Always I raised s i = tt
lift-Always I abort s i = tt
lift-Always I fault s i = tt
lift-Always I stuck s i = tt

module _ {I : Parsing → Type 0} where
  pub lift-Keeps : {A : Type 0} (m : Run A) → Keeps I (lift m)
  lift-Keeps m = record { keeps = lift-Always I m }

  pub bind-Keeps :
      {A B : Type 0} (m : Action A) (f : A → Action B)
      → Keeps I m
      → ((a : A) → Keeps I (f a))
      → Keeps I (m >>= f)
  bind-Keeps m f hm hf = record { keeps = λ s i. bind-Always (m s) f (hm.keeps s i) hf }

  pub return-Keeps : {A : Type 0} (a : A) → Keeps I (return a)
  unfolding Always
  return-Keeps a = record { keeps = λ s i. i }

  pub option-Keeps :
      {A B : Type 0} (x : Option B) (n : Action A) (f : B → Action A)
      → Keeps I n
      → ((b : B) → Keeps I (f b))
      → Keeps I (elim x as (λ _. Action A) [ none ↦ n | some b ↦ f b ])
  option-Keeps none n f hn hf = hn
  option-Keeps (some b) n f hn hf = hf b

  pub bool-Keeps :
      {A : Type 0} (b : Bool) (t f : Action A)
      → Keeps I t
      → Keeps I f
      → Keeps I (elim b as (λ _. Action A) [ true ↦ t | false ↦ f ])
  bool-Keeps true t f ht hf = ht
  bool-Keeps false t f ht hf = hf

-- A predicate on the categories that holds on when a category is made, and when a production is
-- added to one that has a buffer.
pub record Grows (J : CCatStore → Type 0) : Type 0 where
  pub made : (st : CCatStore) (cat : CCat) → J st → J (st ++ cat ∷ [])
  pub pushed :
      (st : CCatStore) (c : CCatId) (cat : CCat) (ps : List Production) (prod : Production)
      → get_elem? st c ≡ some cat
      → cat.prods ≡ buf ps
      → J st
      → J (set st c (record cat { prods = buf (ps ++ prod ∷ []) }))

abbrev pub Stored : (CCatStore → Type 0) → Parsing → Type 0
Stored J s = J s.heap.store

module _ {J : CCatStore → Type 0} (grows : Grows J) where
  pub get_set-Keeps : (id : SetId) → Keeps (Stored J) (get_set id)
  unfolding get_set
  get_set-Keeps id = record { keeps = λ s. lift-Always (Stored J) (deref s.heap.sets id) s }

  pub get_ccat-Keeps : (c : CCatId) → Keeps (Stored J) (get_ccat c)
  unfolding get_ccat
  get_ccat-Keeps c = record { keeps = λ s. lift-Always (Stored J) (deref s.heap.store c) s }

  pub insert_cont-Keeps : (id : SetId) (x : Option Item) → Keeps (Stored J) (insert_cont id x)
  unfolding insert_cont Always
  insert_cont-Keeps id x = bind-Keeps _ _ (get_set-Keeps id) (λ items. record { keeps = λ s i. i })

  pub add_transition-Keeps : (tok : Token) (x : Item) → Keeps (Stored J) (add_transition tok x)
  unfolding add_transition Always
  add_transition-Keeps tok x = record { keeps = λ s i. i }

  pub get_cnccat-Keeps : (c : CCatId) → Keeps (Stored J) (get_cnccat c)
  unfolding get_cnccat
  get_cnccat-Keeps c = bind-Keeps _ _ (get_ccat-Keeps c) (λ cat. lift-Keeps _)

  pub new_contss-Keeps : (c : CCatId) → Keeps (Stored J) (new_contss c)
  unfolding new_contss Always
  new_contss-Keeps c = bind-Keeps _ _ (get_cnccat-Keeps c) (λ cnc. record { keeps = λ s i. i })

  known_contss-Always :
      (c : CCatId) (s : Parsing)
      → Stored J s
      → (r : Option (List (Option SetId))) → Always (Stored J) (known_contss c r s)
  unfolding known_contss Always
  known_contss-Always c s i none = (new_contss-Keeps c).keeps s i
  known_contss-Always c s i (some contss) = i

  pub get_contss-Keeps : (c : CCatId) → Keeps (Stored J) (get_contss c)
  unfolding get_contss
  get_contss-Keeps c = record {
    keeps = λ s i. known_contss-Always c s i (map_get ◌==◌ s.conts_map c);
  }

  known_conts-Keeps :
      (c : CCatId) (contss : List (Option SetId)) (lin_idx : ℕ) (conts : Option SetId)
      → Keeps (Stored J) (known_conts c contss lin_idx conts)
  unfolding known_conts new_conts new_set Always
  known_conts-Keeps c contss lin_idx none = record { keeps = λ s i. i }
  known_conts-Keeps c contss lin_idx (some id) = return-Keeps id

  pub get_conts-Keeps : (c : CCatId) (lin_idx : ℕ) → Keeps (Stored J) (get_conts c lin_idx)
  unfolding get_conts
  get_conts-Keeps c lin_idx = bind-Keeps _ _ (get_cnccat-Keeps c) (λ cnc.
      bind-Keeps _ _ (lift-Keeps _) (λ _. bind-Keeps _ _ (get_contss-Keeps c) (λ contss.
        bind-Keeps _ _ (lift-Keeps _) (λ conts. known_conts-Keeps c contss lin_idx conts))))

  pub get_completed-Keeps : (id : SetId) → Keeps (Stored J) (get_completed id)
  unfolding get_completed Always
  get_completed-Keeps id = record { keeps = λ s i. i }

  pub create_completed-Keeps :
      (id : SetId) (cnc : Option CncCat) → Keeps (Stored J) (create_completed id cnc)
  unfolding create_completed Always
  create_completed-Keeps id cnc = record { keeps = λ s i. grows.made s.heap.store _ i }

  push_to-Always :
      (c : CCatId) (prod : Production) (s : Parsing) (ccat : CCat)
      → Stored J s
      → get_elem? s.heap.store c ≡ some ccat
      → (ps : Productions) → ccat.prods ≡ ps
      → Always (Stored J) (push_to c ccat prod ps s)
  unfolding push_to Always
  push_to-Always c prod s ccat i e null e' = tt
  push_to-Always c prod s ccat i e (seq ps) e' = tt
  push_to-Always c prod s ccat i e (buf ps) e' = grows.pushed s.heap.store c ccat ps prod e e' i

  push_prod-Always :
      (c : CCatId) (prod : Production) (s : Parsing)
      → Stored J s
      → (r : Option CCat) → get_elem? s.heap.store c ≡ r
      → Always
          (Stored J)
          ((lift (elim r [ none ↦ fault | some x ↦ ok x ]) >>= λ x. push_to c x prod x.prods) s)
  unfolding Always
  push_prod-Always c prod s i none e = tt
  push_prod-Always c prod s i (some ccat) e = push_to-Always c prod s ccat i e ccat.prods refl

  pub push_prod-Keeps : (c : CCatId) (prod : Production) → Keeps (Stored J) (push_prod c prod)
  unfolding push_prod get_ccat
  push_prod-Keeps c prod = record {
    keeps = λ s i. push_prod-Always c prod s i (get_elem? s.heap.store c) refl;
  }
