-- ===== src/Choice/Bind.antt =====
-- The outcomes of one computation after another: which are still to come at a path through both.
use libpgf.Prelude.{
  ℕ, zero, suc, ◌+◌, ◌-◌, ◌≤◌, ◌≡◌, refl, sym, ◌∙◌, ap, arith, Option, none, some, List, [], ◌∷◌,
  ◌++◌, append_assoc, append-nil, replicate, drop, ◌⊎◌, inl, inr,
}
use libpgf.Choice.Tree.{
  Tree, leaf, node, Fits, from, leaves, rest, complete, after, after-node, rest-complete,
}
use mathlib.Core.Path.{subst}
use libpgf.Choice.Path.{succ_path}
use libpgf.Choice.Monad.{bind}

-- A path that goes to the end, with its outcome.
abbrev pub IsAt : {A : Type 0} → Tree A → List ℕ → Option A → Type 0
IsAt t q r = Fits t q × ((complete t q).0 ≡ r) × ((complete t q).1 ≡ q)

-- A dead end.
abbrev pub nones : {A : Type 0} → ℕ → List (Option A)
nones k = replicate k none

-- The outcomes, each that is not a dead end followed by those of the computation after it.
abbrev pub expand : {A B : Type 0} → (A → Tree B) → List (Option A) → List (Option B)
expand g [] = []
expand g (none ∷ l) = none ∷ expand g l
expand g (some a ∷ l) = leaves (g a) ++ expand g l

-- A path to the end of a point with alternatives goes on in one of its subtrees.
pub IsAt-below :
    {A : Type 0} (m i : ℕ) (f : ℕ → Tree A) (q : List ℕ) (r : Option A)
    → IsAt (node (suc m) f) (i ∷ q) r
    → (1 ≤ i) × (i ≤ suc m) × IsAt (f (suc m - i)) q r
unfolding complete
IsAt-below m i f q r h = (h.0.0, h.0.1, (h.0.2, h.1, ap (λ (l : List ℕ). drop 1 l) h.2))

module _ {A B : Type 0} (g : A → Tree B) where
  expand-append : (xs ys : List (Option A)) → expand g (xs ++ ys) ≡ expand g xs ++ expand g ys
  expand-append [] ys = refl
  expand-append (none ∷ xs) ys = ap (λ l. none ∷ l) (expand-append xs ys)
  expand-append (some a ∷ xs) ys =
      ap (λ l. leaves (g a) ++ l) (expand-append xs ys)
      ∙ sym (append_assoc (leaves (g a)) (expand g xs) (expand g ys))

  pub expand-nones : (k : ℕ) (l : List (Option A)) → expand g (nones k ++ l) ≡ nones k ++ expand g l
  expand-nones zero l = refl
  expand-nones (suc k) l = ap (λ r. none ∷ r) (expand-nones k l)

  -- The outcomes of a stretch of subtrees.
  expand-from :
      (f : ℕ → Tree A) (i c : ℕ)
      → ((k : ℕ) → leaves (bind (f k) g) ≡ expand g (leaves (f k)))
      → from (λ k. leaves (bind (f k) g)) i c ≡ expand g (from (λ k. leaves (f k)) i c)
  expand-from f i zero h = refl
  expand-from f i (suc c) h =
      ap (λ l. l ++ from (λ k. leaves (bind (f k) g)) (suc i) c) (h i)
      ∙ ap (λ l. expand g (leaves (f i)) ++ l) (expand-from f (suc i) c h)
      ∙ sym (expand-append (leaves (f i)) (from (λ k. leaves (f k)) (suc i) c))

  leaves-bind : (t : Tree A) → leaves (bind t g) ≡ expand g (leaves t)
  unfolding leaves
  leaves-bind (leaf none) = refl
  leaves-bind (leaf (some a)) = sym (append-nil (leaves (g a)))
  leaves-bind (node zero f) = refl
  leaves-bind (node (suc m) f) = expand-from f 0 (suc m) (λ k. leaves-bind (f k))

  -- At a path through the first one.
  pub rest-bind : (t : Tree A) (p : List ℕ) → Fits t p → rest (bind t g) p ≡ expand g (rest t p)
  unfolding rest
  rest-bind (leaf none) [] h = leaves-bind (leaf none)
  rest-bind (leaf (some a)) [] h = leaves-bind (leaf (some a))
  rest-bind (leaf r) (i ∷ p) h = elim h [ ]
  rest-bind (node n f) [] h = leaves-bind (node n f)
  rest-bind (node n f) (i ∷ p) h =
      ap (λ l. l ++ from (λ k. leaves (bind (f k) g)) (suc (n - i)) (i - 1))
        (rest-bind (f (n - i)) p h.2)
      ∙ ap (λ l. expand g (rest (f (n - i)) p) ++ l)
          (expand-from f (suc (n - i)) (i - 1) (λ k. leaves-bind (f k)))
      ∙ sym (expand-append (rest (f (n - i)) p) (from (λ k. leaves (f k)) (suc (n - i)) (i - 1)))

  -- At a path that goes on through the other.
  module _ (a : A) (p : List ℕ) where
    pub rest-behind :
        (t : Tree A) (q : List ℕ)
        → IsAt t q (some a)
        → rest (bind t g) (q ++ p) ≡ rest (g a) p ++ expand g (after t q)
    unfolding rest complete after succ_path
    rest-behind (leaf none) [] h = cc (h.1)
    rest-behind (leaf (some b)) [] h =
        let same : b ≡ a = cc (h.1) in ap (λ x. rest (g x) p) same ∙ sym (append-nil (rest (g a) p))
    rest-behind (leaf r) (i ∷ q) h = elim (h.0) [ ]
    rest-behind (node zero f) [] h = cc (h.1)
    rest-behind (node zero f) (i ∷ q) h = absurd (omega (arith, h.0.0, h.0.1))
    rest-behind (node (suc m) f) [] h = cc (h.2)
    rest-behind (node (suc m) f) (i ∷ q) h =
        let (lo, hi, below) = IsAt-below m i f q (some a) h in
        let later = from (λ k. leaves (f k)) (suc (suc m - i)) (i - 1) in
        let k = suc m - i in
        ap (λ l. l ++ from (λ k. leaves (bind (f k) g)) (suc (suc m - i)) (i - 1))
          (rest-behind (f k) q below)
        ∙ ap (λ l. (rest (g a) p ++ expand g (after (f k) q)) ++ l)
            (expand-from f (suc (suc m - i)) (i - 1) (λ k. leaves-bind (f k)))
        ∙ append_assoc (rest (g a) p) (expand g (after (f k) q)) (expand g later)
        ∙ ap (λ l. rest (g a) p ++ l)
            (sym (expand-append (after (f k) q) later)
              ∙ ap (expand g) (sym (after-node m i f q lo hi)))

    pub complete-behind :
        (t : Tree A) (q : List ℕ)
        → IsAt t q (some a)
        → ((complete (bind t g) (q ++ p)).0 ≡ (complete (g a) p).0)
          × ((complete (bind t g) (q ++ p)).1 ≡ q ++ (complete (g a) p).1)
    unfolding complete
    complete-behind (leaf none) [] h = cc (h.1)
    complete-behind (leaf (some b)) [] h =
        let same : b ≡ a = cc (h.1) in
        (ap (λ x. (complete (g x) p).0) same, ap (λ x. (complete (g x) p).1) same)
    complete-behind (leaf r) (i ∷ q) h = elim (h.0) [ ]
    complete-behind (node zero f) [] h = cc (h.1)
    complete-behind (node zero f) (i ∷ q) h = absurd (omega (arith, h.0.0, h.0.1))
    complete-behind (node (suc m) f) [] h = cc (h.2)
    complete-behind (node (suc m) f) (i ∷ q) h =
        let (lo, hi, below) = IsAt-below m i f q (some a) h in
        let (one, two) = complete-behind (f (suc m - i)) q below in (one, ap (λ l. i ∷ l) two)

    pub Fits-behind :
        (t : Tree A) (q : List ℕ) → IsAt t q (some a) → Fits (g a) p → Fits (bind t g) (q ++ p)
    unfolding complete
    Fits-behind (leaf none) [] h fit = cc (h.1)
    Fits-behind (leaf (some b)) [] h fit =
        let same : a ≡ b = cc (h.1) in subst (λ x. Fits (g x) p) same fit
    Fits-behind (leaf r) (i ∷ q) h fit = elim (h.0) [ ]
    Fits-behind (node zero f) [] h fit = cc (h.1)
    Fits-behind (node zero f) (i ∷ q) h fit = absurd (omega (arith, h.0.0, h.0.1))
    Fits-behind (node (suc m) f) [] h fit = cc (h.2)
    Fits-behind (node (suc m) f) (i ∷ q) h fit =
        let (lo, hi, below) = IsAt-below m i f q (some a) h in
        (lo, hi, Fits-behind (f (suc m - i)) q below fit)

  pub IsAt-behind :
      (a : A) (t : Tree A) (q q' : List ℕ) (r : Option B)
      → IsAt t q (some a)
      → IsAt (g a) q' r
      → IsAt (bind t g) (q ++ q') r
  IsAt-behind a t q q' r h k =
      let (one, two) = complete-behind a q' t q h in
      (Fits-behind a q' t q h k.0, one ∙ k.1, two ∙ ap (λ l. q ++ l) k.2)

  pub Fits-bind : (t : Tree A) (p : List ℕ) → Fits t p → Fits (bind t g) p
  Fits-bind t [] h = tt
  Fits-bind (leaf r) (i ∷ p) h = elim h [ ]
  Fits-bind (node n f) (i ∷ p) h = (h.0, h.1, Fits-bind (f (n - i)) p h.2)

  -- A path through both stays in the first, or goes on from an end of it.
  abbrev pub GoesOn : Tree A → List ℕ → Type 0
  GoesOn t path =
      (q : List ℕ) × (p : List ℕ) × (a : A) × (path ≡ q ++ p) × IsAt t q (some a) × Fits (g a) p

  pub split : (t : Tree A) (path : List ℕ) → Fits (bind t g) path → Fits t path ⊎ GoesOn t path
  unfolding complete
  split t [] h = inl tt
  split (leaf none) (i ∷ path) h = inl h
  split (leaf (some a)) (i ∷ path) h = inr ([], i ∷ path, a, refl, (tt, refl, refl), h)
  split (node zero f) (i ∷ path) h = absurd (omega arith)
  split (node (suc m) f) (i ∷ path) h = elim (split (f (suc m - i)) path h.2) [
    | inl fit ↦ inl (h.0, h.1, fit)
    | inr (q, p, a, e, at, fit) ↦
        inr (i ∷ q, p, a, ap (λ l. i ∷ l) e, ((h.0, h.1, at.0), at.1, ap (λ l. i ∷ l) at.2), fit)
  ]

-- At an end, the outcome is the next.
pub rest-IsAt :
    {A : Type 0} (t : Tree A) (q : List ℕ) (r : Option A) → IsAt t q r → rest t q ≡ r ∷ after t q
rest-IsAt t q r h =
    rest-complete t q h.0 ∙ ap (λ x. x ∷ after t (complete t q).1) h.1 ∙ ap (λ l. r ∷ after t l) h.2

pub complete-IsAt :
    {A : Type 0} (t : Tree A) (p : List ℕ) → Fits t p → IsAt t (complete t p).1 (complete t p).0
unfolding complete
complete-IsAt (leaf r) [] h = (tt, refl, refl)
complete-IsAt (leaf r) (i ∷ p) h = elim h [ ]
complete-IsAt (node zero f) [] h = (tt, refl, refl)
complete-IsAt (node zero f) (i ∷ p) h = absurd (omega arith)
complete-IsAt (node (suc m) f) [] h =
    let first : suc m - suc m ≡ 0 = omega arith in
    let (fit, one, two) = complete-IsAt (f 0) [] tt in
    ((omega arith, omega arith, rw first fit), rw first one, rw first (ap (λ l. suc m ∷ l) two))
complete-IsAt (node (suc m) f) (i ∷ p) h =
    let (fit, one, two) = complete-IsAt (f (suc m - i)) p h.2 in
    ((h.0, h.1, fit), one, ap (λ l. i ∷ l) two)

-- Behind an end through both computations are the others of the second, then those after the others
-- of the first.
pub after-behind :
    {A B : Type 0} (g : A → Tree B) (a : A) (t : Tree A) (q q' : List ℕ) (r : Option B)
    → IsAt t q (some a)
    → IsAt (g a) q' r
    → after (bind t g) (q ++ q') ≡ after (g a) q' ++ expand g (after t q)
after-behind g a t q q' r h k = ap (drop 1) (
    sym (rest-IsAt (bind t g) (q ++ q') r (IsAt-behind g a t q q' r h k))
    ∙ rest-behind g a q' t q h
    ∙ ap (λ l. l ++ expand g (after t q)) (rest-IsAt (g a) q' r k))

-- An end through both computations is an end of the first and then one of the second.
pub ends :
    {A B : Type 0} (g : A → Tree B) (t : Tree A) (path : List ℕ) (b : B)
    → IsAt (bind t g) path (some b)
    → (q : List ℕ) × (p : List ℕ) × (a : A) × (path ≡ q ++ p)
      × IsAt t q (some a)
      × IsAt (g a) p (some b)
unfolding complete
ends g (leaf none) [] b h = cc (h.1)
ends g (leaf none) (i ∷ path) b h = elim (h.0) [ ]
ends g (leaf (some a)) path b h = ([], path, a, refl, (tt, refl, refl), h)
ends g (node zero f) [] b h = cc (h.1)
ends g (node zero f) (i ∷ path) b h = absurd (omega (arith, h.0.0, h.0.1))
ends g (node (suc m) f) [] b h = cc (h.2)
ends g (node (suc m) f) (i ∷ path) b h =
    let (lo, hi, below) = IsAt-below m i (λ k. bind (f k) g) path (some b) h in
    let (q, p, a, e, at, at') = ends g (f (suc m - i)) path b below in
    (i ∷ q, p, a, ap (λ l. i ∷ l) e, ((lo, hi, at.0), at.1, ap (λ l. i ∷ l) at.2), at')

pub nones-nones :
    {A : Type 0} (j k : ℕ) (l : List (Option A)) → nones j ++ (nones k ++ l) ≡ nones (j + k) ++ l
nones-nones zero k l = ap (λ n. nones n ++ l) (omega arith)
nones-nones (suc j) k l =
    ap (λ r. none ∷ r) (nones-nones j k l) ∙ ap (λ n. nones n ++ l) {x = suc (j + k)} (omega arith)
