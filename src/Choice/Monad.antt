-- ===== src/Choice/Monad.antt =====
-- Functions that make choices, in the style of pgf/parser.c, against the trees of their choice points.
use libpgf.Prelude.{
  ℕ, ◌≤◌, ◌<◌, ◌≡◌, refl, sym, ◌∙◌, ap, arith, Option, none, some, Run, ok, abort, fault, stuck,
}
use libpgf.Choice.{Choice, choice_next, choice_at}
use libpgf.Choice.Tree.{Tree, leaf, node, run, IsNarrow}

-- Such a function changes the choice and may return null, `none` here, which each caller passes on
-- at once.
abbrev pub Choosing : Type 0 → Type 0
Choosing A = Choice → Run (Option A × Choice)

abbrev pub return : {A : Type 0} → A → Choosing A
return a ch = ok (some a, ch)

abbrev pub dead_end : {A : Type 0} → Choosing A
dead_end ch = ok (none, ch)

abbrev pub lift : {A : Type 0} → Run A → Choosing A
lift m ch = elim m [
  | ok a ↦ ok (some a, ch)
  | Run.raised ↦ Run.raised
  | abort ↦ abort
  | fault ↦ fault
  | stuck ↦ stuck
]

-- What follows a call that is not null.
abbrev pub continue :
    {A B : Type 0} → (A → Choosing B) → Run (Option A × Choice) → Run (Option B × Choice)
continue f (ok r) = elim (r.0) [ none ↦ ok (none, r.1) | some a ↦ f a r.1 ]
continue f Run.raised = Run.raised
continue f abort = abort
continue f fault = fault
continue f stuck = stuck

infixl 5 ◌>>=◌
abbrev pub ◌>>=◌ : {A B : Type 0} → Choosing A → (A → Choosing B) → Choosing B
◌>>=◌ m f ch = continue f (m ch)

abbrev pub bind : {A B : Type 0} → Tree A → (A → Tree B) → Tree B
bind (leaf none) f = leaf none
bind (leaf (some a)) f = f a
bind (node n g) f = node n (λ k. bind (g k) f)

-- All outcomes of a tree that are not null satisfy `P`.
abbrev pub AllLeaves : {A : Type 0} → (A → Type 0) → Tree A → Type 0
AllLeaves P (leaf none) = Unit {0}
AllLeaves P (leaf (some a)) = P a
AllLeaves P (node n g) = (k : ℕ) → k < n → AllLeaves P (g k)

-- The function makes its choices as the tree says, and its results satisfy `P`.
pub record Realizes {A : Type 0} (P : A → Type 0) (t : Tree A) (m : Choosing A) : Type 0 where
  pub runs : (ch : Choice) → m ch ≡ run t ch
  pub narrow : IsNarrow t
  pub results : AllLeaves P t

pub choice_next-lt : (n k : ℕ) (ch ch' : Choice) → choice_next ch n ≡ ok (some k, ch') → k < n
unfolding choice_next choice_at
choice_next-lt n k ch ch' e = ground arith

pub Realizes-return :
    {A : Type 0} (P : A → Type 0) (a : A) → P a → Realizes P (leaf (some a)) (return a)
unfolding run
Realizes-return P a h = record { runs = λ ch. refl; narrow = tt; results = h }

pub Realizes-dead_end : {A : Type 0} (P : A → Type 0) → Realizes P (leaf none) dead_end
unfolding run
Realizes-dead_end P = record { runs = λ ch. refl; narrow = tt; results = tt }

-- The code after a choice goes on as the chosen subtree does.
choice_step :
    {B : Type 0} (n : ℕ) (f : ℕ → Choosing B) (g : ℕ → Choosing B)
    → ((k : ℕ) → k < n → (ch : Choice) → f k ch ≡ g k ch)
    → (ch : Choice) (r : Run (Option ℕ × Choice)) → choice_next ch n ≡ r
    → continue f r ≡ continue g r
choice_step n f g h ch (ok (none, ch')) e = refl
choice_step n f g h ch (ok (some k, ch')) e = h k (choice_next-lt n k ch ch' e) ch'
choice_step n f g h ch Run.raised e = refl
choice_step n f g h ch abort e = refl
choice_step n f g h ch fault e = refl
choice_step n f g h ch stuck e = refl

run_node :
    {A : Type 0} (n : ℕ) (g : ℕ → Tree A) (ch : Choice) (r : Run (Option ℕ × Choice))
    → choice_next ch n ≡ r
    → run (node n g) ch ≡ continue (λ k. run (g k)) r
unfolding run
run_node n g ch (ok (none, ch')) e = rw e
run_node n g ch (ok (some k, ch')) e = rw e
run_node n g ch Run.raised e = rw e
run_node n g ch abort e = rw e
run_node n g ch fault e = rw e
run_node n g ch stuck e = rw e

-- A choice between alternatives that are each realized.
pub Realizes-choice :
    {A : Type 0} (P : A → Type 0) (n : ℕ) (g : ℕ → Tree A) (f : ℕ → Choosing A)
    → n ≤ 255
    → ((k : ℕ) → k < n → Realizes P (g k) (f k))
    → Realizes P (node n g) ((λ ch. choice_next ch n) >>= f)
Realizes-choice P n g f hn h = record {
  runs = λ ch.
      choice_step n f (λ k. run (g k)) (λ k hk. (h k hk).runs) ch (choice_next ch n) refl
      ∙ sym (run_node n g ch (choice_next ch n) refl);
  narrow = (hn, λ k hk. (h k hk).narrow);
  results = λ k hk. (h k hk).results;
}

continue-continue :
    {A B C : Type 0} (f : A → Choosing B) (g : B → Choosing C) (r : Run (Option A × Choice))
    → continue g (continue f r) ≡ continue (λ a ch. continue g (f a ch)) r
continue-continue f g (ok (none, ch)) = refl
continue-continue f g (ok (some a, ch)) = refl
continue-continue f g Run.raised = refl
continue-continue f g abort = refl
continue-continue f g fault = refl
continue-continue f g stuck = refl

run-bind :
    {A B : Type 0} (P : A → Type 0) (t : Tree A) (g : A → Tree B) (f : A → Choosing B)
    → AllLeaves P t
    → ((a : A) → P a → (ch : Choice) → f a ch ≡ run (g a) ch)
    → (ch : Choice) → continue f (run t ch) ≡ run (bind t g) ch
run-bind P (leaf none) g f all h ch = unfold run in refl
run-bind P (leaf (some a)) g f all h ch = unfold run in h a all ch
run-bind P (node n s) g f all h ch =
    ap (continue f) (run_node n s ch (choice_next ch n) refl)
    ∙ continue-continue (λ k. run (s k)) f (choice_next ch n)
    ∙ choice_step n (λ k c. continue f (run (s k) c)) (λ k. run (bind (s k) g))
        (λ k hk. run-bind P (s k) g f (all k hk) h) ch (choice_next ch n) refl
    ∙ sym (run_node n (λ k. bind (s k) g) ch (choice_next ch n) refl)

bind-IsNarrow :
    {A B : Type 0} (P : A → Type 0) (t : Tree A) (g : A → Tree B)
    → IsNarrow t
    → AllLeaves P t
    → ((a : A) → P a → IsNarrow (g a))
    → IsNarrow (bind t g)
bind-IsNarrow P (leaf none) g nar all h = tt
bind-IsNarrow P (leaf (some a)) g nar all h = h a all
bind-IsNarrow P (node n s) g nar all h =
    (nar.0, λ k hk. bind-IsNarrow P (s k) g (nar.1 k hk) (all k hk) h)

bind-AllLeaves :
    {A B : Type 0} (P : A → Type 0) (Q : B → Type 0) (t : Tree A) (g : A → Tree B)
    → AllLeaves P t
    → ((a : A) → P a → AllLeaves Q (g a))
    → AllLeaves Q (bind t g)
bind-AllLeaves P Q (leaf none) g all h = tt
bind-AllLeaves P Q (leaf (some a)) g all h = h a all
bind-AllLeaves P Q (node n s) g all h = λ k hk. bind-AllLeaves P Q (s k) g (all k hk) h

-- One function after the other is one tree on the leaves of the other.
pub Realizes-bind :
    {A B : Type 0} (P : A → Type 0) (Q : B → Type 0) (t : Tree A) (g : A → Tree B) (m : Choosing A)
    (f : A → Choosing B)
    → Realizes P t m
    → ((a : A) → P a → Realizes Q (g a) (f a))
    → Realizes Q (bind t g) (m >>= f)
Realizes-bind P Q t g m f r h = record {
  runs = λ ch. ap (continue f) (r.runs ch) ∙ run-bind P t g f r.results (λ a p. (h a p).runs) ch;
  narrow = bind-IsNarrow P t g r.narrow r.results (λ a p. (h a p).narrow);
  results = bind-AllLeaves P Q t g r.results (λ a p. (h a p).results);
}

AllLeaves-mono :
    {A : Type 0} (P Q : A → Type 0) (t : Tree A)
    → ((a : A) → P a → Q a)
    → AllLeaves P t
    → AllLeaves Q t
AllLeaves-mono P Q (leaf none) h all = tt
AllLeaves-mono P Q (leaf (some a)) h all = h a all
AllLeaves-mono P Q (node n g) h all = λ k hk. AllLeaves-mono P Q (g k) h (all k hk)

pub Realizes-mono :
    {A : Type 0} (P Q : A → Type 0) (t : Tree A) (m : Choosing A)
    → ((a : A) → P a → Q a)
    → Realizes P t m
    → Realizes Q t m
Realizes-mono P Q t m h r = record {
  runs = r.runs;
  narrow = r.narrow;
  results = AllLeaves-mono P Q t h r.results;
}

-- A step that does not choose and does not fail.
pub Realizes-lift :
    {A B : Type 0} (P : B → Type 0) (t : Tree B) (m : Run A) (a : A) (f : A → Choosing B)
    → m ≡ ok a
    → Realizes P t (f a)
    → Realizes P t (lift m >>= f)
Realizes-lift P t m a f e r = record {
  runs = λ ch. ap (λ x. (lift x >>= f) ch) e ∙ r.runs ch;
  narrow = r.narrow;
  results = r.results;
}
