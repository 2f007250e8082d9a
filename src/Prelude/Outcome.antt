-- ===== src/Prelude/Outcome.antt =====
-- The outcomes of a C function, with their chain for `do` blocks.
use mathlib.Core.Path.{◌≡◌, refl, subst}
use mathlib.Core.Bool.{Bool, true, false}

-- `raised`: the function raised an exception through its `GuExn`. `abort`: a `gu_require` or a
-- `gu_assert` failed. `fault`: memory was read past its end. `stuck`: a loop of the model ran out
-- of fuel, which stands for no outcome of the program.
pub data Run {ℓ} (A : Type ℓ) : Type ℓ where
  ok : A → Run A
  raised abort fault stuck : Run A

infixl 5 ◌>>=◌ ◌>>◌
abbrev pub ◌>>=◌ {ℓ κ} : {A : Type ℓ} {B : Type κ} → Run A → (A → Run B) → Run B
ok a >>= f = f a
raised >>= f = raised
abort >>= f = abort
fault >>= f = fault
stuck >>= f = stuck

abbrev pub ◌>>◌ {ℓ} : {B : Type ℓ} → Run (Unit {0}) → Run B → Run B
m >> k = m >>= λ _. k

-- `gu_require` and `gu_assert`.
abbrev pub require : Bool → Run (Unit {0})
require true = ok tt
require false = abort

pub bind_assoc {ℓ κ μ} :
    {A : Type ℓ} {B : Type κ} {C : Type μ} (r : Run A) (f : A → Run B) (g : B → Run C)
    → ((r >>= f) >>= g) ≡ (r >>= λ a. f a >>= g)
bind_assoc (ok a) f g = refl
bind_assoc raised f g = refl
bind_assoc abort f g = refl
bind_assoc fault f g = refl
bind_assoc stuck f g = refl

-- What is returned, if anything is, satisfies `P`.
abbrev pub Gives {ℓ κ} : {A : Type ℓ} → (A → Type κ) → Run A → Type κ
Gives P (ok a) = P a
Gives P raised = Unit
Gives P abort = Unit
Gives P fault = Unit
Gives P stuck = Unit

pub bind-Gives {ℓ κ μ ν} :
    {A : Type ℓ} {B : Type κ} (P : A → Type μ) (Q : B → Type ν) (m : Run A) (f : A → Run B)
    → Gives P m
    → ((a : A) → P a → Gives Q (f a))
    → Gives Q (m >>= f)
bind-Gives P Q (ok a) f h k = k a h
bind-Gives P Q raised f h k = tt
bind-Gives P Q abort f h k = tt
bind-Gives P Q fault f h k = tt
bind-Gives P Q stuck f h k = tt

-- The same, where the value that is passed on is only known to be the one returned.
pub bind_returned-Gives {ℓ κ ν} :
    {A : Type ℓ} {B : Type κ} (Q : B → Type ν) (m : Run A) (f : A → Run B)
    → ((a : A) → m ≡ ok a → Gives Q (f a))
    → Gives Q (m >>= f)
bind_returned-Gives Q (ok a) f k = k a refl
bind_returned-Gives Q raised f k = tt
bind_returned-Gives Q abort f k = tt
bind_returned-Gives Q fault f k = tt
bind_returned-Gives Q stuck f k = tt

pub mono-Gives {ℓ κ μ} :
    {A : Type ℓ} (P : A → Type κ) (Q : A → Type μ) (m : Run A)
    → ((a : A) → P a → Q a)
    → Gives P m
    → Gives Q m
mono-Gives P Q (ok a) f h = f a h
mono-Gives P Q raised f h = tt
mono-Gives P Q abort f h = tt
mono-Gives P Q fault f h = tt
mono-Gives P Q stuck f h = tt

pub returned-Gives {ℓ κ} :
    {A : Type ℓ} (P : A → Type κ) (m : Run A) (a : A) → m ≡ ok a → Gives P m → P a
returned-Gives P m a e h = subst (Gives P) e h
