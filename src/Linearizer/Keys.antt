-- ===== src/Linearizer/Keys.antt =====
-- Lists of entries as maps: the equalities that find keys, and what a put changes.
use libpgf.Prelude.{
  ◌≡◌, refl, ◌∙◌, ap, Bool, true, false, ◌&&◌, Bool-cases, inl, inr, some, List, [], ◌∷◌, ◌==◌,
  ==_iff, if◌then◌else◌,
}
use libpgf.Parser.Chart.{list_eq, token_eq}
use libpgf.Parser.Chart.State.{map_get, map_put}

-- The test tells equal keys from others.
pub record IsLawful {A : Type 0} (eq : A → A → Bool) : Type 0 where
  pub sound : (a b : A) → eq a b ≡ true → a ≡ b
  pub reflexive : (a : A) → eq a a ≡ true

pub ==-IsLawful : IsLawful ◌==◌
==-IsLawful = record { sound = λ a b h. (==_iff a b).0 h; reflexive = λ a. (==_iff a a).1 refl }

pub and_true : (b c : Bool) → (b && c) ≡ true → (b ≡ true) × (c ≡ true)
and_true true c h = (refl, h)
and_true false c h = cc

list_eq_sound :
    {A : Type 0} (eq : A → A → Bool)
    → IsLawful eq
    → (xs ys : List A) → list_eq eq xs ys ≡ true
    → xs ≡ ys
unfolding list_eq
list_eq_sound eq law [] [] h = refl
list_eq_sound eq law [] (y ∷ ys) h = cc
list_eq_sound eq law (x ∷ xs) [] h = cc
list_eq_sound eq law (x ∷ xs) (y ∷ ys) h =
    let (first, others) = and_true (eq x y) (list_eq eq xs ys) h in
    cc (law.sound x y first, list_eq_sound eq law xs ys others)

list_eq_reflexive :
    {A : Type 0} (eq : A → A → Bool) → IsLawful eq → (xs : List A) → list_eq eq xs xs ≡ true
unfolding list_eq
list_eq_reflexive eq law [] = refl
list_eq_reflexive eq law (x ∷ xs) = rw (law.reflexive x) (list_eq_reflexive eq law xs)

pub list_eq-IsLawful : {A : Type 0} (eq : A → A → Bool) → IsLawful eq → IsLawful (list_eq eq)
list_eq-IsLawful eq law = record {
  sound = list_eq_sound eq law;
  reflexive = list_eq_reflexive eq law;
}

pub token_eq-IsLawful : IsLawful token_eq
unfolding token_eq
token_eq-IsLawful = list_eq-IsLawful ◌==◌ ==-IsLawful

-- A key is found with what was put last at an equal one.
pub map_get-map_put :
    {K V : Type 0} (eq : K → K → Bool)
    → IsLawful eq
    → (m : List (K × V)) (k j : K) (v : V)
    → map_get eq (map_put eq m k v) j ≡ (if eq k j then some v else map_get eq m j)
unfolding map_get map_put
map_get-map_put eq law [] k j v = refl
map_get-map_put eq law (e ∷ m) k j v = elim (Bool-cases (eq e.0 k)) [
  | inl same ↦
      let swap : eq e.0 j ≡ eq k j = ap (λ x. eq x j) (law.sound e.0 k same) in
      rw same (elim (Bool-cases (eq k j)) [ inl h ↦ rw h refl | inr h ↦ rw (h, swap, h) refl ])
  | inr other ↦ rw other (elim (Bool-cases (eq e.0 j)) [
    | inl h ↦
        let differ : eq k j ≡ false = elim (Bool-cases (eq k j)) [
          | inr d ↦ d
          | inl d ↦ let back : eq e.0 k ≡ true = ap (λ x. eq e.0 x) (law.sound k j d) ∙ h in cc
        ] in
        rw (h, differ) refl
    | inr h ↦ rw h (map_get-map_put eq law m k j v)
  ])
]
