-- ===== src/Map/Kinds.antt =====
-- The three kinds of key of gu/map.c: addresses, words, and blocks of bytes with a hasher of their
-- own.
use libpgf.Prelude.{
  ℕ, zero, suc, ◌+◌, ◌-◌, ◌≤◌, ◌≡◌, refl, sym, ◌∙◌, ap, arith, Bool, true, false, ◌&&◌, leb, ◌==◌,
  ==_iff, if◌then◌else◌, List, [], ◌∷◌, ◌++◌, length, take, drop, replicate, Bool-cases, inl, inr,
  take-take, take-length,
}
use libpgf.Map.{Hasher}

-- What the table asks of the operations on keys: those of a `GuHasher` are to satisfy it.
pub record IsLawful {ℓ} {K : Type ℓ} (h : Hasher K) : Type ℓ where
  pub eq_refl : (k : K) → h.eq k k ≡ true
  pub eq_sym : (k l : K) → h.eq k l ≡ true → h.eq l k ≡ true
  pub eq_trans : (k l m : K) → h.eq k l ≡ true → h.eq l m ≡ true → h.eq k m ≡ true
  pub hash_eq : (k l : K) → h.eq k l ≡ true → h.hash k ≡ h.hash l
  pub zeros_eq : (k l : K) → h.is_zero k ≡ true → h.is_zero l ≡ true → h.eq k l ≡ true
  pub zero_is_zero : h.is_zero h.zero_key ≡ true

-- `GU_MAP_ADDR` and `GU_MAP_WORD`: a pointer or a word is its own hash.
abbrev pub word_hasher : Hasher ℕ
word_hasher = record { hash = λ w. w; eq = λ v w. v == w; is_zero = λ w. w == 0; zero_key = 0 }

-- Words are compared and hashed as the table needs it.
pub word_hasher-IsLawful : IsLawful word_hasher
word_hasher-IsLawful = record {
  eq_refl = λ k. ground arith;
  eq_sym = λ k l e. ground (arith, e);
  eq_trans = λ k l m e f. ground (arith, e, f);
  hash_eq = λ k l e. (==_iff k l).0 e;
  zeros_eq = λ k l e f. ground (arith, e, f);
  zero_is_zero = refl;
}

-- `memcmp` with as many zero bytes.
abbrev pub all_zero : List ℕ → Bool
all_zero [] = true
all_zero (b ∷ bs) = b == 0 && all_zero bs

-- The words of a block are compared from its end on, then what is left at its start.
unfoldable pub buf_is_zero_loop : ℕ → List ℕ → ℕ → Bool
buf_is_zero_loop zero p sz = all_zero (take sz p)
buf_is_zero_loop (suc fuel) p sz =
    let rest = buf_is_zero_loop fuel p (sz - 8) in
    if leb 8 sz
    then (if all_zero (take 8 (drop (sz - 8) p)) then rest else false)
    else all_zero (take sz p)

unfoldable pub buf_is_zero : List ℕ → Bool
unfolding buf_is_zero_loop
buf_is_zero p = buf_is_zero_loop (length p) p (length p)

-- `GU_MAP_GENERIC`: the hasher's operations on keys of `size` bytes.
abbrev pub generic_hasher : (List ℕ → ℕ) → (List ℕ → List ℕ → Bool) → ℕ → Hasher (List ℕ)
unfolding buf_is_zero
generic_hasher hash eq size = record {
  hash = hash;
  eq = eq;
  is_zero = buf_is_zero;
  zero_key = replicate size 0;
}

all_zero-append : (p q : List ℕ) → all_zero (p ++ q) ≡ (all_zero p && all_zero q)
all_zero-append [] q = refl
all_zero-append (b ∷ p) q = ground (arith, all_zero-append p q)

and_swap : (a b : Bool) → (if a then b else false) ≡ (b && a)
and_swap a b = ground arith

buf_is_zero_loop-all_zero :
    (fuel : ℕ) (p : List ℕ) (sz : ℕ) → buf_is_zero_loop fuel p sz ≡ all_zero (take sz p)
unfolding buf_is_zero_loop
buf_is_zero_loop-all_zero zero p sz = refl
buf_is_zero_loop-all_zero (suc fuel) p sz = elim (Bool-cases (leb 8 sz)) [
  | inl word ↦
      let le : 8 ≤ sz = ground (arith, word) in
      rw (word, buf_is_zero_loop-all_zero fuel p (sz - 8))
        (and_swap (all_zero (take 8 (drop (sz - 8) p))) (all_zero (take (sz - 8) p))
          ∙ sym (all_zero-append (take (sz - 8) p) (take 8 (drop (sz - 8) p)))
          ∙ ap all_zero (take-take (sz - 8) 8 p)
          ∙ ap (λ n. all_zero (take n p)) {x = sz - 8 + 8} {y = sz} (omega (arith, le)))
  | inr rest ↦ rw rest refl
]

-- Word by word gu_map_buf_is_zero finds whether all bytes of the key are zero.
pub buf_is_zero-all_zero : (p : List ℕ) → buf_is_zero p ≡ all_zero p
unfolding buf_is_zero
buf_is_zero-all_zero p =
    buf_is_zero_loop-all_zero (length p) p (length p) ∙ ap all_zero (take-length p)
