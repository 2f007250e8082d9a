-- ===== src/Expr/Tokens.antt =====
-- The tokens of a text, one after the other.
use libpgf.Prelude.{
  ℕ, zero, suc, ◌+◌, ◌<◌, ◌≡◌, refl, ◌∙◌, ap, arith, Bool, true, false, ◌||◌, Option, none, some,
  List, [], ◌∷◌, ◌++◌, length, length-append, append_assoc, ◌==◌, Run, ok, ◌>>=◌, All, ◌≢◌, lt→ltb,
}
use libpgf.Expr.Reader.{CharClass, Reader, Tok, id, next, skip_spaces, read_id, classify, lookahead}

-- What the reader uses of <ctype.h> in the C locale.
pub record IsAscii (chars : CharClass) : Type 0 where
  pub space : chars.is_space b' ' ≡ true
  pub no_space : (c : ℕ) → chars.is_alpha c ≡ true → chars.is_space c ≡ false
  pub no_mark : (c : ℕ) → chars.is_alpha c ≡ true → (c ≢ 0) × (c ≢ b'(') × (c ≢ b')') × (c ≢ b';')
  pub alpha_alnum : (c : ℕ) → chars.is_alpha c ≡ true → chars.is_alnum c ≡ true
  pub marks :
      (chars.is_space b'(' ≡ false) × (chars.is_space b')' ≡ false) × (chars.is_space b';' ≡ false)
  pub ends :
      (chars.is_alnum b' ' ≡ false) × (chars.is_alnum b')' ≡ false) × (chars.is_alnum b';' ≡ false)

-- The reader with no token looked at and the text `w` before it, the first character of which may
-- have been pushed back.
pub data Ahead : List ℕ → Reader → Type 0 where
  fresh : (w : List ℕ) → Ahead w (record { input = w; next_char = none; lookahead = none })
  pushed :
      (c : ℕ) (w : List ℕ)
      → 0 < c
      → Ahead (c ∷ w) (record { input = w; next_char = some c; lookahead = none })

abbrev pub fresh_at : List ℕ → Reader
fresh_at w = record { input = w; next_char = none; lookahead = none }

==-ne : (a b : ℕ) → a ≢ b → a == b ≡ false
==-ne a b h = ground arith

module _ {chars : CharClass} (ascii : IsAscii chars) where
  -- A character that continues an identifier.
  abbrev pub is_word : ℕ → Bool
  is_word c = chars.is_alnum c || c == b'_'

  -- An identifier that the reader takes whole.
  abbrev pub IsId : List ℕ → Type 0
  IsId [] = ⊥
  IsId (c ∷ s) = (chars.is_alpha c ≡ true) × All (λ d. is_word d ≡ true) s

  next-Ahead : (c : ℕ) (w : List ℕ) (r : Reader) → Ahead (c ∷ w) r → next r ≡ (c, fresh_at w)
  unfolding next
  next-Ahead c w r (fresh _) = refl
  next-Ahead c w r (pushed _ _ h) = rw (lt→ltb 0 c h)

  read_id-word :
      (s : List ℕ) (fuel c d : ℕ) (w t : List ℕ)
      → length s < fuel
      → is_word c ≡ true
      → All (λ e. is_word e ≡ true) s
      → is_word d ≡ false
      → read_id chars (suc fuel) c (fresh_at (s ++ d ∷ w)) t
        ≡ ok (t ++ c ∷ s, record { input = w; next_char = some d; lookahead = none })
  unfolding read_id next
  read_id-word [] (suc fuel) c d w t lt hc hs hd = rw (hc, hd)
  read_id-word [] zero c d w t lt hc hs hd = absurd (omega arith)
  read_id-word (e ∷ s) zero c d w t lt hc hs hd = absurd (omega arith)
  read_id-word (e ∷ s) (suc fuel) c d w t lt hc hs hd =
      rw hc (read_id-word s fuel e d w (t ++ c ∷ []) (omega arith) hs.0 hs.1 hd ∙ rw append_assoc)

  skip_here :
      (fuel c : ℕ) (w : List ℕ) (r : Reader)
      → chars.is_space c ≡ false
      → Ahead (c ∷ w) r
      → skip_spaces chars (suc fuel) r ≡ ok (c, fresh_at w)
  unfolding skip_spaces
  skip_here fuel c w r h a = rw (next-Ahead c w r a) (rw h)

  skip_one :
      (fuel c : ℕ) (w : List ℕ) (r : Reader)
      → chars.is_space c ≡ true
      → Ahead (c ∷ w) r
      → skip_spaces chars (suc fuel) r ≡ skip_spaces chars fuel (fresh_at w)
  unfolding skip_spaces
  skip_one fuel c w r h a = rw (next-Ahead c w r a) (rw h)

  -- The look at the text behind at most one space.
  abbrev pub seen : Run (Option Tok × Reader) → Run (Option Tok × Reader)
  seen m = m >>= λ t. ok (t.0, record (t.1) { lookahead = t.0 })

  lookahead_from :
      (w : List ℕ) (r : Reader)
      → Ahead w r
      → (k : ℕ) × (lookahead chars r
          ≡ skip_spaces chars (suc (suc k)) r >>= λ s. seen (classify chars s.0 s.1))
  unfolding lookahead
  lookahead_from w r (fresh _) = (
    suc (length w),
    ap (λ n. skip_spaces chars n r >>= λ s. seen (classify chars s.0 s.1)) {x = length w + 3}
        {y = suc (suc (suc (length w)))} (omega arith),
  )
  lookahead_from _ r (pushed c w h) = (
    suc (length w),
    ap (λ n. skip_spaces chars n r >>= λ s. seen (classify chars s.0 s.1)) {x = length w + 3}
        {y = suc (suc (suc (length w)))} (omega arith),
  )

  pub lookahead_here :
      (c : ℕ) (w : List ℕ) (r : Reader)
      → chars.is_space c ≡ false
      → Ahead (c ∷ w) r
      → lookahead chars r ≡ seen (classify chars c (fresh_at w))
  lookahead_here c w r h a =
      let (k, e) = lookahead_from (c ∷ w) r a in rw (e, skip_here (suc k) c w r h a)

  pub lookahead_behind :
      (c : ℕ) (w : List ℕ) (r : Reader)
      → chars.is_space c ≡ false
      → Ahead (b' ' ∷ c ∷ w) r
      → lookahead chars r ≡ seen (classify chars c (fresh_at w))
  lookahead_behind c w r h a =
      let (k, e) = lookahead_from (b' ' ∷ c ∷ w) r a in
      rw (e, skip_one (suc k) b' ' (c ∷ w) r ascii.space a)
        (rw (skip_here k c w (fresh_at (c ∷ w)) h (fresh (c ∷ w))))

  -- The token that an identifier makes.
  pub classify-id :
      (c : ℕ) (s : List ℕ) (d : ℕ) (w : List ℕ)
      → IsId (c ∷ s)
      → is_word d ≡ false
      → seen (classify chars c (fresh_at (s ++ d ∷ w)))
        ≡ ok (
          some (id (c ∷ s)),
          record { input = w; next_char = some d; lookahead = some (id (c ∷ s)) },
        )
  unfolding classify
  classify-id c s d w h hd =
      let (not_end, not_lpar, not_rpar, not_semic) = ascii.no_mark c h.0 in
      let size : length (s ++ d ∷ w) + 3 ≡ suc (length s + length w + 3) =
        omega (arith, length-append s (d ∷ w)) in
      let word : is_word c ≡ true = rw (ascii.alpha_alnum c h.0) in
      rw
        (
          ==-ne c b'(' not_lpar,
          ==-ne c b')' not_rpar,
          ==-ne c b';' not_semic,
          ==-ne c 0 not_end,
          h.0,
        )
        (rw (size, read_id-word s (length s + length w + 3) c d w [] (omega arith) word h.1 hd))
