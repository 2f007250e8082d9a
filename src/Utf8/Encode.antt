-- ===== src/Utf8/Encode.antt =====
-- gu_utf8_encode of gu/utf8.c: code points into a buffer of limited room, in two loops. It fills
-- the buffer as far as whole characters fit.
use libpgf.Prelude.{
  ℕ, zero, suc, ◌+◌, ◌-◌, ◌/◌, ◌≤◌, ◌<◌, min, ◌≡◌, refl, sym, ◌∙◌, ap, arith, append_assoc,
  append-nil, All, List, [], ◌∷◌, ◌++◌, length, length-append, ltb, le→ltb, ltb→lt, ltb→le, ◌==◌,
  if◌then◌else◌, Bool-cases, inl, inr, Run, ok, fault, stuck, ◌>>=◌,
}
use libpgf.Utf8.{encode_one_unsafe, encode_length}
use libpgf.Utf8.Reference.{IsUcs, utf8}
use libpgf.Utf8.Scalar.{encode_one-utf8, encode_length-utf8, length-utf8}

-- The pointers of the C function: the code points left, the bytes written so far, and how many
-- more fit.
pub record Encoding : Type 0 where
  pub src : List ℕ
  pub out : List ℕ
  pub room : ℕ

-- The bytes of one code point are written, and `dst_curr += len`.
abbrev advance : Encoding → List ℕ → List ℕ → Encoding
advance s src bytes = record { src = src; out = s.out ++ bytes; room = s.room - length bytes }

-- `for (i = 0; i < n; i++)` of the first loop.
encode_block : ℕ → List ℕ → Encoding → Run Encoding
encode_block zero src s = ok (record s { src = src })
encode_block (suc n) [] s = fault
encode_block (suc n) (u ∷ src) s = do
  bytes ← encode_one_unsafe u
  encode_block n src (advance s src bytes)

-- The first loop, while every character fits.
encode_fast : ℕ → Encoding → Run Encoding
unfolding encode_block
encode_fast zero s = stuck
encode_fast (suc fuel) s =
    let n = min (length s.src) (s.room / 4) in
    let rest = encode_block n s.src s >>= encode_fast fuel in if n == 0 then ok s else rest

-- The second loop, character by character.
encode_tail : List ℕ → Encoding → Run Encoding
encode_tail [] s = ok s
encode_tail (u ∷ src) s =
    let rest = (do bytes ← encode_one_unsafe u; encode_tail src (advance s src bytes)) in
    if s.room == 0 then ok s else if ltb s.room (encode_length u) then ok s else rest

-- Each round of the first loop takes a code point.
pub encode : Encoding → Run Encoding
unfolding encode_fast encode_tail
encode s = do t ← encode_fast (suc (length s.src)) s; encode_tail t.src t

-- As many characters as fit, one after the other.
pub greedy : List ℕ → Encoding → Encoding
greedy [] s = s
greedy (u ∷ src) s =
    let rest = greedy src (advance s src (utf8 u)) in
    if ltb s.room (length (utf8 u)) then s else rest

encode_tail-greedy :
    (src : List ℕ) (s : Encoding) → All IsUcs src → encode_tail src s ≡ ok (greedy src s)
unfolding encode_tail greedy
encode_tail-greedy [] s h = refl
encode_tail-greedy (u ∷ src) s h = rw (encode_one-utf8 u h.0) (
    ground (
      arith,
      encode_length-utf8 u h.0,
      length-utf8 u,
      encode_tail-greedy src (advance s src (utf8 u)) h.1,
    ))

-- A block of characters that surely fit is a stretch of the greedy run.
encode_block-greedy :
    (n : ℕ) (src : List ℕ) (s : Encoding)
    → All IsUcs src
    → n ≤ length src
    → n ≤ s.room / 4
    → (t : Encoding) × (encode_block n src s ≡ ok t)
      × All IsUcs t.src
      × (length t.src + n ≡ length src)
      × (greedy t.src t ≡ greedy src (record s { src = src }))
unfolding encode_block greedy
encode_block-greedy zero src s h p q = (record s { src = src }, refl, h, omega arith, refl)
encode_block-greedy (suc n) [] s h p q = absurd (omega arith)
encode_block-greedy (suc n) (u ∷ src) s h p q =
    let fits = length-utf8 u in
    let (t, run, valid, left, same) =
      encode_block-greedy n src (advance s src (utf8 u)) h.1 (omega arith) (omega arith) in
    (
      t,
      rw (encode_one-utf8 u h.0) run,
      valid,
      omega arith,
      same ∙ rw (le→ltb s.room (length (utf8 u)) (omega arith)),
    )

encode_fast-greedy :
    (fuel : ℕ) (s : Encoding)
    → All IsUcs s.src
    → length s.src < fuel
    → (t : Encoding) × (encode_fast fuel s ≡ ok t)
      × All IsUcs t.src
      × (greedy t.src t ≡ greedy s.src s)
unfolding encode_fast
encode_fast-greedy zero s h p = absurd (omega arith)
encode_fast-greedy (suc fuel) s h p =
    let n = min (length s.src) (s.room / 4) in
    elim (Bool-cases (n == 0)) [
      | inl done ↦ (s, rw done, h, refl)
      | inr more ↦
          let (t, run, valid, left, same) =
            encode_block-greedy n s.src s h (omega arith) (omega arith) in
          let (r, run', valid', same') = encode_fast-greedy fuel t valid (ground arith) in
          (r, rw (more, run) run', valid', same' ∙ same)
    ]

encode-greedy : (s : Encoding) → All IsUcs s.src → encode s ≡ ok (greedy s.src s)
unfolding encode
encode-greedy s h =
    let (t, run, valid, same) = encode_fast-greedy (suc (length s.src)) s h (omega arith) in
    rw run (encode_tail-greedy t.src t valid ∙ ap ok same)

-- The UTF-8 form of a text.
unfoldable pub utf8_text : List ℕ → List ℕ
utf8_text [] = []
utf8_text (u ∷ us) = utf8 u ++ utf8_text us

-- Nothing is left, or the next character does not fit.
abbrev pub Stops : List ℕ → ℕ → Type 0
Stops [] room = Unit
Stops (u ∷ us) room = room < length (utf8 u)

-- `s` has been brought to `t` by the characters of a stretch of its source.
pub record Fills (s t : Encoding) : Type 0 where
  pub done : List ℕ
  pub split : s.src ≡ done ++ t.src
  pub written : t.out ≡ s.out ++ utf8_text done
  pub counted : t.room + length (utf8_text done) ≡ s.room
  pub stops : Stops t.src t.room

greedy-Fills : (src : List ℕ) (s : Encoding) → s.src ≡ src → Fills s (greedy src s)
unfolding greedy utf8_text
greedy-Fills [] s e = record {
  done = [];
  split = refl;
  written = sym (append-nil s.out);
  counted = omega arith;
  stops = rw e tt;
}
greedy-Fills (u ∷ src) s e = elim (Bool-cases (ltb s.room (length (utf8 u)))) [
  | inl full ↦ rw full (record {
    done = [];
    split = refl;
    written = sym (append-nil s.out);
    counted = omega arith;
    stops = rw e (ltb→lt _ _ full);
  })
  | inr fits ↦
      let t = greedy-Fills src (advance s src (utf8 u)) refl in
      rw fits (record {
        done = u ∷ t.done;
        split = e ∙ ap (λ l. u ∷ l) t.split;
        written = t.written ∙ append_assoc s.out (utf8 u) (utf8_text t.done);
        counted = rw length-append (omega (arith, t.counted, ltb→le _ _ fits));
        stops = t.stops;
      })
]

-- On code points gu_utf8_encode ends without an assertion: it writes the UTF-8 forms of a first
-- stretch of the source behind the output, takes their bytes off the room, keeps the rest of the
-- source, and stops only at its end or at a character that does not fit.
pub encode-Fills : (s : Encoding) → All IsUcs s.src → (t : Encoding) × (encode s ≡ ok t) × Fills s t
encode-Fills s h = (greedy s.src s, encode-greedy s h, greedy-Fills s.src s refl)
