-- ===== src/Utf8/Decode.antt =====
-- gu_utf8_decode_unsafe of gu/utf8.c: well-formed bytes into a buffer of limited room, in blocks of
-- as many characters as the bytes surely hold.
use libpgf.Prelude.{
  ℕ, zero, suc, ◌+◌, ◌-◌, ◌*◌, ◌/◌, ◌≤◌, ◌<◌, min, ◌≡◌, sym, ◌∙◌, ap, arith, append_assoc,
  append-nil, All, List, [], ◌∷◌, ◌++◌, length, length-append, take, drop, drop-append, take-take,
  drop-drop, drop-nil, take-nil, length-drop, ◌==◌, if◌then◌else◌, Bool-cases, inl, inr, Run, ok,
  stuck, ◌>>=◌,
}
use libpgf.Utf8.{decode_one_unsafe}
use libpgf.Utf8.Reference.{IsUcs}
use libpgf.Utf8.Scalar.{decode_one-utf8, decode_unsafe-eq-decode, length-utf8}
use libpgf.Utf8.Encode.{utf8_text}

-- The bytes left, the code points stored so far, and how many more fit.
pub record Decoding : Type 0 where
  pub src : List ℕ
  pub out : List ℕ
  pub room : ℕ

-- `for (i = 0; i < sz; i++)`
decode_block : ℕ → Decoding → Run Decoding
decode_block zero s = ok s
decode_block (suc n) s = do
  (u, len) ← decode_one_unsafe s.src
  decode_block n (record s { src = drop len s.src; out = s.out ++ u ∷ [] })

-- A read past the end of the bytes is a fault, so that the assertion behind the loop,
-- `src_curr <= src_end`, holds wherever the loop ends.
decode_loop : ℕ → Decoding → Run Decoding
unfolding decode_block
decode_loop zero s = stuck
decode_loop (suc fuel) s =
    let sz = min ((length s.src + 3) / 4) s.room in
    let rest = decode_block sz s >>= (λ t. decode_loop fuel (record t { room = t.room - sz })) in
    if sz == 0 then ok s else rest

-- Each round takes some of the room.
pub decode_unsafe : Decoding → Run Decoding
unfolding decode_loop
decode_unsafe s = decode_loop (suc s.room) s

length-utf8_text :
    (us : List ℕ) → (length us ≤ length (utf8_text us)) × (length (utf8_text us) ≤ 4 * length us)
unfolding utf8_text
length-utf8_text [] = omega arith
length-utf8_text (u ∷ us) = rw length-append (
  omega (arith, length-utf8 u, length-utf8_text us),
  omega (arith, length-utf8 u, length-utf8_text us),
)

All-drop : (n : ℕ) (us : List ℕ) → All IsUcs us → All IsUcs (drop n us)
All-drop zero us h = h
All-drop (suc n) [] h = h
All-drop (suc n) (u ∷ us) h = All-drop n us h.1

-- The text that is left once all of `us`, or as many as fit, are stored.
abbrev stored : List ℕ → List ℕ → ℕ → Decoding
stored us out room = record {
  src = utf8_text (drop room us);
  out = out ++ take room us;
  room = room - length us;
}

stored_none :
    (us out : List ℕ) (room : ℕ)
    → min (length us) room ≡ 0
    → stored us out room ≡ record { src = utf8_text us; out = out; room = room }
stored_none [] out room h =
    simp (drop-nil, take-nil, append-nil)
      (ap (λ r. record { src = utf8_text []; out = out; room = r }) {x = room - 0} (omega arith))
stored_none (u ∷ us) out zero h = rw append-nil (
    ap (λ r. record { src = utf8_text (u ∷ us); out = out; room = r }) {x = 0 - length (u ∷ us)}
      (omega arith))
stored_none (u ∷ us) out (suc room) h = absurd (omega arith)

stored_more :
    (n : ℕ) (us out : List ℕ) (room : ℕ)
    → n ≤ length us
    → n ≤ room
    → stored (drop n us) (out ++ take n us) (room - n) ≡ stored us out room
stored_more n us out room p q =
    let whole : n + (room - n) ≡ room = omega arith in
    let less : room - n - (length us - n) ≡ room - length us = omega arith in
    rw (drop-drop, append_assoc, take-take, length-drop, whole, less)

decode_block-text :
    (n : ℕ) (us out : List ℕ) (room : ℕ)
    → All IsUcs us
    → n ≤ length us
    → decode_block n (record { src = utf8_text us; out = out; room = room })
      ≡ ok (record { src = utf8_text (drop n us); out = out ++ take n us; room = room })
unfolding decode_block utf8_text
decode_block-text zero us out room h p = rw append-nil
decode_block-text (suc n) [] out room h p = absurd (omega arith)
decode_block-text (suc n) (u ∷ us) out room h p =
    rw (decode_unsafe-eq-decode _ u _ (decode_one-utf8 u (utf8_text us) h.0), drop-append)
      (decode_block-text n us (out ++ u ∷ []) room h.1 (omega arith) ∙ rw append_assoc)

decode_loop-text :
    (fuel : ℕ) (us out : List ℕ) (room : ℕ)
    → All IsUcs us
    → room < fuel
    → decode_loop fuel (record { src = utf8_text us; out = out; room = room })
      ≡ ok (stored us out room)
unfolding decode_loop
decode_loop-text zero us out room h p = absurd (omega arith)
decode_loop-text (suc fuel) us out room h p =
    let n = min ((length (utf8_text us) + 3) / 4) room in
    let sizes = length-utf8_text us in
    elim (Bool-cases (n == 0)) [
      | inl done ↦ rw done (ap ok (sym (stored_none us out room (ground arith))))
      | inr more ↦
          let below : n ≤ length us = omega arith in
          rw (more, decode_block-text n us out room h below)
            (decode_loop-text fuel (drop n us) (out ++ take n us) (room - n) (All-drop n us h)
                (ground arith)
              ∙ ap ok (stored_more n us out room below (omega arith)))
    ]

-- gu_utf8_decode_unsafe undoes UTF-8: on the bytes of a text it never reads past them, stores as
-- many of the text's code points as fit, and leaves the bytes of the others.
pub decode_unsafe-text :
    (us out : List ℕ) (room : ℕ)
    → All IsUcs us
    → decode_unsafe (record { src = utf8_text us; out = out; room = room })
      ≡ ok (record {
        src = utf8_text (drop room us);
        out = out ++ take room us;
        room = room - length us;
      })
unfolding decode_unsafe
decode_unsafe-text us out room h = decode_loop-text (suc room) us out room h (omega arith)
