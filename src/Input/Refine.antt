-- ===== src/Input/Refine.antt =====
-- A GuIn of gu/in.c, at its start, its end, and in between, as the list of the bytes to come.
use libpgf.Prelude.{
  ℕ, zero, suc, ◌+◌, ◌-◌, ◌≤◌, ◌<◌, ◌≡◌, ◌⊎◌, inl, inr, refl, sym, ap, ◌∙◌, arith, Bool, true,
  false, ◌&&◌, Bool-cases, Option-cases, ltb, ◌==◌, List, [], ◌∷◌, ◌++◌, append_assoc, length,
  length-append, take-nil, drop-nil, take, drop, ok,
}
use libpgf.Input.Buffered.{InStream, In, IsStream, end_buffering, refill, begin_buffering, in_input}

pub take-drop : (n : ℕ) (xs : List ℕ) → take n xs ++ drop n xs ≡ xs
take-drop zero xs = refl
take-drop (suc n) [] = refl
take-drop (suc n) (x ∷ xs) = ap (λ l. x ∷ l) (take-drop n xs)

module _ {ℓ} {S : Type ℓ} (funs : InStream S) (content : S → List ℕ)
    (law : IsStream funs content) where
  -- The bytes `l` are to come: the stream is still at the start of the buffer, of which `passed`
  -- was read.
  abbrev pub Shows : In S → List ℕ → Type 0
  Shows i l =
      (passed : List ℕ) × (tail : List ℕ) × (content i.stream ≡ passed ++ l)
      × (l ≡ i.window ++ tail)
      × (i.buf_size ≡ length passed + length i.window)
      × (i.buffering ≡ false → (passed ≡ []) × (i.window ≡ []))

  -- They are to come, and no buffer is in use.
  abbrev pub Plain : In S → List ℕ → Type 0
  Plain i l = (content i.stream ≡ l) × (i.buffering ≡ false) × (i.window ≡ []) × (i.buf_size ≡ 0)

  pub Plain-Shows : (i : In S) (l : List ℕ) → Plain i l → Shows i l
  Plain-Shows i l (e, b, w, z) =
      ([], l, e, rw w refl, omega (arith, z, ap length w), λ e'. (refl, w))

  end_buffering-Plain :
      (i : In S) (l : List ℕ)
      → Shows i l
      → (i' : In S) × (end_buffering funs i ≡ ok i') × Plain i' l
  unfolding end_buffering
  end_buffering-Plain i l (passed, tail, e, front, size, idle) = elim (Bool-cases i.buffering) [
    | inr off ↦
        let (no_pass, no_window) = idle off in
        (
          i,
          rw off refl,
          (
            e ∙ ap (λ p. p ++ l) no_pass,
            off,
            no_window,
            size ∙ ap (λ p. length p + length i.window) no_pass ∙ ap (λ w. 0 + length w) no_window,
          ),
        )
    | inl on ↦
        let (s', run, rest) = law.ends i.stream passed l e in
        let len : i.buf_size - length i.window ≡ length passed = omega (arith, size) in
        (
          record {
            stream = s';
            buffering = false;
            window = [];
            buf_size = 0;
            stream_pos = i.stream_pos + (i.buf_size - length i.window);
          },
          rw (on, len, run) refl,
          (rest, refl, refl, refl),
        )
  ]

  refill-Shows :
      (i : In S) (l : List ℕ)
      → Plain i l
      → (b : Bool) × (i' : In S) × (refill funs i ≡ ok (b, i'))
        × Shows i' l
        × (((b ≡ true) × (0 < length i'.window)) ⊎ ((b ≡ false) × Plain i' l))
  unfolding refill
  refill-Shows i l p = elim (Option-cases funs.begin_buffer) [
    | inl missing ↦ (false, i, rw missing refl, Plain-Shows i l p, inr (refl, p))
    | inr there ↦
        let (begin, is) = there in
        let (shown, s', tail, run, e, same) = law.begins begin is i.stream in
        elim (Bool-cases (length shown == 0)) [
          | inl none_shown ↦
              let q : Plain (record i { stream = s' }) l = (same ∙ p.0, p.1, p.2, p.3) in
              (
                false,
                record i { stream = s' },
                rw (is, run, none_shown) refl,
                Plain-Shows (record i { stream = s' }) l q,
                inr (refl, q),
              )
          | inr some_shown ↦ (
            true,
            record i { stream = s'; buffering = true; window = shown; buf_size = length shown },
            rw (is, run, some_shown) refl,
            ([], tail, same ∙ p.0, sym (p.0) ∙ e, omega arith, λ e'. absurd (cc e')),
            inl (refl, ground (arith, some_shown)),
          )
        ]
  ]

  pub begin_buffering-Shows :
      (i : In S) (l : List ℕ)
      → Shows i l
      → (b : Bool) × (i' : In S) × (begin_buffering funs i ≡ ok (b, i'))
        × Shows i' l
        × (((b ≡ true) × (0 < length i'.window)) ⊎ ((b ≡ false) × Plain i' l))
  unfolding begin_buffering
  begin_buffering-Shows i l sh = elim (Bool-cases (i.buffering && ltb 0 (length i.window))) [
    | inl left ↦ (true, i, rw left refl, sh, inl (refl, ground (arith, left)))
    | inr empty ↦
        let (j, run, p) = end_buffering-Plain i l sh in
        let (b, i', run', shows, buffer) = refill-Shows j l p in
        (b, i', rw (empty, run) run', shows, buffer)
  ]

  pub in_input-Plain :
      (i : In S) (n : ℕ) (l : List ℕ)
      → Shows i l
      → 0 < n
      → (bs : List ℕ) × (i' : In S) × (l' : List ℕ) × (in_input funs i n ≡ ok (bs, i'))
        × (l ≡ bs ++ l')
        × Plain i' l'
        × (length bs ≤ n)
        × (bs ≡ [] → l ≡ [])
  unfolding in_input
  in_input-Plain i n l sh pos =
      let (j, run, (e, off, w, z)) = end_buffering-Plain i l sh in
      let (bs, s', run', split, few, last) = law.inputs j.stream n pos in
      let some_n : (n == 0) ≡ false = ground (arith, pos) in
      (
        bs,
        record j { stream = s'; stream_pos = j.stream_pos + length bs },
        content s',
        rw (some_n, run, run') refl,
        sym e ∙ split,
        (refl, off, w, z),
        few,
        λ n'. sym e ∙ last n',
      )

  -- Bytes of the buffer are passed.
  pub passed-Shows :
      (i : In S) (n : ℕ) (l : List ℕ)
      → Shows i l
      → (l' : List ℕ) × (l ≡ take n i.window ++ l')
        × Shows (record i { window = drop n i.window }) l'
  passed-Shows i n l (passed, tail, e, front, size, idle) =
      let split = take-drop n i.window in
      let whole : l ≡ take n i.window ++ (drop n i.window ++ tail) =
        front
        ∙ ap (λ w. w ++ tail) (sym split)
        ∙ append_assoc (take n i.window) (drop n i.window) tail in
      (
        drop n i.window ++ tail,
        whole,
        (
          passed ++ take n i.window,
          tail,
          e
              ∙ ap (λ x. passed ++ x) whole
              ∙ sym (append_assoc passed (take n i.window) (drop n i.window ++ tail)),
          refl,
          omega (
            arith,
            size,
            length-append passed (take n i.window),
            length-append (take n i.window) (drop n i.window),
            ap length split,
          ),
          λ off.
              let (no_pass, no_window) = idle off in
              (
                ap (λ p. p ++ take n i.window) no_pass ∙ ap (take n) no_window ∙ take-nil n,
                ap (drop n) no_window ∙ drop-nil n,
              ),
        ),
      )
