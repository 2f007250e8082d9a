-- ===== src/Input/Enough.antt =====
-- The reads of gu/in.c through the buffers against those from the list of the bytes to come.
use libpgf.Prelude.{
  ℕ, zero, suc, ◌+◌, ◌-◌, ◌≤◌, ◌<◌, ◌≡◌, ◌⊎◌, inl, inr, refl, sym, ap, ◌∙◌, arith, true, Bool-cases,
  ltb, leb, ◌==◌, ==_iff, lt→ltb, ltb→lt, ltb→le, le→ltb, List, [], ◌∷◌, ◌++◌, append-nil,
  append_assoc, length, length-append, take, drop, Run, ok, raised,
}
use mathlib.Core.Path.{subst}
use libpgf.Input.{in_u8, in_bytes}
use libpgf.Input.Endian.{in_bytes-append}
use libpgf.Input.Buffered.{InStream, In, IsStream, some_loop, in_some, buffered_bytes, buffered_u8}
use libpgf.Input.Refine.{Shows, Plain-Shows, begin_buffering-Shows, in_input-Plain, passed-Shows}

no_bytes : (xs : List ℕ) → length xs ≡ 0 → xs ≡ []
no_bytes [] e = refl
no_bytes (x ∷ xs) e = absurd (omega (arith, e))

exact_bytes :
    (got rest l : List ℕ) (n : ℕ) → length got ≡ n → l ≡ got ++ rest → in_bytes n l ≡ ok (got, rest)
exact_bytes got rest l n e split =
    ap (λ k. in_bytes k l) (sym e) ∙ ap (in_bytes (length got)) split ∙ in_bytes-append got rest

short_bytes : (l : List ℕ) (n : ℕ) → length l < n → in_bytes n l ≡ raised
unfolding in_bytes
short_bytes l n lt = rw (lt→ltb (length l) n lt) refl

first_of : (w : List ℕ) → 0 < length w → (x : ℕ) × (take 1 w ≡ x ∷ [])
first_of [] pos = absurd (omega (arith, pos))
first_of (x ∷ w) pos = (x, ap (λ t. x ∷ t) (take_none w))
  where
    take_none : (w : List ℕ) → take 0 w ≡ []
    take_none w = refl

one_or_none : (bs : List ℕ) → length bs ≤ 1 → (bs ≡ []) ⊎ ((x : ℕ) × (bs ≡ x ∷ []))
one_or_none [] few = inl refl
one_or_none (x ∷ bs) few = inr (x, ap (λ t. x ∷ t) (no_bytes bs (omega (arith, few))))

module _ {ℓ} {S : Type ℓ} (funs : InStream S) (content : S → List ℕ)
    (law : IsStream funs content) where
  -- What a read of some bytes gives: enough, or all there are.
  abbrev Some : Run (List ℕ × In S) → List ℕ → List ℕ → ℕ → ℕ → Type ℓ
  Some r got l n least =
      (more : List ℕ) × (i' : In S) × (l' : List ℕ) × (r ≡ ok (got ++ more, i'))
      × (l ≡ more ++ l')
      × Shows funs content law i' l'
      × (length (got ++ more) ≤ n)
      × (length (got ++ more) < least → l' ≡ [])

  -- Nothing more is read.
  done :
      (got : List ℕ) (n least : ℕ) (i : In S) (l : List ℕ) (r : Run (List ℕ × In S))
      → r ≡ ok (got, i)
      → Shows funs content law i l
      → length got ≤ n
      → (length got < least → l ≡ [])
      → Some r got l n least
  done got n least i l r run sh few last =
      let same = append-nil got in
      (
        [],
        i,
        l,
        run ∙ ap (λ g. ok (g, i)) (sym same),
        refl,
        sh,
        subst (λ g. length g ≤ n) (sym same) few,
        λ short. last (subst (λ g. length g < least) same short),
      )

  again :
      (got bs : List ℕ) (n least : ℕ) (l l1 : List ℕ) (r : Run (List ℕ × In S))
      → l ≡ bs ++ l1
      → Some r (got ++ bs) l1 n least
      → Some r got l n least
  again got bs n least l l1 r split (more, i', l', run, split', sh, few, last) =
      let same = append_assoc got bs more in
      (
        bs ++ more,
        i',
        l',
        run ∙ ap (λ g. ok (g, i')) same,
        split ∙ ap (λ x. bs ++ x) split' ∙ sym (append_assoc bs more l'),
        sh,
        subst (λ g. length g ≤ n) same few,
        λ short. last (subst (λ g. length g < least) (sym same) short),
      )

  some_loop-Some :
      (fuel : ℕ) (got : List ℕ) (n least : ℕ) (i : In S) (l : List ℕ)
      → Shows funs content law i l
      → least ≤ n
      → length got ≤ n
      → least ≤ length got + fuel
      → Some (some_loop funs fuel got n least i) got l n least
  unfolding some_loop
  some_loop-Some zero got n least i l sh le few enough =
      let full = le→ltb (length got) least (omega (arith, enough)) in
      rw full (
        done got n least i l (ok (got, i)) refl sh few
          (λ short. absurd (omega (arith, enough, short))))
  some_loop-Some (suc fuel) got n least i l sh le few enough =
      elim (Bool-cases (ltb (length got) least)) [
        | inr full ↦ rw full (
            done got n least i l (ok (got, i)) refl sh few
              (λ short. absurd (omega (arith, short, ltb→le (length got) least full))))
        | inl short ↦
            let lt = ltb→lt (length got) least short in
            let (bs, j, l1, run, split, p, room, last) =
              in_input-Plain funs content law i (n - length got) l sh (omega (arith, lt, le)) in
            elim (Bool-cases (length bs == 0)) [
              | inl no_more ↦
                  let nothing = no_bytes bs ((==_iff (length bs) 0).0 no_more) in
                  let same : l ≡ l1 = split ∙ ap (λ x. x ++ l1) nothing in
                  rw (short, run, no_more)
                    (done got n least j l (ok (got, j)) refl
                      (Plain-Shows funs content law j l (p.0 ∙ sym same, p.1, p.2, p.3)) few
                      (λ s. last nothing))
              | inr some_more ↦
                  let longer = length-append got bs in
                  let one : 1 ≤ length bs = ground (arith, some_more) in
                  rw (short, run, some_more)
                    (again got bs n least l l1 (some_loop funs fuel (got ++ bs) n least j) split (
                      some_loop-Some fuel (got ++ bs) n least j l1
                        (Plain-Shows funs content law j l1 p) le
                        (omega (arith, longer, room, few, lt, le))
                        (omega (arith, longer, enough, one))))
            ]
      ]

  in_some-Some :
      (i : In S) (n least : ℕ) (l : List ℕ)
      → Shows funs content law i l
      → least ≤ n
      → Some (in_some funs i n least) [] l n least
  unfolding in_some
  in_some-Some i n least l sh le =
      let allowed : leb least n ≡ true = ground (arith, le) in
      let (b, j, run, sh', buffer) = begin_buffering-Shows funs content law i l sh in
      elim buffer [
        | inl full ↦
            let (l', split, sh'') = passed-Shows funs content law j n l sh' in
            rw (allowed, run, full.0)
              (again [] (take n j.window) n least l l'
                (some_loop funs least (take n j.window) n least
                  (record j { window = drop n j.window }))
                split
                (some_loop-Some least (take n j.window) n least
                  (record j { window = drop n j.window }) l' sh'' le (length-take n j.window)
                  (omega arith)))
        | inr empty ↦
            rw (allowed, run, empty.0)
              (some_loop-Some least [] n least j l sh' le (omega arith) (omega arith))
      ]
    where
      length-take : (n : ℕ) (xs : List ℕ) → length (take n xs) ≤ n
      length-take zero xs = omega arith
      length-take (suc n) [] = omega arith
      length-take (suc n) (x ∷ xs) = omega (arith, length-take n xs)

  -- gu_in_bytes_ through the buffers reads what it reads from the list of the bytes to come, or
  -- raises the same exception, and shows the same bytes to come afterwards.
  pub buffered_bytes-in_bytes :
      (i : In S) (n : ℕ) (l : List ℕ)
      → Shows funs content law i l
      → ((in_bytes n l ≡ raised) × (buffered_bytes funs i n ≡ raised))
        ⊎ ((got : List ℕ) × (rest : List ℕ) × (i' : In S) × (in_bytes n l ≡ ok (got, rest))
            × (buffered_bytes funs i n ≡ ok (got, i'))
            × Shows funs content law i' rest)
  unfolding buffered_bytes
  buffered_bytes-in_bytes i n l sh =
      let (got, i', l', run, split, sh', few, last) = in_some-Some i n n l sh (omega arith) in
      let total = ap length split ∙ length-append got l' in
      elim (Bool-cases (ltb (length got) n)) [
        | inl short ↦
            let lt = ltb→lt (length got) n short in
            let all : length l < n = omega (arith, total, lt, ap length (last lt)) in
            inl (short_bytes l n all, rw (run, short) refl)
        | inr enough ↦
            let exact : length got ≡ n = omega (arith, few, ltb→le (length got) n enough) in
            inr (got, l', i', exact_bytes got l' l n exact split, rw (run, enough) refl, sh')
      ]

  -- gu_in_u8_ through the buffers reads the next byte, or raises the exception where there is none.
  pub buffered_u8-in_u8 :
      (i : In S) (l : List ℕ)
      → Shows funs content law i l
      → ((in_u8 l ≡ raised) × (buffered_u8 funs i ≡ raised))
        ⊎ ((b : ℕ) × (rest : List ℕ) × (i' : In S) × (in_u8 l ≡ ok (b, rest))
            × (buffered_u8 funs i ≡ ok (b, i'))
            × Shows funs content law i' rest)
  unfolding buffered_u8 in_u8
  buffered_u8-in_u8 i l sh =
      let (b, j, run, sh', buffer) = begin_buffering-Shows funs content law i l sh in
      elim buffer [
        | inl full ↦
            let (l', split, sh'') = passed-Shows funs content law j 1 l sh' in
            let (x, one) = first_of j.window full.1 in
            inr (
              x,
              l',
              record j { window = drop 1 j.window },
              ap in_u8 (split ∙ ap (λ t. t ++ l') one),
              rw (run, full.0, lt→ltb 0 (length j.window) full.1, one) refl,
              sh'',
            )
        | inr empty ↦
            let (bs, j', l', run', split, p, few, last) =
              in_input-Plain funs content law j 1 l sh' (omega arith) in
            elim (one_or_none bs few) [
              | inl nothing ↦ inl (ap in_u8 (last nothing), rw (run, empty.0, run', nothing) refl)
              | inr byte ↦ inr (
                byte.0,
                l',
                j',
                ap in_u8 (split ∙ ap (λ t. t ++ l') byte.1),
                rw (run, empty.0, run', byte.1) refl,
                Plain-Shows funs content law j' l' p,
              )
            ]
      ]
