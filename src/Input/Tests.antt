-- ===== src/Input/Tests.antt =====
-- Runs of the functions of gu/in.c.
use libpgf.Prelude.{
  ℕ, zero, suc, ◌+◌, ◌*◌, ◌/◌, ◌%◌, ◌≤◌, ◌<◌, ◌≡◌, ◌⊎◌, refl, sym, ap, ◌∙◌, arith, none, some, List,
  [], ◌∷◌, ◌++◌, length, take, drop, drop-append, Run, ok, raised, ◌>>=◌,
}
use libpgf.Input.{ℤ, negsuc, in_be, in_u16le, in_s16be, in_s8, in_u32be, in_bytes, decode_2c}
use libpgf.Input.Signed.{twos, IsSigned, decode_2c-twos}
use libpgf.Input.Buffered.{InStream, IsStream, In, init_in, buffered_bytes, in_tell}
use libpgf.Input.Refine.{Shows, take-drop}
use libpgf.Input.Enough.{buffered_bytes-in_bytes}
use libpgf.Input.Endian.{be_bytes, in_be-be_bytes, in_u16le-swapped}

least : in_s8 (128 ∷ 7 ∷ []) ≡ ok (negsuc 127, 7 ∷ [])
unfolding in_s8
least = refl

minus_two : in_s16be (255 ∷ 254 ∷ []) ≡ ok (negsuc 1, [])
unfolding in_s16be
minus_two = refl

short : in_u32be (1 ∷ 2 ∷ 3 ∷ []) ≡ raised
unfolding in_u32be
short = refl

decode_2c-twos_example : (z : ℤ) × (decode_2c 15 65000 ≡ ok z) × IsSigned 15 z × (twos 15 z ≡ 65000)
decode_2c-twos_example = decode_2c-twos 15 65000 (omega arith)

in_be-be_bytes_example : in_be 4 (be_bytes 4 123456789 ++ 9 ∷ []) ≡ ok (123456789, 9 ∷ [])
in_be-be_bytes_example = in_be-be_bytes 4 123456789 (9 ∷ []) (omega arith) (omega arith)

in_u16le-swapped_example :
    in_u16le (513 % 256 ∷ 513 / 256 ∷ []) ≡ ok (513 % 256 * 256 + 513 / 256, [])
in_u16le-swapped_example = in_u16le-swapped 513 [] (omega arith)

-- A stream that shows three bytes at a time.
abbrev by_three : InStream (List ℕ)
by_three = record {
  begin_buffer = some (λ s. ok (take 3 s, s));
  end_buffer = λ s n. ok (drop n s);
  input = λ s n. ok (take n s, drop n s);
}

taken_none : (n : ℕ) (s : List ℕ) → 0 < n → take n s ≡ [] → s ≡ []
taken_none n [] pos e = refl
taken_none zero (x ∷ s) pos e = absurd (omega (arith, pos))
taken_none (suc n) (x ∷ s) pos e = absurd (cc e)

length-take_most : (n : ℕ) (s : List ℕ) → length (take n s) ≤ n
length-take_most zero s = omega arith
length-take_most (suc n) [] = omega arith
length-take_most (suc n) (x ∷ s) = omega (arith, length-take_most n s)

by_three-IsStream : IsStream by_three (λ s. s)
by_three-IsStream = record {
  begins = λ begin is s. (
    take 3 s,
    s,
    drop 3 s,
    ap (λ o. elim o as (λ o. Run (List ℕ × List ℕ)) [ none ↦ raised | some f ↦ f s ]) (sym is),
    sym (take-drop 3 s),
    refl,
  );
  ends = λ s front back e.
      (back, ap (λ t. ok (drop (length front) t)) e ∙ ap ok (drop-append front back), refl);
  inputs = λ s n pos.
      (take n s, drop n s, refl, sym (take-drop n s), length-take_most n s, taken_none n s pos);
}

abbrev opened : In (List ℕ)
opened = init_in (1 ∷ 2 ∷ 3 ∷ 4 ∷ 5 ∷ [])

opened-Shows : Shows by_three (λ s. s) by_three-IsStream opened (1 ∷ 2 ∷ 3 ∷ 4 ∷ 5 ∷ [])
opened-Shows = ([], 1 ∷ 2 ∷ 3 ∷ 4 ∷ 5 ∷ [], refl, refl, refl, λ off. (refl, refl))

-- Two bytes of the buffer, then four of which the last two come from the stream.
position :
    (buffered_bytes by_three opened 2 >>= λ r.
    buffered_bytes by_three r.1 3 >>= λ t. ok (in_tell by_three t.1))
    ≡ ok 5
unfolding buffered_bytes in_tell
position = refl

buffered_bytes-in_bytes_example :
    ((in_bytes 4 (1 ∷ 2 ∷ 3 ∷ 4 ∷ 5 ∷ []) ≡ raised) × (buffered_bytes by_three opened 4 ≡ raised))
    ⊎ ((got : List ℕ) × (rest : List ℕ) × (i' : In (List ℕ)) × (in_bytes 4 (1 ∷ 2 ∷ 3 ∷ 4 ∷ 5 ∷ [])
          ≡ ok (got, rest))
        × (buffered_bytes by_three opened 4 ≡ ok (got, i'))
        × Shows by_three (λ s. s) by_three-IsStream i' rest)
buffered_bytes-in_bytes_example =
    buffered_bytes-in_bytes by_three (λ s. s) by_three-IsStream opened 4 (1 ∷ 2 ∷ 3 ∷ 4 ∷ 5 ∷ [])
      opened-Shows
