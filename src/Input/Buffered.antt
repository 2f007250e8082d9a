-- ===== src/Input/Buffered.antt =====
-- The buffers of a GuIn: gu/in.c and gu/in.h. The stream behind it is a parameter, with the state
-- it keeps. A length is taken to fit a `ptrdiff_t`.
use libpgf.Prelude.{
  ℕ, zero, suc, ◌+◌, ◌-◌, ◌<◌, ◌≡◌, ◌≤◌, Bool, true, false, ◌&&◌, not, ltb, leb, ◌==◌,
  if◌then◌else◌, Option, none, some, List, [], ◌∷◌, ◌++◌, length, take, drop, Run, ok, raised,
  stuck, ◌>>=◌, ◌>>◌, require,
}

-- `begin_buffer` shows bytes without a step past them, and may be missing; `end_buffer` steps past
-- some of them; `input` copies at most as many bytes as it is told.
pub record InStream {ℓ} (S : Type ℓ) : Type ℓ where
  pub begin_buffer : Option (S → Run (List ℕ × S))
  pub end_buffer : S → ℕ → Run S
  pub input : S → ℕ → Run (List ℕ × S)

-- `window` holds the bytes from `buf_curr` to `buf_end`: `buf_curr` is their number, negated.
pub record In {ℓ} (S : Type ℓ) : Type ℓ where
  pub stream : S
  pub buffering : Bool
  pub window : List ℕ
  pub buf_size : ℕ
  pub stream_pos : ℕ

abbrev pub init_in {ℓ} : {S : Type ℓ} → S → In S
init_in s = record { stream = s; buffering = false; window = []; buf_size = 0; stream_pos = 0 }

module _ {ℓ} {S : Type ℓ} (funs : InStream S) where
  unfoldable pub end_buffering : In S → Run (In S)
  end_buffering i =
      if not i.buffering
      then ok i
      else (funs.end_buffer i.stream (i.buf_size - length i.window) >>= λ s. ok (record {
        stream = s;
        buffering = false;
        window = [];
        buf_size = 0;
        stream_pos = i.stream_pos + (i.buf_size - length i.window);
      }))

  -- A new buffer, where the stream has such, and there is a byte in it.
  unfoldable pub refill : In S → Run (Bool × In S)
  refill i = elim (funs.begin_buffer) [
    | none ↦ ok (false, i)
    | some begin ↦ begin i.stream >>= λ r.
        if length r.0 == 0
        then ok (false, record i { stream = r.1 })
        else ok
            (true, record i { stream = r.1; buffering = true; window = r.0; buf_size = length r.0 })
  ]

  unfoldable pub begin_buffering : In S → Run (Bool × In S)
  unfolding end_buffering refill
  begin_buffering i =
      if i.buffering && ltb 0 (length i.window) then ok (true, i) else (end_buffering i >>= refill)

  unfoldable pub in_input : In S → ℕ → Run (List ℕ × In S)
  unfolding end_buffering
  in_input i n =
      if n == 0
      then ok ([], i)
      else (end_buffering i >>= λ j. funs.input j.stream n >>= λ r.
          ok (r.0, record j { stream = r.1; stream_pos = j.stream_pos + length r.0 }))

  -- `while (got < min_sz)`. A round that goes on gets a byte, so `min_sz` rounds are enough.
  unfoldable pub some_loop : ℕ → List ℕ → ℕ → ℕ → In S → Run (List ℕ × In S)
  unfolding in_input
  some_loop zero got n least i = if ltb (length got) least then stuck else ok (got, i)
  some_loop (suc fuel) got n least i =
      if ltb (length got) least
      then (in_input i (n - length got) >>= λ r.
          if length r.0 == 0 then ok (got, r.1) else some_loop fuel (got ++ r.0) n least r.1)
      else ok (got, i)

  unfoldable pub in_some : In S → ℕ → ℕ → Run (List ℕ × In S)
  unfolding begin_buffering some_loop
  in_some i n least = do
    require (leb least n)
    r ← begin_buffering i
    (if r.0
        then some_loop least (take n r.1.window) n least (record r.1 { window = drop n r.1.window })
        else some_loop least [] n least r.1)

  unfoldable pub buffered_bytes : In S → ℕ → Run (List ℕ × In S)
  unfolding in_some
  buffered_bytes i n = in_some i n n >>= λ r. if ltb (length r.0) n then raised else ok r

  abbrev first_byte : List ℕ × In S → Run (ℕ × In S)
  first_byte ([], i) = raised
  first_byte (b ∷ bs, i) = ok (b, i)

  unfoldable pub buffered_u8 : In S → Run (ℕ × In S)
  unfolding begin_buffering in_input
  buffered_u8 i = begin_buffering i >>= λ r.
      if r.0 && ltb 0 (length r.1.window)
      then first_byte (take 1 r.1.window, record r.1 { window = drop 1 r.1.window })
      else (in_input r.1 1 >>= first_byte)

  unfoldable pub in_tell : In S → ℕ
  in_tell i = i.stream_pos + i.buf_size - length i.window

-- What the functions of a stream are to do, where `content` gives the bytes that are left in it, as
-- in gu/file.c. Those of gu_data_in and gu_new_buffered_in, whose `input` is of use only at the end
-- of their buffer, promise less.
pub record IsStream {ℓ} {S : Type ℓ} (funs : InStream S) (content : S → List ℕ) : Type ℓ where
  pub begins :
      (begin : S → Run (List ℕ × S))
      → funs.begin_buffer ≡ some begin
      → (s : S)
      → (shown : List ℕ) × (s' : S) × (tail : List ℕ) × (begin s ≡ ok (shown, s'))
        × (content s ≡ shown ++ tail)
        × (content s' ≡ content s)
  pub ends :
      (s : S) (front back : List ℕ)
      → content s ≡ front ++ back
      → (s' : S) × (funs.end_buffer s (length front) ≡ ok s') × (content s' ≡ back)
  pub inputs :
      (s : S) (n : ℕ)
      → 0 < n
      → (bs : List ℕ) × (s' : S) × (funs.input s n ≡ ok (bs, s'))
        × (content s ≡ bs ++ content s')
        × (length bs ≤ n)
        × (bs ≡ [] → content s ≡ [])
