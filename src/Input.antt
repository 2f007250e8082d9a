-- ===== src/Input.antt =====
-- Integers in an input: gu/in.c, and the two's complement of gu/bits.h. An input is the list of the
-- bytes to come; the buffers of a GuIn, and the stream behind it, are left out.
pub mod Signed
pub mod Endian
pub mod Buffered
pub mod Refine
pub mod Enough
mod Tests
use libpgf.Prelude.{
  ℕ, zero, suc, ◌+◌, ◌-◌, ◌*◌, ◌%◌, ◌^◌, bit_or, Bool, ltb, leb, if◌then◌else◌, List, [], ◌∷◌,
  length, take, drop, Run, ok, raised, ◌>>=◌,
}

-- Integers, `negsuc n` being `-1 - n`.
pub data ℤ : Type 0 where
  pos negsuc : ℕ → ℤ

-- At the end of the input the exception `GuEOF` is raised.
unfoldable pub in_u8 : List ℕ → Run (ℕ × List ℕ)
in_u8 [] = raised
in_u8 (b ∷ bs) = ok (b, bs)

unfoldable pub in_bytes : ℕ → List ℕ → Run (List ℕ × List ℕ)
in_bytes n bs = if ltb (length bs) n then raised else ok (take n bs, drop n bs)

-- `u = u << 8 | buf[i]` in 64 bits.
unfoldable pub be_loop : List ℕ → ℕ → ℕ
be_loop [] u = u
be_loop (b ∷ bs) u = be_loop bs (bit_or (u * 2 ^ 8 % 18446744073709551616) b)

unfoldable pub in_be : ℕ → List ℕ → Run (ℕ × List ℕ)
unfolding in_bytes be_loop
in_be n bs = in_bytes n bs >>= λ r. ok (be_loop r.0 0, r.1)

-- The loop is that of gu_in_be.
unfoldable pub in_le : ℕ → List ℕ → Run (ℕ × List ℕ)
unfolding in_bytes be_loop
in_le n bs = in_bytes n bs >>= λ r. ok (be_loop r.0 0, r.1)

-- `GU_DECODE_2C_` for `w + 1` bits; `tmin + x < 0` where `x` is below `2 ^ w`.
unfoldable pub decode_2c : ℕ → ℕ → Run ℤ
decode_2c w u =
    if leb u (2 ^ w - 1)
    then ok (pos u)
    else if ltb (2 ^ w * 2 - 1 - u) (2 ^ w)
    then ok (negsuc (2 ^ w * 2 - 1 - u))
    else raised

-- A number read is narrowed to its width.
abbrev narrow : ℕ → Run (ℕ × List ℕ) → Run (ℕ × List ℕ)
narrow w r = r >>= λ x. ok (x.0 % 2 ^ w, x.1)

unfoldable pub signed : ℕ → Run (ℕ × List ℕ) → Run (ℤ × List ℕ)
unfolding decode_2c
signed w r = r >>= λ x. decode_2c w x.0 >>= λ z. ok (z, x.1)

unfoldable pub in_s8 : List ℕ → Run (ℤ × List ℕ)
unfolding in_u8 signed
in_s8 bs = signed 7 (in_u8 bs)

unfoldable pub in_u16le : List ℕ → Run (ℕ × List ℕ)
unfolding in_le
in_u16le bs = narrow 16 (in_le 2 bs)

unfoldable pub in_s16le : List ℕ → Run (ℤ × List ℕ)
unfolding signed in_u16le
in_s16le bs = signed 15 (in_u16le bs)

unfoldable pub in_u16be : List ℕ → Run (ℕ × List ℕ)
unfolding in_be
in_u16be bs = narrow 16 (in_be 2 bs)

unfoldable pub in_s16be : List ℕ → Run (ℤ × List ℕ)
unfolding signed in_u16be
in_s16be bs = signed 15 (in_u16be bs)

unfoldable pub in_u32le : List ℕ → Run (ℕ × List ℕ)
unfolding in_le
in_u32le bs = narrow 32 (in_le 4 bs)

unfoldable pub in_s32le : List ℕ → Run (ℤ × List ℕ)
unfolding signed in_u32le
in_s32le bs = signed 31 (in_u32le bs)

unfoldable pub in_u32be : List ℕ → Run (ℕ × List ℕ)
unfolding in_be
in_u32be bs = narrow 32 (in_be 4 bs)

unfoldable pub in_s32be : List ℕ → Run (ℤ × List ℕ)
unfolding signed in_u32be
in_s32be bs = signed 31 (in_u32be bs)

unfoldable pub in_u64le : List ℕ → Run (ℕ × List ℕ)
unfolding in_le
in_u64le bs = narrow 64 (in_le 8 bs)

unfoldable pub in_s64le : List ℕ → Run (ℤ × List ℕ)
unfolding signed in_u64le
in_s64le bs = signed 63 (in_u64le bs)

unfoldable pub in_u64be : List ℕ → Run (ℕ × List ℕ)
unfolding in_be
in_u64be bs = narrow 64 (in_be 8 bs)

unfoldable pub in_s64be : List ℕ → Run (ℤ × List ℕ)
unfolding signed in_u64be
in_s64be bs = signed 63 (in_u64be bs)
