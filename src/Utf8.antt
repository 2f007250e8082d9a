-- ===== src/Utf8.antt =====
-- UTF-8 coding of code points: gu/utf8.c, with gu_ucs_valid of gu/ucs.h.
-- A `uint8_t` buffer is the list of its bytes; a pointer into it is the list from there on. A
-- `GuUCS` is the pattern of its 32 bits, so that a negative value is one from 2 ^ 31 on.
pub mod Reference
pub mod Scalar
pub mod Encode
pub mod Decode
mod Tests
use libpgf.Prelude.{
  ℕ, zero, suc, ◌+◌, ◌-◌, ◌*◌, ◌/◌, ◌%◌, ◌^◌, min, bit_and, bit_or, Bool, ◌&&◌, ◌||◌, not,
}
use libpgf.Prelude.{List, [], ◌∷◌, ◌++◌, length, ltb, leb, ◌==◌, if◌then◌else◌}
use libpgf.Prelude.{Run, ok, raised, abort, fault, stuck, ◌>>=◌, ◌>>◌, require}

abbrev pub ucs_max : ℕ
ucs_max = 0x10ffff

-- `u < 0` on the signed 32 bits.
abbrev pub is_negative : ℕ → Bool
is_negative u = leb 0x80000000 u

-- `ucs >= 0 && ucs <= GU_UCS_MAX`
unfoldable pub ucs_valid : ℕ → Bool
ucs_valid u = not (is_negative u) && leb u ucs_max

-- `u < k` for a constant k that is not negative.
abbrev ucs_lt : ℕ → ℕ → Bool
ucs_lt u k = is_negative u || ltb u k

-- How many bytes follow the first byte `c`.
abbrev pub trail_length : ℕ → ℕ
trail_length c = if ltb c 0xe0 then 1 else if ltb c 0xf0 then 2 else 3

-- The bits of the first byte that belong to the code point.
abbrev pub lead_bits : ℕ → ℕ → ℕ
lead_bits c len = bit_and c (0x070f1f7f / 2 ^ (len * 8))

-- `for (i = 1; i <= len; i++) { c = src[i]; u = u << 6 | (c & 0x3f); }`. At most 5 bits are
-- shifted once, 4 twice or 3 three times, so that no 32-bit value is exceeded.
pub trail_loop : ℕ → List ℕ → ℕ → Run ℕ
trail_loop zero src u = ok u
trail_loop (suc n) [] u = fault
trail_loop (suc n) (c ∷ src) u = trail_loop n src (bit_or (u * 2 ^ 6) (bit_and c 0x3f))

-- The code point with the number of bytes read.
pub decode_one_unsafe : List ℕ → Run (ℕ × ℕ)
unfolding trail_loop
decode_one_unsafe [] = fault
decode_one_unsafe (c ∷ src) = if ltb c 0x80 then ok (c, 1) else (do
  u ← trail_loop (trail_length c) src (lead_bits c (trail_length c))
  ok (u, trail_length c + 1))

pub decode_one : List ℕ → Run (ℕ × ℕ)
unfolding trail_loop ucs_valid
decode_one [] = fault
decode_one (c ∷ src) =
    if ltb c 0x80 then ok (c, 1) else if ltb c 0xc2 || ltb 0xf4 c then raised else (do
      u ← trail_loop (trail_length c) src (lead_bits c (trail_length c))
      if ucs_valid u then ok (u, trail_length c + 1) else raised)

unfoldable pub encode_length : ℕ → ℕ
encode_length u =
    if ucs_lt u 0x80 then 1 else if ucs_lt u 0x800 then 2 else if ucs_lt u 0x10000 then 3 else 4

-- `for (i = n; i > 0; i--) { buf[i] = 0x80 | (uint8_t)(ucs & 0x3f); ucs >>= 6; }`, with what is
-- left of `ucs` and the bytes from `buf[1]` on.
pub trail_bytes : ℕ → ℕ → List ℕ → ℕ × List ℕ
trail_bytes zero u buf = (u, buf)
trail_bytes (suc n) u buf = trail_bytes n (u / 2 ^ 6) (bit_or 0x80 (bit_and u 0x3f % 2 ^ 8) ∷ buf)

-- `(uint8_t) (ucs | ~(0x7f >> n))`
abbrev pub lead_byte : ℕ → ℕ → ℕ
lead_byte u n = bit_or u (2 ^ 32 - 1 - 0x7f / 2 ^ n) % 2 ^ 8

-- The bytes written to `buf`; the C function returns how many.
pub encode_one_unsafe : ℕ → Run (List ℕ)
unfolding trail_bytes ucs_valid
encode_one_unsafe u =
    require (ucs_valid u)
    >> (if ltb u 0x80
        then ok ((u % 2 ^ 8) ∷ [])
        else (let n = if ltb u 0x800 then 1 else if ltb u 0x10000 then 2 else 3 in
            let (rest, buf) = trail_bytes n u [] in ok (lead_byte rest n ∷ buf)))
