-- ===== src/Reader.antt =====
-- The numbers of the binary grammar format: pgf/reader.c.
pub mod Varint
mod Tests
use libpgf.Prelude.{
  ℕ, zero, suc, ◌+◌, ◌-◌, ◌*◌, ◌%◌, ◌^◌, bit_or, Bool, ltb, leb, if◌then◌else◌, List, [], ◌∷◌, Run,
  ok, raised, abort, ◌>>=◌,
}
use libpgf.Input.{ℤ, pos, negsuc, in_u8, decode_2c}

-- The loop of pgf_read_uint. `b & ~0x80` has the low seven bits of a byte, which the next sum of
-- bits takes in 32 bits. A shift by 32 or more is undefined:
-- `abort`. One beyond the sign bit of an `int` is taken to drop the bits above.
unfoldable pub read_uint_loop : List ℕ → ℕ → ℕ → Run (ℕ × List ℕ)
read_uint_loop [] shift u = raised
read_uint_loop (b ∷ bs) shift u =
    let u' = bit_or (b % 128 * 2 ^ shift % 4294967296) u in
    let rest = read_uint_loop bs (shift + 7) u' in
    if ltb shift 32 then (if ltb b 128 then ok (u', bs) else rest) else abort

unfoldable pub read_uint : List ℕ → Run (ℕ × List ℕ)
unfolding read_uint_loop
read_uint bs = read_uint_loop bs 0 0

unfoldable pub read_int : List ℕ → Run (ℤ × List ℕ)
unfolding read_uint decode_2c
read_int bs = read_uint bs >>= λ r. decode_2c 31 r.0 >>= λ z. ok (z, r.1)

-- A negative length raises the exception `PgfReadTagExn`.
unfoldable pub read_len : List ℕ → Run (ℕ × List ℕ)
unfolding read_int
read_len bs = read_int bs >>= λ r. elim (r.0) [ pos n ↦ ok (n, r.1) | negsuc n ↦ raised ]
