-- ===== src/Strings.antt =====
-- The representation of strings: gu/string.c. A word has eight bytes.
pub mod Packed
mod Tests
use libpgf.Prelude.{
  ℕ, zero, suc, ◌+◌, ◌-◌, ◌*◌, ◌/◌, ◌%◌, ◌^◌, bit_and, bit_or, ltb, ◌==◌, if◌then◌else◌, List, [],
  ◌∷◌, ◌++◌, length, take, Run, ok, fault,
}
use libpgf.Input.{be_loop}

-- The null pointer, a string packed in a word, or a pointer to memory: its first byte, the bytes
-- behind it, and the `size_t` in front of it.
pub data GuString : Type 0 where
  null_string : GuString
  short : (w : ℕ) → GuString
  long : (before first : ℕ) (bytes : List ℕ) → GuString

-- `w << 8 | (buf.sz << 1) | 1` for the bytes of `buf` in `w`, whose loop is that of gu_in_be.
unfoldable pub pack : List ℕ → ℕ
unfolding be_loop
pack buf = bit_or (bit_or (be_loop buf 0 * 2 ^ 8 % 18446744073709551616) (length buf * 2)) 1

-- A `p` of the function: NULL, or memory, by its first byte and the `size_t` in front of it.
pub data Pointer : Type 0 where
  null_pointer : Pointer
  memory : (before first : ℕ) → Pointer

-- The `p` of the function, and that of the inner block, which has the same name.
pub record Pointers : Type 0 where
  pub outer : Pointer
  pub inner : Pointer

-- What the two are behind the `if`, for a string of `sz` bytes.
unfoldable pub pointers : ℕ → Pointers
pointers sz =
    if ltb sz 256
    then record { outer = memory 0 (sz % 256); inner = null_pointer }
    else record { outer = null_pointer; inner = memory sz 0 }

-- The `memcpy` to `&p[1]`, and the string at `p`.
unfoldable pub copy_to : Pointer → List ℕ → Run GuString
copy_to null_pointer buf = fault
copy_to (memory before first) buf = ok (long before first buf)

unfoldable pub utf8_string : List ℕ → Run GuString
unfolding pack pointers copy_to
utf8_string buf =
    if ltb (length buf) 8 then ok (short (pack buf)) else copy_to (pointers (length buf)).outer buf

-- `w >>= 8; p[i] = w & 0xff`, from the last byte to the first.
unfoldable pub unpack : ℕ → ℕ → List ℕ
unpack zero w = []
unpack (suc i) w = unpack i (w / 256) ++ bit_and (w / 256) 255 ∷ []

unfoldable pub string_open : GuString → List ℕ
unfolding unpack
string_open null_string = []
string_open (short w) = unpack (bit_and w 255 / 2) w
string_open (long before first bytes) = take (if first == 0 then before else first) bytes
