-- ===== src/Utf8/Tests.antt =====
-- Runs of the coder, and its theorems at concrete inputs.
use libpgf.Prelude.{
  ℕ, ◌+◌, ◌*◌, ◌%◌, ◌≤◌, ◌≡◌, refl, arith, List, [], ◌∷◌, ◌++◌, length, ok, raised,
}
use libpgf.Utf8.{encode_one_unsafe, decode_one}
use libpgf.Utf8.Reference.{IsUcs, utf8}
use libpgf.Utf8.Scalar.{encode_one-utf8, decode_one-utf8, decode_one_bounds, decode_three}
use libpgf.Utf8.Encode.{Encoding, encode, Fills, encode-Fills, utf8_text}
use libpgf.Utf8.Decode.{decode_unsafe, decode_unsafe-text}

euro : encode_one_unsafe 0x20ac ≡ ok (0xe2 ∷ 0x82 ∷ 0xac ∷ [])
unfolding encode_one_unsafe
euro = refl

euro_back : decode_one (0xe2 ∷ 0x82 ∷ 0xac ∷ []) ≡ ok (0x20ac, 3)
unfolding decode_one
euro_back = refl

lone_trail_byte : decode_one (0x80 ∷ []) ≡ raised
unfolding decode_one
lone_trail_byte = refl

encode_one-utf8_example : encode_one_unsafe 0x20ac ≡ ok (utf8 0x20ac)
encode_one-utf8_example = encode_one-utf8 0x20ac (omega arith)

decode_one-utf8_example : decode_one (utf8 0x1f600 ++ 7 ∷ []) ≡ ok (0x1f600, length (utf8 0x1f600))
decode_one-utf8_example = decode_one-utf8 0x1f600 (7 ∷ []) (omega arith)

decode_one_bounds_example : IsUcs 0x20ac × (1 ≤ 3) × (3 ≤ 4) × (3 ≤ 3)
decode_one_bounds_example = decode_one_bounds (0xe2 ∷ 0x82 ∷ 0xac ∷ []) 0x20ac 3 euro_back

-- The byte 0x41 stands where a continuation byte should.
decode_three_example :
    decode_one (0xe2 ∷ 0x41 ∷ 0x41 ∷ []) ≡ ok ((2 * 64 + 0x41 % 64) * 64 + 0x41 % 64, 3)
decode_three_example = decode_three 2 0x41 0x41 [] (omega arith)

abbrev text : List ℕ
text = 0x41 ∷ 0x20ac ∷ 0x1f600 ∷ []

abbrev small_buffer : Encoding
small_buffer = record { src = text; out = []; room = 6 }

encode-Fills_example : (t : Encoding) × (encode small_buffer ≡ ok t) × Fills small_buffer t
encode-Fills_example = encode-Fills small_buffer (omega arith)

decode_unsafe-text_example :
    decode_unsafe (record { src = utf8_text text; out = []; room = 2 })
    ≡ ok (record { src = utf8_text (0x1f600 ∷ []); out = 0x41 ∷ 0x20ac ∷ []; room = 0 })
decode_unsafe-text_example = decode_unsafe-text text [] 2 (omega arith)
