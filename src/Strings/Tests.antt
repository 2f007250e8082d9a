-- ===== src/Strings/Tests.antt =====
-- Runs of the functions of gu/string.c.
use libpgf.Prelude.{List, ℕ, ◌≡◌, refl, arith, [], ◌∷◌, replicate, ok}
use libpgf.Strings.{GuString, short, long, utf8_string, string_open}
use libpgf.Strings.Packed.{string_open-utf8_string}

packed : utf8_string (97 ∷ 98 ∷ []) ≡ ok (short 6382085)
unfolding utf8_string
packed = refl

apart :
    utf8_string (1 ∷ 2 ∷ 3 ∷ 4 ∷ 5 ∷ 6 ∷ 7 ∷ 8 ∷ [])
    ≡ ok (long 0 8 (1 ∷ 2 ∷ 3 ∷ 4 ∷ 5 ∷ 6 ∷ 7 ∷ 8 ∷ []))
unfolding utf8_string
apart = refl

string_open-utf8_string_example :
    (s : GuString) × (utf8_string (255 ∷ 0 ∷ 98 ∷ []) ≡ ok s) × (string_open s ≡ 255 ∷ 0 ∷ 98 ∷ [])
string_open-utf8_string_example =
    string_open-utf8_string (255 ∷ 0 ∷ 98 ∷ []) (omega arith, (omega arith, (omega arith, tt)))
      (omega arith)

-- A string of 300 times the letter a.
abbrev many : List ℕ
many = replicate 300 97
