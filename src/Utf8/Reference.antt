-- ===== src/Utf8/Reference.antt =====
-- UTF-8 by division, as the standard tables give it, for the bit operations of gu/utf8.c.
use libpgf.Prelude.{ℕ, ◌+◌, ◌/◌, ◌%◌, ◌≤◌, List, [], ◌∷◌, ltb, if◌then◌else◌}

-- A code point of Unicode.
abbrev pub IsUcs : ℕ → Type 0
IsUcs u = u ≤ 0x10ffff

unfoldable pub utf8 : ℕ → List ℕ
utf8 u =
    if ltb u 0x80
    then u ∷ []
    else if ltb u 0x800
    then (0xc0 + u / 64) ∷ (0x80 + u % 64) ∷ []
    else if ltb u 0x10000
    then (0xe0 + u / 4096) ∷ (0x80 + u / 64 % 64) ∷ (0x80 + u % 64) ∷ []
    else (0xf0 + u / 262144) ∷ (0x80 + u / 4096 % 64) ∷ (0x80 + u / 64 % 64) ∷ (0x80 + u % 64) ∷ []
