-- ===== src/Reader/Tests.antt =====
-- Runs of the functions of pgf/reader.c.
use libpgf.Prelude.{◌≡◌, refl, arith, [], ◌∷◌, ◌++◌, ok, abort}
use libpgf.Input.{negsuc}
use libpgf.Input.Signed.{twos}
use libpgf.Reader.{read_uint, read_int}
use libpgf.Reader.Varint.{groups, read_uint-groups, read_int-groups}

three_hundred : read_uint (172 ∷ 2 ∷ 5 ∷ []) ≡ ok (300, 5 ∷ [])
unfolding read_uint
three_hundred = refl

too_long : read_uint (128 ∷ 128 ∷ 128 ∷ 128 ∷ 128 ∷ 0 ∷ []) ≡ abort
unfolding read_uint
too_long = refl

read_uint-groups_example : read_uint (groups 4 4000000000 ++ 1 ∷ []) ≡ ok (4000000000, 1 ∷ [])
read_uint-groups_example = read_uint-groups 4000000000 (1 ∷ []) (omega arith)

read_int-groups_example : read_int (groups 4 (twos 31 (negsuc 6)) ++ []) ≡ ok (negsuc 6, [])
read_int-groups_example = read_int-groups (negsuc 6) [] (omega arith)
