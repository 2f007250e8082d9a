-- ===== src/Memory/Tests.antt =====
-- Runs of the functions of gu/mem.c.
use libpgf.Prelude.{Run, [], ◌%◌, ◌>>=◌, ℕ, ◌+◌, ◌*◌, ◌≤◌, ◌≡◌, refl, ok, arith}
use libpgf.Memory.{padovan, buf_size}
use libpgf.Memory.Pool.{
  Pool, Address, new_pool, malloc_prefixed, malloc_aligned, or_max_align, lowest_set_bit, ceil2e,
}
use libpgf.Memory.Region.{IsPool, Given, size_of}
use libpgf.Memory.Separate.{malloc_prefixed-Given}
use libpgf.Memory.Growth.{buf_size-bounds}

grown : padovan 29 ≡ ok 37
unfolding padovan
grown = refl

one_block : buf_size 8 ≡ ok 8
unfolding buf_size
one_block = refl

buf_size-bounds_example : (s : ℕ) × (buf_size 100 ≡ ok s) × (100 ≤ s) × (s ≤ 2 * 100 + 38)
buf_size-bounds_example = buf_size-bounds 100 (omega arith)

lowest : lowest_set_bit 24 ≡ 8
unfolding lowest_set_bit
lowest = refl

above : ceil2e 17 ≡ 32
unfolding ceil2e
above = refl

-- A new pool, from whose 248 bytes nothing was taken.
abbrev fresh : Pool
fresh = record { curr = 0; chunks = []; left_edge = 32; right_edge = 248; curr_size = 248 }

fresh_pool : new_pool ≡ ok fresh
unfolding new_pool
fresh_pool = refl

-- An object of 24 bytes, then one of 5 bytes without alignment.
two : Run (Address × Address)
unfolding malloc_aligned
two = malloc_aligned fresh 24 0 >>= λ r. malloc_prefixed r.0 1 0 1 5 >>= λ s. ok (r.1, s.1)

two_objects : two ≡ ok (record { block = 0; offset = 32 }, record { block = 0; offset = 243 })
unfolding two
two_objects = refl

fresh-IsPool : IsPool 248 fresh []
unfolding size_of
fresh-IsPool = record {
  edges = (omega arith, omega arith);
  size = (omega arith, omega arith);
  known = omega arith;
  allocated = omega arith;
  kept = tt;
}

malloc_prefixed-Given_example :
    (p' : Pool) × (a : Address) × (malloc_prefixed fresh 8 16 0 100 ≡ ok (p', a))
    × (a.offset % or_max_align 0 ≡ 0)
    × Given 248 [] p' a 16 100
malloc_prefixed-Given_example =
    malloc_prefixed-Given 248 fresh [] 8 16 0 100 fresh-IsPool (3, omega arith, refl)
      (4, omega arith, refl) (omega arith)
