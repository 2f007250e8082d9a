-- ===== src/Memory.antt =====
-- The sizes of buffers: gu/mem.c, where a pointer and a `size_t` have eight bytes. That malloc
-- gives the memory asked for is taken for granted.
pub mod Growth
pub mod Pool
pub mod Align
pub mod Region
pub mod Separate
mod Tests
use libpgf.Prelude.{
  ℕ, zero, suc, ◌+◌, ◌-◌, ◌*◌, ◌/◌, ◌%◌, ◌^◌, ltb, leb, if◌then◌else◌, Run, ok, stuck, ◌>>=◌,
}

abbrev pub size_max : ℕ
size_max = 18446744073709551615

-- `gu_mem_unit_size` and `gu_malloc_overhead`.
abbrev unit_size : ℕ
unit_size = 16

abbrev malloc_overhead : ℕ
malloc_overhead = 8

unfoldable pub padovan_loop : ℕ → ℕ → ℕ → ℕ → ℕ → Run ℕ
padovan_loop zero least a b c = stuck
padovan_loop (suc fuel) least a b c =
    let rest = padovan_loop fuel least b c ((a + b) % 18446744073709551616) in
    if ltb a least then (if ltb b a then ok size_max else rest) else ok a

-- Each round takes a greater number, so the number asked for is fuel enough.
unfoldable pub padovan : ℕ → Run ℕ
unfolding padovan_loop
padovan least = if leb least 5 then ok least else padovan_loop (suc least) least 7 9 12

-- The size of the slice that gu_mem_buf_realloc returns. A product or a sum wraps, and so does the
-- difference.
unfoldable pub buf_size : ℕ → Run ℕ
unfolding padovan
buf_size min_size =
    padovan ((min_size + malloc_overhead - 1) % 18446744073709551616 / unit_size + 1) >>= λ blocks.
    ok ((blocks * unit_size + (18446744073709551616 - malloc_overhead)) % 18446744073709551616)
