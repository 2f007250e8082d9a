-- ===== src/Memory/Pool.antt =====
-- The pools of gu/mem.c, with the alignment of gu/bits.h and gu/bits.c. An address is the number of
-- a block and an offset in it: block 0 is that of the pool itself, and each later one has the next
-- number. Every block is aligned for any type, as malloc promises.
use libpgf.Prelude.{
  ℕ, suc, ◌+◌, ◌-◌, ◌/◌, ◌%◌, min, max, bit_and, bit_or, ◌&&◌, ltb, leb, ◌==◌, if◌then◌else◌, List,
  [], ◌∷◌, length, Run, ok, ◌>>=◌, ◌>>◌, require,
}
use libpgf.Memory.{buf_size}

-- A sum in a `size_t`.
abbrev pub plus : ℕ → ℕ → ℕ
plus a b = (a + b) % 18446744073709551616

-- On an unsigned of 32 bits; `u >> k` is a quotient.
unfoldable pub ceil2e : ℕ → ℕ
ceil2e u =
    let a = (u + 4294967295) % 4294967296 in
    let b = bit_or a (a / 2) in
    let c = bit_or b (b / 4) in
    let d = bit_or c (c / 16) in
    let e = bit_or d (d / 256) in let f = bit_or e (e / 65536) in (f + 1) % 4294967296

-- `u = (c = u & mask) ? c : u`
abbrev keep_low : ℕ → ℕ → ℕ
keep_low u mask = if bit_and u mask == 0 then u else bit_and u mask

unfoldable pub lowest_set_bit : ℕ → ℕ
lowest_set_bit u =
    keep_low
      (keep_low
        (keep_low
          (keep_low (keep_low (keep_low u 0x00000000ffffffff) 0x0000ffff0000ffff)
            0x00ff00ff00ff00ff)
          0x0f0f0f0f0f0f0f0f)
        0x3333333333333333)
      0x5555555555555555

-- `x & ~mask` takes off the bits of `x & mask`.
unfoldable pub align_forward : ℕ → ℕ → Run ℕ
unfolding ceil2e
align_forward addr alignment = do
  require (alignment == ceil2e alignment)
  (let x = plus addr (alignment - 1) in ok (x - bit_and x (alignment - 1)))

unfoldable pub mem_advance : ℕ → ℕ → ℕ → ℕ → ℕ → Run ℕ
unfolding align_forward
mem_advance old_pos pre_align pre_size align size = align_forward old_pos pre_align >>= λ p.
    align_forward (plus p pre_size) align >>= λ q. ok (plus q size)

-- A chunk, by its number and its size.
pub record Chunk : Type 0 where
  pub number : ℕ
  pub size : ℕ

pub record Address : Type 0 where
  pub block : ℕ
  pub offset : ℕ

-- `curr` is the number of the block that `curr_buf` points to.
pub record Pool : Type 0 where
  pub curr : ℕ
  pub chunks : List Chunk
  pub left_edge : ℕ
  pub right_edge : ℕ
  pub curr_size : ℕ

abbrev max_align : ℕ
max_align = 16

abbrev chunk_max_size : ℕ
chunk_max_size = 8192

abbrev pub max_shared_alloc : ℕ
max_shared_alloc = 512

-- `offsetof(GuMemChunk, data)`, which is the size of the structure too.
abbrev pub chunk_data : ℕ
chunk_data = 8

-- `offsetof(GuPool, init_buf)`.
abbrev pub pool_data : ℕ
pool_data = 32

abbrev next_number : Pool → ℕ
next_number p = suc (length p.chunks)

-- The edges are kept in 16 bits.
abbrev pub init_pool : ℕ → Run Pool
init_pool sz = do
  require (leb pool_data sz)
  ok (record {
    curr = 0;
    chunks = [];
    left_edge = pool_data;
    right_edge = sz % 65536;
    curr_size = sz % 65536;
  })

unfoldable pub new_pool : Run Pool
unfolding buf_size
new_pool = buf_size (pool_data + 192) >>= init_pool

unfoldable pub pool_expand : Pool → ℕ → Run Pool
pool_expand p req = do
  require (leb chunk_data (max req (min (p.curr_size + 1) chunk_max_size)))
  sz ← buf_size (max req (min (p.curr_size + 1) chunk_max_size))
  require (sz % 65536 == sz)
  ok (record {
    curr = next_number p;
    chunks = record { number = next_number p; size = sz } ∷ p.chunks;
    left_edge = chunk_data;
    right_edge = sz % 65536;
    curr_size = sz % 65536;
  })

-- The memory from the left edge to `pos`, of which the last `size` bytes are returned.
abbrev pub take_left : Pool → ℕ → ℕ → Pool × Address
take_left p pos size =
    (record p { left_edge = pos % 65536 }, record { block = p.curr; offset = pos - size })

unfoldable pub pool_malloc_aligned : Pool → ℕ → ℕ → ℕ → ℕ → Run (Pool × Address)
unfolding mem_advance pool_expand
pool_malloc_aligned p pre_align pre_size align size = do
  require (leb size max_shared_alloc)
  pos ← mem_advance p.left_edge pre_align pre_size align size
  (if ltb p.right_edge pos
      then (do
        pos' ← mem_advance chunk_data pre_align pre_size align size
        p' ← pool_expand p pos'
        require (leb pos' p'.right_edge)
        ok (take_left p' pos' size))
      else ok (take_left p pos size))

abbrev pub pool_avail : Pool → ℕ
pool_avail p = (p.right_edge + 18446744073709551616 - p.left_edge) % 18446744073709551616

abbrev pub take_right : Pool → ℕ → Pool × Address
take_right p size = (
  record p { right_edge = p.right_edge - size },
  record { block = p.curr; offset = p.right_edge - size },
)

unfoldable pub pool_malloc_unaligned : Pool → ℕ → Run (Pool × Address)
unfolding pool_expand
pool_malloc_unaligned p size =
    if ltb (pool_avail p) size
    then (do
      p' ← pool_expand p (plus chunk_data size)
      require (leb size (pool_avail p'))
      ok (take_right p' size))
    else ok (take_right p size)

abbrev pub or_max_align : ℕ → ℕ
or_max_align align = if align == 0 then max_align else align

-- A block of its own, which stays out of the current one.
abbrev pub own_chunk : Pool → ℕ → ℕ → Pool × Address
own_chunk p full_size size = (
  record p { chunks = record { number = next_number p; size = full_size } ∷ p.chunks },
  record { block = next_number p; offset = full_size - size },
)

-- The kind of an allocation depends on its full size and on its alignments, 0 being the greatest.
unfoldable pub malloc_prefixed : Pool → ℕ → ℕ → ℕ → ℕ → Run (Pool × Address)
unfolding mem_advance pool_malloc_aligned pool_malloc_unaligned
malloc_prefixed p pre_align pre_size align size =
    let pre_align' = or_max_align pre_align in
    let align' = or_max_align align in
    mem_advance chunk_data pre_align' pre_size align' size >>= λ full_size.
    if ltb max_shared_alloc full_size
    then ok (own_chunk p full_size size)
    else if pre_align' == 1 && align' == 1
    then (pool_malloc_unaligned p (plus pre_size size) >>= λ r.
        ok (r.0, record r.1 { offset = r.1.offset + pre_size }))
    else pool_malloc_aligned p pre_align' pre_size align' size

unfoldable pub malloc_aligned : Pool → ℕ → ℕ → Run (Pool × Address)
unfolding malloc_prefixed lowest_set_bit
malloc_aligned p size align =
    malloc_prefixed p 1 0 (if align == 0 then min (lowest_set_bit size) max_align else align) size
