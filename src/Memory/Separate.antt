-- ===== src/Memory/Separate.antt =====
-- What gu_malloc_prefixed of gu/mem.c hands out of a pool.
use libpgf.Prelude.{
  ℕ, ◌+◌, ◌-◌, ◌%◌, ◌≤◌, ◌<◌, ◌≡◌, inl, inr, refl, ap, ◌∙◌, arith, true, false, ◌&&◌, ltb, leb,
  ◌==◌, Bool-cases, ltb→le, List, ok,
}
use native.Mathlib.Nat.{mod-eq_of_lt}
use mathlib.Core.Path.{subst}
use libpgf.Memory.Align.{IsAlign, mem_advance-bounds}
use libpgf.Memory.Pool.{
  Pool, Address, pool_expand, pool_malloc_aligned, pool_malloc_unaligned, pool_avail,
  malloc_prefixed, mem_advance, or_max_align, own_chunk, take_left, take_right,
}
use libpgf.Memory.Region.{Region, IsPool, Given, expand-IsPool, left-Given, right-Given, own-Given}

avail-room :
    (p : Pool)
    → p.left_edge ≤ p.right_edge
    → p.right_edge < 65536
    → pool_avail p ≡ p.right_edge - p.left_edge
avail-room p le small = omega (arith, le, small)

fits_avail :
    (p : Pool) (t : ℕ)
    → p.left_edge ≤ p.right_edge
    → t ≤ p.right_edge - p.left_edge
    → p.right_edge < 65536
    → t ≤ pool_avail p
fits_avail p t le fits small = rw (avail-room p le small) fits

avail_fits :
    (p : Pool) (t : ℕ)
    → p.left_edge ≤ p.right_edge
    → t ≤ pool_avail p
    → p.right_edge < 65536
    → t ≤ p.right_edge - p.left_edge
avail_fits p t le fits small = subst (λ n. t ≤ n) (avail-room p le small) fits

unaligned_here :
    (p : Pool) (t : ℕ)
    → ltb (pool_avail p) t ≡ false
    → pool_malloc_unaligned p t ≡ ok (take_right p t)
unfolding pool_malloc_unaligned
unaligned_here p t e = rw e refl

unaligned_fresh :
    (p p' : Pool) (t : ℕ)
    → ltb (pool_avail p) t ≡ true
    → 8 + t < 18446744073709551616
    → pool_expand p (8 + t) ≡ ok p'
    → t ≤ pool_avail p'
    → pool_malloc_unaligned p t ≡ ok (take_right p' t)
unfolding pool_malloc_unaligned
unaligned_fresh p p' t short small e room =
    let enough : leb t (pool_avail p') ≡ true = ground (arith, room) in
    rw (short, mod-eq_of_lt small, e, enough) refl

-- A pool gives what fits its room, or makes a new block.
unaligned-Given :
    (own : ℕ) (p : Pool) (rs : List Region) (pre_size size : ℕ)
    → IsPool own p rs
    → 8 + (pre_size + size) ≤ 512
    → (p' : Pool) × (a : Address) × (pool_malloc_unaligned p (pre_size + size) ≡ ok (p', a))
      × Given own rs p' (record a { offset = a.offset + pre_size }) pre_size size
unaligned-Given own p rs pre_size size w small = elim (Bool-cases (ltb (pool_avail p) t)) [
  | inl short ↦
      let (p', e, w', left, room) = expand-IsPool own p rs (8 + t) w (omega (arith, small)) in
      let room' : t ≤ p'.right_edge - p'.left_edge = omega (arith, room, left) in
      (
        (take_right p' t).0,
        (take_right p' t).1,
        unaligned_fresh p p' t short (omega (arith, small)) e
            (fits_avail p' t w'.edges.1 room' (omega (arith, w'.size))),
        right-Given own p' rs pre_size size w' room',
      )
  | inr enough ↦ (
    (take_right p t).0,
    (take_right p t).1,
    unaligned_here p t enough,
    right-Given own p rs pre_size size w
        (avail_fits p t w.edges.1 (ltb→le (pool_avail p) t enough) (omega (arith, w.size))),
  )
]
  where
    t : ℕ
    t = pre_size + size

aligned_here :
    (p : Pool) (a n b size pos : ℕ)
    → size ≤ 512
    → mem_advance p.left_edge a n b size ≡ ok pos
    → ltb p.right_edge pos ≡ false
    → pool_malloc_aligned p a n b size ≡ ok (take_left p pos size)
unfolding pool_malloc_aligned
aligned_here p a n b size pos small e fits =
    let allowed : leb size 512 ≡ true = ground (arith, small) in rw (allowed, e, fits) refl

aligned_fresh :
    (p p' : Pool) (a n b size pos pos' : ℕ)
    → size ≤ 512
    → mem_advance p.left_edge a n b size ≡ ok pos
    → ltb p.right_edge pos ≡ true
    → mem_advance 8 a n b size ≡ ok pos'
    → pool_expand p pos' ≡ ok p'
    → pos' ≤ p'.right_edge
    → pool_malloc_aligned p a n b size ≡ ok (take_left p' pos' size)
unfolding pool_malloc_aligned
aligned_fresh p p' a n b size pos pos' small e full e' e'' room =
    let allowed : leb size 512 ≡ true = ground (arith, small) in
    let enough : leb pos' p'.right_edge ≡ true = ground (arith, room) in
    rw (allowed, e, full, e', e'', enough) refl

aligned-Given :
    (own : ℕ) (p : Pool) (rs : List Region) (a pre_size b size q : ℕ)
    → IsPool own p rs
    → IsAlign a
    → IsAlign b
    → mem_advance 8 a pre_size b size ≡ ok (q + size)
    → 8 + pre_size ≤ q
    → q % b ≡ 0
    → q + size ≤ 512
    → (p' : Pool) × (addr : Address) × (pool_malloc_aligned p a pre_size b size ≡ ok (p', addr))
      × (addr.offset % b ≡ 0)
      × Given own rs p' addr pre_size size
aligned-Given own p rs a pre_size b size q w ia ib e lo exact small =
    let (q', e', lo', up', exact') =
      mem_advance-bounds p.left_edge a pre_size b size ia ib (omega (arith, w.edges, w.size))
        (omega (arith, lo, small)) in
    elim (Bool-cases (ltb p.right_edge (q' + size))) [
      | inl full ↦
          let (p', e'', w', left, room) =
            expand-IsPool own p rs (q + size) w (omega (arith, small)) in
          (
            (take_left p' (q + size) size).0,
            (take_left p' (q + size) size).1,
            aligned_fresh p p' a pre_size b size (q' + size) (q + size) (omega (arith, small)) e'
                full e e'' room,
            ap (λ n. n % b) {x = q + size - size} {y = q} (omega arith) ∙ exact,
            left-Given own p' rs q pre_size size w' (omega (arith, left, lo)) room,
          )
      | inr fits ↦ (
        (take_left p (q' + size) size).0,
        (take_left p (q' + size) size).1,
        aligned_here p a pre_size b size (q' + size) (omega (arith, small)) e' fits,
        ap (λ n. n % b) {x = q' + size - size} {y = q'} (omega arith) ∙ exact',
        left-Given own p rs q' pre_size size w lo' (ltb→le p.right_edge (q' + size) fits),
      )
    ]

module _ (p : Pool) (pre_align pre_size align size full_size : ℕ)
    (e : mem_advance 8 (or_max_align pre_align) pre_size (or_max_align align) size
      ≡ ok full_size) where
  own_run :
      ltb 512 full_size ≡ true
      → malloc_prefixed p pre_align pre_size align size ≡ ok (own_chunk p full_size size)
  unfolding malloc_prefixed
  own_run large = rw (e, large) refl

  bytes_run :
      (p' : Pool) (a : Address)
      → ltb 512 full_size ≡ false
      → (or_max_align pre_align == 1 && or_max_align align == 1) ≡ true
      → pre_size + size < 18446744073709551616
      → pool_malloc_unaligned p (pre_size + size) ≡ ok (p', a)
      → malloc_prefixed p pre_align pre_size align size
        ≡ ok (p', record a { offset = a.offset + pre_size })
  unfolding malloc_prefixed
  bytes_run p' a small bytes hi run = rw (e, small, bytes, mod-eq_of_lt hi, run) refl

  other_run :
      (r : Pool × Address)
      → ltb 512 full_size ≡ false
      → (or_max_align pre_align == 1 && or_max_align align == 1) ≡ false
      → pool_malloc_aligned p (or_max_align pre_align) pre_size (or_max_align align) size ≡ ok r
      → malloc_prefixed p pre_align pre_size align size ≡ ok r
  unfolding malloc_prefixed
  other_run r small other run = rw (run, e, small, other) refl

byte_aligned : (n a b : ℕ) → (a == 1 && b == 1) ≡ true → n % b ≡ 0
byte_aligned n a b bytes =
    let one : b ≡ 1 = ground (arith, bytes) in ap (λ m. n % m) one ∙ omega arith

-- For alignments that are powers of two up to 16, or 0 for the greatest, and sizes below 2^60 in
-- all, gu_malloc_prefixed on a pool that is `IsPool` ends and none of its assertions fails, also
-- none about the 16 bits of the edges. The object is aligned and has the room asked for in front of
-- it; both lie inside what was allocated for their block, and overlap nothing that was handed out
-- before; and the pool is `IsPool` again.
pub malloc_prefixed-Given :
    (own : ℕ) (p : Pool) (rs : List Region) (pre_align pre_size align size : ℕ)
    → IsPool own p rs
    → IsAlign (or_max_align pre_align)
    → IsAlign (or_max_align align)
    → pre_size + size < 1152921504606846976
    → (p' : Pool) × (a : Address) × (malloc_prefixed p pre_align pre_size align size ≡ ok (p', a))
      × (a.offset % or_max_align align ≡ 0)
      × Given own rs p' a pre_size size
malloc_prefixed-Given own p rs pre_align pre_size align size w ia ib hi =
    let a = or_max_align pre_align in
    let b = or_max_align align in
    let (q, e, lo, up, exact) = mem_advance-bounds 8 a pre_size b size ia ib (omega arith) hi in
    elim (Bool-cases (ltb 512 (q + size))) [
      | inl large ↦ (
        (own_chunk p (q + size) size).0,
        (own_chunk p (q + size) size).1,
        own_run p pre_align pre_size align size (q + size) e large,
        ap (λ n. n % b) {x = q + size - size} {y = q} (omega arith) ∙ exact,
        own-Given own p rs q pre_size size w lo,
      )
      | inr small ↦ elim (Bool-cases (a == 1 && b == 1)) [
        | inl bytes ↦
            let (p', addr, run, given) =
              unaligned-Given own p rs pre_size size w
                (omega (arith, lo, ltb→le 512 (q + size) small)) in
            (
              p',
              record addr { offset = addr.offset + pre_size },
              bytes_run p pre_align pre_size align size (q + size) e p' addr small bytes
                  (omega (arith, hi)) run,
              byte_aligned (addr.offset + pre_size) a b bytes,
              given,
            )
        | inr other ↦
            let (p', addr, run, exact', given) =
              aligned-Given own p rs a pre_size b size q w ia ib e lo exact
                (ltb→le 512 (q + size) small) in
            (
              p',
              addr,
              other_run p pre_align pre_size align size (q + size) e (p', addr) small other run,
              exact',
              given,
            )
      ]
    ]
