-- ===== src/Memory/Region.antt =====
-- What a pool of gu/mem.c has handed out, at its left edge, at its right edge, or as a block.
use libpgf.Prelude.{
  ℕ, suc, ◌+◌, ◌-◌, ◌%◌, ◌≤◌, ◌<◌, ◌≡◌, ◌≢◌, ◌⊎◌, inl, inr, refl, sym, ◌∙◌, arith, true, false,
  if◌then◌else◌, leb, ◌==◌, ==_iff, Bool-cases, List, [], ◌∷◌, length, All, max, min, ok,
}
use native.Mathlib.Nat.{mod-eq_of_lt}
use libpgf.Memory.Growth.{buf_size-bounds}
use libpgf.Memory.Pool.{Pool, Chunk, Address, pool_expand, own_chunk, take_left, take_right}

-- A stretch of a block that was handed out.
pub record Region : Type 0 where
  pub block : ℕ
  pub from : ℕ
  pub to : ℕ

-- The object at an address, with what stands in front of it.
abbrev pub region : Address → ℕ → ℕ → Region
region a pre_size size = record {
  block = a.block;
  from = a.offset - pre_size;
  to = a.offset + size;
}

-- They do not overlap.
abbrev pub Apart : Region → Region → Type 0
Apart r s = (r.block ≢ s.block) ⊎ ((r.to ≤ s.from) ⊎ (s.to ≤ r.from))

-- The size that was allocated for a block: `own` for that of the pool itself, and for a chunk what
-- malloc was asked for.
unfoldable pub size_of : ℕ → List Chunk → ℕ → ℕ
size_of own [] b = own
size_of own (c ∷ chunks) b = if c.number == b then c.size else size_of own chunks b

-- A region ends inside its block, which is there, and is outside the room that is left.
abbrev pub Kept : ℕ → Pool → Region → Type 0
Kept own p r =
    (r.block ≤ length p.chunks)
    × ((r.block ≡ p.curr) → (r.to ≤ p.left_edge) ⊎ (p.right_edge ≤ r.from))
    × (r.to ≤ size_of own p.chunks r.block)

-- A pool, in a block of `own` bytes, out of which the regions were handed out. The right edge does not
-- lie behind what was allocated for the current block.
pub record IsPool (own : ℕ) (p : Pool) (rs : List Region) : Type 0 where
  pub edges : (8 ≤ p.left_edge) × (p.left_edge ≤ p.right_edge)
  pub size : (p.right_edge ≤ p.curr_size) × (p.curr_size < 65536)
  pub known : p.curr ≤ length p.chunks
  pub allocated : p.right_edge ≤ size_of own p.chunks p.curr
  pub kept : All (Kept own p) rs

pub map-All :
    {P Q : Region → Type 0} → (rs : List Region) → ((r : Region) → P r → Q r) → All P rs → All Q rs
map-All [] f h = h
map-All (r ∷ rs) f h = (f r h.0, map-All rs f h.1)

-- A chunk with a new number leaves the sizes of the others.
size_of-new :
    (own b n size : ℕ) (chunks : List Chunk)
    → b < n
    → size_of own (record { number = n; size = size } ∷ chunks) b ≡ size_of own chunks b
unfolding size_of
size_of-new own b n size chunks lt =
    let other : (n == b) ≡ false = ground (arith, lt) in rw other refl

size_of-first :
    (own n size : ℕ) (chunks : List Chunk)
    → size_of own (record { number = n; size = size } ∷ chunks) n ≡ size
unfolding size_of
size_of-first own n size chunks = rw ((==_iff n n).1 refl) refl

-- A new current block, of which nothing is handed out. Its size fits the 16 bits of the edges.
pub expand-IsPool :
    (own : ℕ) (p : Pool) (rs : List Region) (req : ℕ)
    → IsPool own p rs
    → req ≤ 8192
    → (p' : Pool) × (pool_expand p req ≡ ok p')
      × IsPool own p' rs
      × (p'.left_edge ≡ 8)
      × (req ≤ p'.right_edge)
unfolding pool_expand
expand-IsPool own p rs req w small =
    let n = max req (min (p.curr_size + 1) 8192) in
    let (sz, e, lo, up) = buf_size-bounds n (omega (arith, small)) in
    let wide : 8 ≤ n = omega (arith, w.edges, w.size) in
    let wide' : leb 8 n ≡ true = ground (arith, wide) in
    let fits : sz % 65536 ≡ sz = mod-eq_of_lt (omega (arith, up, small)) in
    (
      record {
        curr = suc (length p.chunks);
        chunks = record { number = suc (length p.chunks); size = sz } ∷ p.chunks;
        left_edge = 8;
        right_edge = sz % 65536;
        curr_size = sz % 65536;
      },
      rw (wide', e, (==_iff (sz % 65536) sz).1 fits) refl,
      record {
        edges = (omega arith, omega (arith, fits, lo, wide));
        size = (omega arith, omega (arith, fits, up, small));
        known = omega arith;
        allocated = omega (arith, fits, size_of-first own (suc (length p.chunks)) sz p.chunks);
        kept =
            map-All rs
              (λ r k. (
                omega (arith, k.0),
                λ e'. absurd (omega (arith, k.0, e')),
                omega (
                  arith,
                  k.2,
                  size_of-new own r.block (suc (length p.chunks)) sz p.chunks (omega (arith, k.0)),
                ),
              ))
              w.kept;
      },
      refl,
      omega (arith, fits, lo),
    )

-- What comes of an allocation: the new region is inside what was allocated for its block, behind the
-- link of a chunk, and overlaps no other.
abbrev pub Given : ℕ → List Region → Pool → Address → ℕ → ℕ → Type 0
Given own rs p' a pre_size size =
    IsPool own p' (region a pre_size size ∷ rs)
    × All (Apart (region a pre_size size)) rs
    × (8 + pre_size ≤ a.offset)
    × (a.offset + size ≤ size_of own p'.chunks a.block)

-- A region within the room that is left.
within-Apart :
    (own : ℕ) (p : Pool) (s r : Region)
    → s.block ≡ p.curr
    → p.left_edge ≤ s.from
    → s.to ≤ p.right_edge
    → Kept own p r
    → Apart s r
within-Apart own p s r here lo hi k = elim (Bool-cases (r.block == p.curr)) [
  | inl same ↦ elim (k.1 ((==_iff r.block p.curr).0 same)) [
    | inl low ↦ inr (inr (omega (arith, low, lo)))
    | inr high ↦ inr (inl (omega (arith, high, hi)))
  ]
  | inr other ↦ inl (λ e. absurd (cc (other, (==_iff r.block p.curr).1 (sym e ∙ here))))
]

pub left-Given :
    (own : ℕ) (p : Pool) (rs : List Region) (q pre_size size : ℕ)
    → IsPool own p rs
    → p.left_edge + pre_size ≤ q
    → q + size ≤ p.right_edge
    → Given own rs (take_left p (q + size) size).0 (take_left p (q + size) size).1 pre_size size
left-Given own p rs q pre_size size w lo hi =
    let fits : (q + size) % 65536 ≡ q + size = mod-eq_of_lt (omega (arith, hi, w.size)) in
    (
      record {
        edges = (omega (arith, fits, lo, w.edges), omega (arith, fits, hi));
        size = w.size;
        known = w.known;
        allocated = w.allocated;
        kept = (
          (w.known, λ e. inl (omega (arith, fits)), omega (arith, hi, w.allocated)),
          map-All rs
              (λ r k. (
                k.0,
                λ e. elim (k.1 e) [
                  | inl low ↦ inl (omega (arith, low, lo, fits))
                  | inr high ↦ inr high
                ],
                k.2,
              ))
              w.kept,
        );
      },
      map-All rs
          (λ r k.
            within-Apart own p (region (take_left p (q + size) size).1 pre_size size) r refl
              (omega (arith, lo)) (omega (arith, hi)) k)
          w.kept,
      omega (arith, lo, w.edges),
      omega (arith, hi, w.allocated),
    )

pub right-Given :
    (own : ℕ) (p : Pool) (rs : List Region) (pre_size size : ℕ)
    → IsPool own p rs
    → pre_size + size ≤ p.right_edge - p.left_edge
    → Given own rs
        (take_right p (pre_size + size)).0
        (record (take_right p (pre_size + size)).1 {
          offset = p.right_edge - (pre_size + size) + pre_size;
        })
        pre_size
        size
right-Given own p rs pre_size size w room =
    let t = pre_size + size in
    let a : Address = record { block = p.curr; offset = p.right_edge - t + pre_size } in
    (
      record {
        edges = (w.edges.0, omega (arith, room, w.edges));
        size = (omega (arith, w.size), w.size.1);
        known = w.known;
        allocated = omega (arith, w.allocated);
        kept = (
          (w.known, λ e. inr (omega arith), omega (arith, room, w.edges, w.allocated)),
          map-All rs
              (λ r k. (
                k.0,
                λ e. elim (k.1 e) [ inl low ↦ inl low | inr high ↦ inr (omega (arith, high)) ],
                k.2,
              ))
              w.kept,
        );
      },
      map-All rs
          (λ r k.
            within-Apart own p (region a pre_size size) r refl (omega (arith, room, w.edges))
              (omega (arith, room, w.edges)) k)
          w.kept,
      omega (arith, room, w.edges),
      omega (arith, room, w.edges, w.allocated),
    )

pub own-Given :
    (own : ℕ) (p : Pool) (rs : List Region) (q pre_size size : ℕ)
    → IsPool own p rs
    → 8 + pre_size ≤ q
    → Given own rs (own_chunk p (q + size) size).0 (own_chunk p (q + size) size).1 pre_size size
own-Given own p rs q pre_size size w lo =
    let n = suc (length p.chunks) in
    let first = size_of-first own n (q + size) p.chunks in
    (
      record {
        edges = w.edges;
        size = w.size;
        known = omega (arith, w.known);
        allocated = omega (
          arith,
          w.allocated,
          size_of-new own p.curr n (q + size) p.chunks (omega (arith, w.known)),
        );
        kept = (
          (omega arith, λ e. absurd (omega (arith, e, w.known)), omega (arith, first)),
          map-All rs
              (λ r k. (
                omega (arith, k.0),
                k.1,
                omega (
                  arith,
                  k.2,
                  size_of-new own r.block n (q + size) p.chunks (omega (arith, k.0)),
                ),
              ))
              w.kept,
        );
      },
      map-All rs (λ r k. inl (λ e. absurd (omega (arith, e, k.0)))) w.kept,
      omega (arith, lo),
      omega (arith, first),
    )
