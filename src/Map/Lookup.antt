-- ===== src/Map/Lookup.antt =====
-- What gu_map_lookup of gu/map.c finds in a table whose keys can be reached.
use libpgf.Prelude.{
  ℕ, zero, suc, ◌+◌, ◌-◌, ◌*◌, ◌%◌, ◌<◌, ◌≡◌, ◌⊎◌, refl, sym, ap, ◌∙◌, arith, Bool, true, false,
  not, Bool-cases, inl, inr, if◌then◌else◌, ◌==◌, ok, ◌&&◌,
}
use native.Mathlib.Nat.{mod-lt, mod-eq_of_lt, add-mul, mod-add-mod}
use libpgf.Prime.Primality.{IsPrime}
use libpgf.Memory.{size_max}
use libpgf.Map.Cycle.{slot}
use libpgf.Map.Slots.{used, count}
use libpgf.Map.{Hasher, Data, probe}

slot_zero : (n c i : ℕ) → i < n → slot n c i 0 ≡ i
slot_zero n c i lt = ap (λ t. t % n) {x = i + 0 * c} {y = i} (omega arith) ∙ mod-eq_of_lt lt

slot-suc : (n c i t : ℕ) → slot n c ((i + c) % n) t ≡ slot n c i (suc t)
slot-suc n c i t =
    mod-add-mod (i + c) n (t * c)
    ∙ ap (λ u. u % n) {x = i + c + t * c} {y = i + suc t * c}
        (omega (arith, add-mul t 1 c, ap (λ u. u * c) {x = suc t} {y = t + 1} (omega arith)))

-- The test of the loop is that of gu_map_entry_is_free.
tested : (b : Bool) (i z : ℕ) → (b && not (z == i)) ≡ not (not (if i == z then false else b))
tested b i z = ground arith

module _ {ℓ} {K V : Type ℓ} (h : Hasher K) where
  -- Where the search for a key ends.
  abbrev pub Stops : Data K V → K → ℕ → Type 0
  Stops d key j = (used h d j ≡ false) ⊎ ((used h d j ≡ true) × (h.eq key (d.keys j) ≡ true))

  -- Where it goes on.
  abbrev pub Passes : Data K V → K → ℕ → Type 0
  Passes d key j = (used h d j ≡ true) × (h.eq key (d.keys j) ≡ false)

  -- The entries that the search for a key meets.
  abbrev pub path : Data K V → K → ℕ → ℕ
  path d key t = slot d.n_entries (h.hash key % (d.n_entries - 2) + 1) (h.hash key % d.n_entries) t

  abbrev pub Reached : Data K V → K → ℕ → Type 0
  Reached d key j = (t : ℕ) × (path d key t ≡ j) × ((u : ℕ) → u < t → Passes d key (path d key u))

  -- A table that is as gu_map_insert leaves it.
  pub record IsTable (d : Data K V) : Type ℓ where
    pub prime : IsPrime d.n_entries
    pub bounds : (10 < d.n_entries) × (d.n_entries < 2147483648)
    pub counted : count (used h d) d.n_entries ≡ d.n_occupied
    pub zero_entry :
        (d.zero_idx ≡ size_max)
        ⊎ ((d.zero_idx < d.n_entries) × (h.is_zero (d.keys d.zero_idx) ≡ true))
    pub reached : (j : ℕ) → j < d.n_entries → used h d j ≡ true → Reached d (d.keys j) j

  settle : (d : Data K V) (key : K) (j : ℕ) → Stops d key j ⊎ Passes d key j
  settle d key j = elim (Bool-cases (used h d j)) [
    | inr free ↦ inl (inl free)
    | inl in_use ↦ elim (Bool-cases (h.eq key (d.keys j))) [
      | inl same ↦ inl (inr (in_use, same))
      | inr other ↦ inr (in_use, other)
    ]
  ]

  apart : (d : Data K V) (key : K) (j : ℕ) → Stops d key j → Passes d key j → ⊥
  apart d key j s p = elim s [
    | inl free ↦ absurd (cc (free, p.0))
    | inr hit ↦ absurd (cc (hit.1, p.1))
  ]

  probe_hit :
      (fuel : ℕ) (d : Data K V) (key : K) (c i : ℕ)
      → Stops d key i
      → probe h (suc fuel) d key c i ≡ ok (used h d i, i)
  unfolding probe
  probe_hit fuel d key c i s =
      rw (tested (h.is_zero (d.keys i)) i d.zero_idx)
        elim s [ inl free ↦ rw free refl | inr hit ↦ rw (hit.0, hit.1) refl ]

  probe_miss :
      (fuel : ℕ) (d : Data K V) (key : K) (c i : ℕ)
      → Passes d key i
      → probe h (suc fuel) d key c i
        ≡ probe h fuel d key c ((i + c) % 18446744073709551616 % d.n_entries)
  unfolding probe
  probe_miss fuel d key c i p = rw (tested (h.is_zero (d.keys i)) i d.zero_idx) rw (p.0, p.1) refl

  -- What the loop comes to from an entry on.
  abbrev Probed : ℕ → Data K V → K → ℕ → ℕ → Type 0
  Probed fuel d key c i =
      (t : ℕ) × (probe h fuel d key c i
        ≡ ok (used h d (slot d.n_entries c i t), slot d.n_entries c i t))
      × Stops d key (slot d.n_entries c i t)
      × ((u : ℕ) → u < t → Passes d key (slot d.n_entries c i u))

  earlier :
      (d : Data K V) (key : K) (c i t : ℕ)
      → i < d.n_entries
      → Passes d key i
      → ((u : ℕ) → u < t → Passes d key (slot d.n_entries c ((i + c) % d.n_entries) u))
      → (u : ℕ) → u < suc t
      → Passes d key (slot d.n_entries c i u)
  earlier d key c i t hi pass before zero lt = rw (slot_zero d.n_entries c i hi) pass
  earlier d key c i t hi pass before (suc u) lt =
      rw (sym (slot-suc d.n_entries c i u)) (before u (omega (arith, lt)))

  further :
      (fuel : ℕ) (d : Data K V) (key : K) (c i t0 : ℕ)
      → i < d.n_entries
      → c < d.n_entries
      → d.n_entries < 2147483648
      → t0 < suc fuel
      → Stops d key (slot d.n_entries c i t0)
      → Passes d key i
      → ((i' t1 : ℕ)
          → i' < d.n_entries
          → c < d.n_entries
          → d.n_entries < 2147483648
          → t1 < fuel
          → Stops d key (slot d.n_entries c i' t1)
          → Probed fuel d key c i')
      → Probed (suc fuel) d key c i
  further fuel d key c i zero hi hc hn enough s pass rest =
      absurd (apart d key i (rw (sym (slot_zero d.n_entries c i hi)) s) pass)
  further fuel d key c i (suc t1) hi hc hn enough s pass rest =
      let n = d.n_entries in
      let wrap : (i + c) % 18446744073709551616 ≡ i + c =
        mod-eq_of_lt (omega (arith, hi, hc, hn)) in
      let (t, e, stop, before) =
        rest ((i + c) % n) t1 (mod-lt (i + c) (omega (arith, hi))) hc hn (omega (arith, enough))
          (rw (slot-suc n c i t1) s) in
      (
        suc t,
        probe_miss fuel d key c i pass
            ∙ ap (λ w. probe h fuel d key c (w % n)) wrap
            ∙ e
            ∙ ap (λ j. ok (used h d j, j)) (slot-suc n c i t),
        rw (sym (slot-suc n c i t)) stop,
        earlier d key c i t hi pass before,
      )

  pub probe-Stops :
      (fuel : ℕ) (d : Data K V) (key : K) (c i t0 : ℕ)
      → i < d.n_entries
      → c < d.n_entries
      → d.n_entries < 2147483648
      → t0 < fuel
      → Stops d key (slot d.n_entries c i t0)
      → (t : ℕ) × (probe h fuel d key c i
          ≡ ok (used h d (slot d.n_entries c i t), slot d.n_entries c i t))
        × Stops d key (slot d.n_entries c i t)
        × ((u : ℕ) → u < t → Passes d key (slot d.n_entries c i u))
  probe-Stops zero d key c i t0 hi hc hn enough s = absurd (omega (arith, enough))
  probe-Stops (suc fuel) d key c i t0 hi hc hn enough s = elim (settle d key i) [
    | inl stop ↦
        let here = slot_zero d.n_entries c i hi in
        (
          0,
          rw here (probe_hit fuel d key c i stop),
          rw here stop,
          λ u lt. absurd (omega (arith, lt)),
        )
    | inr pass ↦
        further fuel d key c i t0 hi hc hn enough s pass (λ i' t1. probe-Stops fuel d key c i' t1)
  ]
