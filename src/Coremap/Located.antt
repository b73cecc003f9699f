-- ===== src/Coremap/Located.antt =====
-- What locate_range does to the two maps.
use mathlib.Core.Path.{subst}
use cse.Base.{
  ◌≡◌, ℕ, zero, suc, ◌+◌, ◌^◌, ◌≤◌, ◌<◌, ◌≡◌, refl, true, false, ◌&&◌, ◌||◌, leb, ltb, ◌==◌, Status,
  success, enospc, enomem, Ends, Ends-seq, Ends-test, arith,
}
use cse.Bitmap.{Bitmap}
use cse.Bitmap.Bits.{is_set, IsValid, bitmap_mark_lem, bitmap_isset_lem}
use cse.Coremap.{
  Maps, Which, in_free, in_swappable, map_of, with_map, mark_clear, both_loop, claim_range,
  search_loop, locate_range,
}
use cse.Coremap.Range.{Filled, Clear, Busy, Searched, search_loop-Searched}

-- `m` has the bits of `map`, those from `lo` up to `mid`, and none beside these but some below `hi`.
record Growing (map : Bitmap) (lo mid hi : ℕ) (m : Bitmap) : Type 0 where
  valid : IsValid m
  sized : m.nbits ≡ map.nbits
  has : (j : ℕ) → (leb lo j && ltb j mid || is_set map j) ≡ true → is_set m j ≡ true
  only : (j : ℕ) → is_set m j ≡ true → (leb lo j && ltb j hi || is_set map j) ≡ true

Growing-Filled :
    (map : Bitmap) (lo hi : ℕ) (m : Bitmap) → Growing map lo hi hi m → Filled map lo hi m
Growing-Filled map lo hi m g = record {
  valid = g.valid;
  sized = g.sized;
  bits = λ j. ground (arith, g.has j, g.only j);
}

start-Growing : (map : Bitmap) (lo mid hi : ℕ) → mid ≤ lo → IsValid map → Growing map lo mid hi map
start-Growing map lo mid hi le v = record {
  valid = v;
  sized = refl;
  has = λ j h. ground arith;
  only = λ j h. ground arith;
}

Filled-Growing :
    (map : Bitmap) (lo mid hi : ℕ) (m : Bitmap)
    → mid ≤ hi
    → Filled map lo hi m
    → Growing map lo mid hi m
Filled-Growing map lo mid hi m le f = record {
  valid = f.valid;
  sized = f.sized;
  has = λ j h. ground (arith, f.bits j);
  only = λ j h. ground (arith, f.bits j);
}

mark_clear-Growing :
    (map : Bitmap) (lo mid hi : ℕ) (m : Bitmap)
    → lo ≤ mid
    → mid < hi
    → hi ≤ map.nbits
    → Growing map lo mid hi m
    → Ends (Growing map lo (suc mid) hi) (mark_clear m mid)
unfolding mark_clear
mark_clear-Growing map lo mid hi m above below inside g =
    let within : mid < m.nbits = omega (arith, g.sized) in
    Ends-seq _ _ _ _ (bitmap_isset_lem m g.valid mid within) (λ r t.
      Ends-test _ (r == 0) _ _
        (λ free.
          let vacant : is_set m mid ≡ false = ground arith in
          let (m', e, marked) = (bitmap_mark_lem m g.valid mid within).0 vacant in
          (
            m',
            e,
            record {
              valid = marked.0;
              sized = ground (arith, marked.1, g.sized);
              has = λ j h. ground (arith, marked.2 j, g.has j);
              only = λ j h. ground (arith, marked.2 j, g.only j);
            },
          ))
        (λ taken. (
          m,
          refl,
          record {
            valid = g.valid;
            sized = g.sized;
            has = λ j h. ground (arith, g.has j);
            only = g.only;
          },
        )))

-- Both maps of `maps'` are those of `maps` with the range set.
abbrev pub BothFilled : Maps → ℕ → ℕ → Maps → Type 0
BothFilled maps lo hi maps' =
    Filled maps.free lo hi maps'.free × Filled maps.swappable lo hi maps'.swappable

module _ (maps : Maps) (length : ℕ) (same_free : maps.free.nbits ≡ length)
    (same_swappable : maps.swappable.nbits ≡ length) (idx npages : ℕ)
    (inside : idx + npages ≤ length) where
  both_loop-Filled :
      (n i : ℕ) (m : Maps)
      → i + n ≡ npages
      → Growing maps.free idx (idx + i) (idx + npages) m.free
      → Growing maps.swappable idx (idx + i) (idx + npages) m.swappable
      → Ends (BothFilled maps idx (idx + npages)) (both_loop n i idx m)
  unfolding both_loop
  both_loop-Filled zero i m e f s =
      let all : i ≡ npages = omega arith in
      (m, refl, (Growing-Filled _ _ _ _ (rw all at f), Growing-Filled _ _ _ _ (rw all at s)))
  both_loop-Filled (suc n) i m e f s =
      let next : suc (idx + i) ≡ idx + suc i = omega arith in
      Ends-seq _ _ _ _
        (mark_clear-Growing maps.free idx (idx + i) (idx + npages) m.free (omega arith)
          (omega arith) (omega arith) f)
        (λ f' g.
          Ends-seq _ _ _ _
            (mark_clear-Growing maps.swappable idx (idx + i) (idx + npages) m.swappable
              (omega arith) (omega arith) (omega arith) s)
            (λ s' h.
              both_loop-Filled n (suc i) (record { free = f'; swappable = s' }) (omega arith)
                (rw next at g) (rw next at h)))

  -- The range is clear in the map that it was looked for in, and set there.
  claim_range-Filled :
      (which : Which) (m : Bitmap)
      → IsValid maps.free
      → IsValid maps.swappable
      → Filled (map_of which maps) idx (idx + npages) m
      → Ends (BothFilled maps idx (idx + npages)) (both_loop npages 0 idx (with_map which maps m))
  claim_range-Filled which m vf vs f =
      both_loop-Filled npages 0 (with_map which maps m) (omega arith)
        (elim which
            as (λ w.
              Filled (map_of w maps) idx (idx + npages) m
              → Growing maps.free idx (idx + 0) (idx + npages) (with_map w maps m).free) [
                | in_free ↦
                    λ f. Filled-Growing maps.free idx (idx + 0) (idx + npages) m (omega arith) f
                | in_swappable ↦
                    λ f. start-Growing maps.free idx (idx + 0) (idx + npages) (omega arith) vf
              ]
          f)
        (elim which
            as (λ w.
              Filled (map_of w maps) idx (idx + npages) m
              → Growing maps.swappable idx (idx + 0) (idx + npages) (with_map w maps m).swappable) [
                | in_free ↦
                    λ f. start-Growing maps.swappable idx (idx + 0) (idx + npages) (omega arith) vs
                | in_swappable ↦ λ f.
                    Filled-Growing maps.swappable idx (idx + 0) (idx + npages) m (omega arith) f
              ]
          f)

-- What locate_range returns.
abbrev pub Located : ℕ → Which → ℕ → Maps → Status × ℕ × Maps → Type 0
Located length which npages maps (success, idx, maps') =
    (idx + npages ≤ length)
    × Clear (map_of which maps) idx npages
    × ((s : ℕ) → s < idx → Busy (map_of which maps) s npages)
    × BothFilled maps idx (idx + npages) maps'
Located length which npages maps (enospc, idx, maps') =
    ((s : ℕ) → s + npages ≤ length → Busy (map_of which maps) s npages) × BothFilled maps 0 0 maps'
Located length which npages maps (enomem, idx, maps') = ⊥

module _ (length npages : ℕ) (which : Which) (maps : Maps) (free_valid : IsValid maps.free)
    (swappable_valid : IsValid maps.swappable) (free_length : maps.free.nbits ≡ length)
    (swappable_length : maps.swappable.nbits ≡ length) where
  same-Filled : (map : Bitmap) → IsValid map → Filled map 0 0 map
  same-Filled map v = record { valid = v; sized = refl; bits = λ j. ground arith }

  claim_range-Located :
      (r : Status × ℕ × Bitmap)
      → Searched (map_of which maps) length npages 0 r
      → Ends (Located length which npages maps) (claim_range npages which maps r)
  unfolding claim_range
  claim_range-Located (success, idx, m) (_, inside, clear, first, f) =
      Ends-seq _ _ _ _
        (claim_range-Filled maps length free_length swappable_length idx npages inside which m
          free_valid swappable_valid f)
        (λ maps' both. (_, refl, (inside, clear, (λ s p. first s (omega arith) p), both)))
  claim_range-Located (enospc, idx, m) (full, f) = (
    _,
    refl,
    (
      (λ s p. full s (omega arith) p),
      elim which as (λ w. Filled (map_of w maps) 0 0 m → BothFilled maps 0 0 (with_map w maps m)) [
        | in_free ↦ λ f. (f, same-Filled maps.swappable swappable_valid)
        | in_swappable ↦ λ f. (same-Filled maps.free free_valid, f)
      ]
          f,
    ),
  )
  claim_range-Located (enomem, idx, m) h = absurd h

  -- On valid maps of coremap_length bits, locate_range for a positive number of pages, small enough not
  -- to overflow an unsigned int with coremap_length, ends and no KASSERT of the bitmap fails. It returns
  -- the first index where that many bits of the map are clear, and sets these bits in both maps and no
  -- others; if there is none it returns ENOSPC, and both maps have their old bits.
  pub locate_range-Located :
      0 < npages
      → length + npages < 2 ^ 32
      → Ends (Located length which npages maps) (locate_range length which npages maps)
  unfolding locate_range
  locate_range-Located some_pages small = Ends-seq _ _ _ _ (searched which) claim_range-Located
    where
      found :
          (map : Bitmap)
          → IsValid map
          → map.nbits ≡ length
          → Ends (Searched map length npages 0) (search_loop (suc length) length npages 0 map)
      found map v e =
          subst (λ l. Ends (Searched map l npages 0) (search_loop (suc l) l npages 0 map)) e
            (search_loop-Searched map npages some_pages (omega arith) (suc map.nbits) 0 map
              (omega arith) (omega arith) (same-Filled map v))

      searched :
          (w : Which)
          → Ends
              (Searched (map_of w maps) length npages 0)
              (search_loop (suc length) length npages 0 (map_of w maps))
      searched in_free = found maps.free free_valid free_length
      searched in_swappable = found maps.swappable swappable_valid swappable_length
