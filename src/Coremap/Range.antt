-- ===== src/Coremap/Range.antt =====
-- What the search of locate_range finds in one map.
use cse.Base.{
  dec_lt, ℕ, zero, suc, ◌+◌, ◌-◌, ◌%◌, ◌^◌, ◌≤◌, ◌<◌, ◌≡◌, refl, true, false, ◌&&◌, ◌||◌, Option,
  none, some, inl, inr, leb, ltb, ◌==◌, Status, success, enospc, enomem, Run, Ends, Ends-seq,
  Ends-test, Ends-weaken, arith,
}
use cse.Bitmap.{Bitmap}
use cse.Bitmap.Bits.{is_set, IsValid, bitmap_mark_lem, bitmap_unmark_lem, bitmap_isset_lem}
use cse.Bitmap.Alloc.{Allocated, InUse, bitmap_alloc_after_lem}
use cse.Coremap.{unmark_loop, mark_loop, end_round, try_range, search_loop}

-- `m` is `map` with the bits from `lo` up to `hi` set.
pub record Filled (map : Bitmap) (lo hi : ℕ) (m : Bitmap) : Type 0 where
  pub valid : IsValid m
  pub sized : m.nbits ≡ map.nbits
  pub bits : (j : ℕ) → is_set m j ≡ (leb lo j && ltb j hi || is_set map j)

-- The bits of `n` pages from `s` on are clear.
abbrev pub Clear : Bitmap → ℕ → ℕ → Type 0
Clear map s n = (j : ℕ) → s ≤ j → j < s + n → is_set map j ≡ false

-- One of them is set.
abbrev pub Busy : Bitmap → ℕ → ℕ → Type 0
Busy map s n = (j : ℕ) × (s ≤ j) × (j < s + n) × (is_set map j ≡ true)

unmark_loop-Filled :
    (map : Bitmap) (idx i : ℕ) (m : Bitmap)
    → idx + i ≤ map.nbits
    → Clear map idx i
    → Filled map idx (idx + i) m
    → Ends (Filled map idx idx) (unmark_loop i idx m)
unfolding unmark_loop
unmark_loop-Filled map idx zero m inside clear f =
    (m, refl, record { valid = f.valid; sized = f.sized; bits = λ j. ground (arith, f.bits j) })
unmark_loop-Filled map idx (suc i) m inside clear f =
    Ends-seq _ _ _ _ (bitmap_unmark_lem m f.valid (idx + i) (omega (arith, f.sized))) (λ m' u.
      unmark_loop-Filled map idx i m' (omega arith) (λ j p q. clear j p (omega arith))
        (record {
          valid = u.0;
          sized = ground (arith, u.1, f.sized);
          bits = λ j. ground (arith, u.2 j, f.bits j, clear (idx + i) (omega arith) (omega arith));
        }))

-- Behind the loop over a range of pages: the range is set, or a page of it was taken and the map has
-- its old bits.
abbrev Marks : Bitmap → ℕ → ℕ → Option ℕ × Bitmap → Type 0
Marks map idx npages (none, m) = Clear map idx npages × Filled map idx (idx + npages) m
Marks map idx npages (some min, m) =
    (idx < min) × (min < idx + npages) × (is_set map min ≡ true) × Filled map idx idx m

mark_loop-Marks :
    (map : Bitmap) (n i idx npages : ℕ) (m : Bitmap)
    → 0 < i
    → i + n ≡ npages
    → idx + npages ≤ map.nbits
    → Clear map idx i
    → Filled map idx (idx + i) m
    → Ends (Marks map idx npages) (mark_loop n i idx m)
unfolding mark_loop
mark_loop-Marks map zero i idx npages m pos e inside clear f = (
  (none, m),
  refl,
  (
    (λ j p q. clear j p (omega arith)),
    record { valid = f.valid; sized = f.sized; bits = λ j. ground (arith, f.bits j) },
  ),
)
mark_loop-Marks map (suc n) i idx npages m pos e inside clear f =
    let within : idx + i < m.nbits = omega (arith, f.sized) in
    Ends-seq _ _ _ _ (bitmap_isset_lem m f.valid (idx + i) within) (λ r t.
      Ends-test _ (r == 0) _ _
        (λ free.
          let vacant : is_set m (idx + i) ≡ false = ground arith in
          Ends-seq _ _ _ _ ((bitmap_mark_lem m f.valid (idx + i) within).0 vacant) (λ m' u.
            mark_loop-Marks map n (suc i) idx npages m' (omega arith) (omega arith) inside
              (λ j p q. ground (arith, clear j p, f.bits j))
              (record {
                valid = u.0;
                sized = ground (arith, u.1, f.sized);
                bits = λ j. ground (arith, u.2 j, f.bits j);
              })))
        (λ taken. Ends-seq _ _ _ _ (unmark_loop-Filled map idx i m (omega arith) clear f) (λ m' u. (
          (some (idx + i), m'),
          refl,
          (omega arith, omega arith, ground (arith, f.bits (idx + i)), u),
        ))))

-- What the search from `min` on returns. There is no range below it that starts at `min` or behind it
-- in the map, and without one the bits of the map are as before.
abbrev pub Searched : Bitmap → ℕ → ℕ → ℕ → Status × ℕ × Bitmap → Type 0
Searched map length npages min (success, idx, m) =
    (min ≤ idx)
    × (idx + npages ≤ length)
    × Clear map idx npages
    × ((s : ℕ) → min ≤ s → s < idx → Busy map s npages)
    × Filled map idx (idx + npages) m
Searched map length npages min (enospc, idx, m) =
    ((s : ℕ) → min ≤ s → s + npages ≤ length → Busy map s npages) × Filled map 0 0 m
Searched map length npages min (enomem, idx, m) = ⊥

Searched-from :
    (map : Bitmap) (length npages min mid : ℕ)
    → min ≤ mid
    → ((s : ℕ) → min ≤ s → s < mid → s + npages ≤ length → Busy map s npages)
    → (r : Status × ℕ × Bitmap) → Searched map length npages mid r
    → Searched map length npages min r
Searched-from map length npages min mid le none_below (success, idx, m)
      (at, inside, clear, none_at, f) =
    (omega arith, inside, clear, (λ s p q. all_below s p q (dec_lt s mid)), f)
  where
    all_below : (s : ℕ) → min ≤ s → s < idx → Dec (s < mid) → Busy map s npages
    all_below s p q (yes b) = none_below s p b (omega arith)
    all_below s p q (no b) = none_at s (omega arith) q
Searched-from map length npages min mid le none_below (enospc, idx, m) (none_at, f) =
    ((λ s p q. all_below s p q (dec_lt s mid)), f)
  where
    all_below : (s : ℕ) → min ≤ s → s + npages ≤ length → Dec (s < mid) → Busy map s npages
    all_below s p q (yes b) = none_below s p b q
    all_below s p q (no b) = none_at s (omega arith) q
Searched-from map length npages min mid le none_below (enomem, idx, m) h = absurd h

module _ (map : Bitmap) (npages : ℕ) (some_pages : 0 < npages)
    (small : map.nbits + npages < 2 ^ 32) where
  -- The state of the search: the bits of the map are as before.
  abbrev Same : Bitmap → Type 0
  Same = Filled map 0 0

  Same-any : (lo : ℕ) (m : Bitmap) → Filled map lo lo m → Same m
  Same-any lo m f = record {
    valid = f.valid;
    sized = f.sized;
    bits = λ j. ground (arith, f.bits j);
  }

  -- A range cannot start at a page that is taken.
  taken-Busy :
      (m : Bitmap) (lo hi s : ℕ) → Same m → InUse m lo hi → lo ≤ s → s < hi → Busy map s npages
  taken-Busy m lo hi s f used p q =
      (s, omega arith, omega arith, ground (arith, used s p q, f.bits s))

  abbrev Next : (ℕ → Bitmap → Run (Status × ℕ × Bitmap)) → ℕ → Type 0
  Next next min =
      (min' : ℕ) (m : Bitmap)
      → min < min'
      → min' ≤ map.nbits
      → Same m
      → Ends (Searched map map.nbits npages min') (next min' m)

  end_round-Searched :
      (next : ℕ → Bitmap → Run (Status × ℕ × Bitmap)) (min idx : ℕ) (m : Bitmap)
      → Same m
      → Next next min
      → min ≤ idx
      → idx + npages ≤ map.nbits
      → InUse m min idx
      → (o : Option ℕ × Bitmap) → Marks map idx npages o
      → Ends (Searched map map.nbits npages min) (end_round next idx o)
  unfolding end_round
  end_round-Searched next min idx m f onward from inside used (none, m') (clear, filled) =
      (_, refl, (from, inside, clear, (λ s p q. taken-Busy m min idx s f used p q), filled))
  end_round-Searched next min idx m f onward from inside used (some mid, m')
        (after, within, taken, filled) =
      Ends-weaken _ _ _ (onward mid m' (omega arith) (omega arith) (Same-any idx m' filled)) (λ r.
        Searched-from map map.nbits npages min mid (omega arith)
          (λ s p q fits. elim (dec_lt s idx) [
            | yes below ↦ taken-Busy m min idx s f used p below
            | no above ↦ (mid, omega arith, omega arith, taken)
          ])
          r)

  try_range-Searched :
      (next : ℕ → Bitmap → Run (Status × ℕ × Bitmap)) (min : ℕ) (m : Bitmap)
      → Same m
      → Next next min
      → (r : Status × ℕ × Bitmap) → Allocated m min r
      → Ends (Searched map map.nbits npages min) (try_range next map.nbits npages r)
  unfolding try_range
  try_range-Searched next min m f onward (enospc, idx, m') (inl (_, same, used)) = (
    _,
    refl,
    (
      (λ s p q. taken-Busy m min m.nbits s f used p (omega (arith, f.sized))),
      record {
        valid = rw same (f.valid);
        sized = ground (arith, same, f.sized);
        bits = λ j. rw same (f.bits j);
      },
    ),
  )
  try_range-Searched next min m f onward (success, idx, m') (inl (e, _, _)) = absurd cc
  try_range-Searched next min m f onward (enomem, idx, m') (inl (e, _, _)) = absurd cc
  try_range-Searched next min m f onward (enospc, idx, m') (inr (e, _, _, _, _, _)) = absurd cc
  try_range-Searched next min m f onward (enomem, idx, m') (inr (e, _, _, _, _, _)) = absurd cc
  try_range-Searched next min m f onward (success, idx, m')
        (inr (_, from, inside, vacant, used, marked)) =
      let first : Filled map idx (idx + 1) m' = record {
        valid = marked.0;
        sized = ground (arith, marked.1, f.sized);
        bits = λ j. ground (arith, marked.2 j, f.bits j);
      } in
      let page : Clear map idx 1 = λ j p q. ground (arith, f.bits j) in
      Ends-test _ (ltb map.nbits ((idx + npages) % 2 ^ 32)) _ _
        (λ over.
          let past : map.nbits < idx + npages = ground (arith, f.sized) in
          Ends-seq _ _ _ _ (bitmap_unmark_lem m' (marked.0) idx (omega (arith, marked.1))) (λ m'' u.
            (
              _,
              refl,
              (
                (λ s p q. taken-Busy m min idx s f used p (omega arith)),
                record {
                  valid = u.0;
                  sized = ground (arith, u.1, first.sized);
                  bits = λ j. ground (arith, u.2 j, first.bits j, page idx);
                },
              ),
            )))
        (λ fits.
          let within : idx + npages ≤ map.nbits = ground (arith, f.sized) in
          Ends-seq _ _ _ _
            (mark_loop-Marks map (npages - 1) 1 idx npages m' (omega arith) (omega arith) within
              page first)
            (end_round-Searched next min idx m f onward from within used))

  pub search_loop-Searched :
      (fuel min : ℕ) (m : Bitmap)
      → min ≤ map.nbits
      → map.nbits < fuel + min
      → Same m
      → Ends (Searched map map.nbits npages min) (search_loop fuel map.nbits npages min m)
  unfolding search_loop
  search_loop-Searched zero min m within enough f = absurd (omega arith)
  search_loop-Searched (suc fuel) min m within enough f =
      Ends-test _ (ltb min map.nbits) _ _
        (λ below. Ends-seq _ _ _ _ (bitmap_alloc_after_lem m f.valid min) (
          try_range-Searched (search_loop fuel map.nbits npages) min m f (λ min' m' up inside same.
            search_loop-Searched fuel min' m' inside (omega arith) same)))
        (λ above. (_, refl, ((λ s p q. absurd (ground arith)), f)))
