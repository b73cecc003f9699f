-- ===== src/Coremap.antt =====
-- kern/vm/coremap.c: the search for page frames in this file, and the entries of the frames in
-- Coremap/Frames. The bits of the two maps and the entries change under spinlocks, so each function
-- is one step.
pub mod Range
pub mod Located
pub mod Frames
pub mod Freed
pub mod Allocation
mod Tests
use cse.Base.{
  ℕ, zero, suc, ◌+◌, ◌-◌, ◌%◌, ◌^◌, Bool, true, false, Option, none, some, ltb, ◌==◌, if◌then◌else◌,
  Status, success, enospc, enomem, Run, done, out_of_fuel, ◌>>=◌,
}
use cse.Bitmap.{Bitmap, bitmap_alloc_after, bitmap_mark, bitmap_unmark, bitmap_isset}

-- `for(j = i - 1; j >= 0; j--) bitmap_unmark(map, idx + j)`, for `n` rounds from `n - 1`
unfoldable pub unmark_loop : ℕ → ℕ → Bitmap → Run Bitmap
unmark_loop zero idx map = done map
unmark_loop (suc j) idx map = bitmap_unmark map (idx + j) >>= λ m. unmark_loop j idx m

-- The loop over the pages of a range behind its first, from `i` on with `n` left. It ends at the last
-- one, or at a page that is taken, from which on the search goes on.
unfoldable pub mark_loop : ℕ → ℕ → ℕ → Bitmap → Run (Option ℕ × Bitmap)
unfolding unmark_loop
mark_loop zero i idx map = done (none, map)
mark_loop (suc n) i idx map = bitmap_isset map (idx + i) >>= λ taken.
    let onward : Run (Option ℕ × Bitmap) =
      bitmap_mark map (idx + i) >>= λ m. mark_loop n (suc i) idx m in
    if taken == 0 then onward else unmark_loop i idx map >>= λ m. done (some (idx + i), m)

-- The end of a round: a range that starts at `idx` is found, or the search goes on.
unfoldable pub end_round :
    (ℕ → Bitmap → Run (Status × ℕ × Bitmap)) → ℕ → Option ℕ × Bitmap → Run (Status × ℕ × Bitmap)
end_round next idx (none, map) = done (success, idx, map)
end_round next idx (some min, map) = next min map

-- A round of the search, behind bitmap_alloc_after.
unfoldable pub try_range :
    (ℕ → Bitmap → Run (Status × ℕ × Bitmap))
    → ℕ
    → ℕ
    → Status × ℕ × Bitmap
    → Run (Status × ℕ × Bitmap)
unfolding mark_loop end_round
try_range next length npages (success, idx, map) =
    let marks : Run (Status × ℕ × Bitmap) =
      mark_loop (npages - 1) 1 idx map >>= λ r. end_round next idx r in
    if ltb length ((idx + npages) % 2 ^ 32)
    then (bitmap_unmark map idx >>= λ m. done (enospc, 0, m))
    else marks
try_range next length npages (enospc, idx, map) = done (enospc, 0, map)
try_range next length npages (enomem, idx, map) = done (enomem, 0, map)

-- The search of locate_range in one map of `length` pages, from `min` on. Its first argument is fuel:
-- a round that goes on has a larger `min`.
unfoldable pub search_loop : ℕ → ℕ → ℕ → ℕ → Bitmap → Run (Status × ℕ × Bitmap)
unfolding try_range
search_loop zero length npages min map = out_of_fuel
search_loop (suc fuel) length npages min map =
    let round : Run (Status × ℕ × Bitmap) = bitmap_alloc_after map min >>= λ r.
    try_range (search_loop fuel length npages) length npages r in
    if ltb min length then round else done (enospc, 0, map)

-- The two maps: a set bit of `free` is a frame in use, and one of `swappable` a frame that cannot be
-- swapped out.
pub record Maps : Type 0 where
  pub free : Bitmap
  pub swappable : Bitmap

-- Which of the two maps a range is looked for in.
pub data Which : Type 0 where
  in_free in_swappable : Which

abbrev pub map_of : Which → Maps → Bitmap
map_of in_free maps = maps.free
map_of in_swappable maps = maps.swappable

abbrev pub with_map : Which → Maps → Bitmap → Maps
with_map in_free maps m = record maps { free = m }
with_map in_swappable maps m = record maps { swappable = m }

-- `if(!bitmap_isset(map, i)) bitmap_mark(map, i)`
unfoldable pub mark_clear : Bitmap → ℕ → Run Bitmap
mark_clear map i =
    bitmap_isset map i >>= λ taken. if taken == 0 then bitmap_mark map i else done map

-- The loop over the pages that were found, from `i` on with `n` left.
unfoldable pub both_loop : ℕ → ℕ → ℕ → Maps → Run Maps
unfolding mark_clear
both_loop zero i idx maps = done maps
both_loop (suc n) i idx maps = mark_clear maps.free (idx + i) >>= λ f.
    mark_clear maps.swappable (idx + i) >>= λ s.
    both_loop n (suc i) idx (record { free = f; swappable = s })

-- What follows the search, by its result.
unfoldable pub claim_range : ℕ → Which → Maps → Status × ℕ × Bitmap → Run (Status × ℕ × Maps)
unfolding both_loop
claim_range npages which maps (success, idx, map) =
    both_loop npages 0 idx (with_map which maps map) >>= λ m. done (success, idx, m)
claim_range npages which maps (enospc, idx, map) = done (enospc, 0, with_map which maps map)
claim_range npages which maps (enomem, idx, map) = done (enomem, 0, with_map which maps map)

-- `length` is coremap_length.
unfoldable pub locate_range : ℕ → Which → ℕ → Maps → Run (Status × ℕ × Maps)
unfolding search_loop claim_range
locate_range length which npages maps =
    search_loop (suc length) length npages 0 (map_of which maps) >>= λ r.
    claim_range npages which maps r
