-- ===== src/Coremap/Allocation.antt =====
-- Allocation of free frames, and its round trip with coremap_free_page.
use mathlib.Core.Path.{subst}
use cse.Base.{
  ℕ, zero, suc, ◌+◌, ◌-◌, dec_lt, ◌*◌, ◌^◌, ◌≤◌, ◌<◌, ◌≡◌, refl, Bool, true, false, ◌&&◌, Option,
  none, some, leb, ltb, if◌then◌else◌, update, Status, success, enospc, enomem, Ends, Ends-seq,
  Ends-weaken, arith, inl, inr, ◌⊎◌, fault,
}
use cse.Bitmap.Bits.{is_set, IsValid}
use cse.Coremap.{Maps, in_free}
use cse.Coremap.Range.{Filled, Clear, Busy}
use cse.Coremap.Located.{Located, BothFilled, locate_range-Located}
use cse.Coremap.Frames.{
  Coremap, CoremapEntry, coremap_untranslate, new_entry, entry_loop, allocated, no_entry,
  coremap_allocate_page, coremap_free_page,
}
use cse.Coremap.Freed.{multi, Extent, Freed, coremap_free_page-Freed, coremap_free_page-fault}

-- The maps and the entries agree: each map has a bit for each frame, a free frame has an empty entry and is not claimed, and an entry that goes on with a range is behind a frame
-- that is in use.
pub record IsSound (cm : Coremap) : Type 0 where
  pub free_valid : IsValid cm.maps.free
  pub swappable_valid : IsValid cm.maps.swappable
  pub free_length : cm.maps.free.nbits ≡ cm.length
  pub swappable_length : cm.maps.swappable.nbits ≡ cm.length
  pub fits : cm.base + cm.length * 4096 ≤ 2 ^ 32
  pub empty : (j : ℕ) → is_set cm.maps.free j ≡ false → cm.entries j ≡ no_entry
  pub unclaimed : (j : ℕ) → is_set cm.maps.free j ≡ false → is_set cm.maps.swappable j ≡ false
  pub behind : (j : ℕ) → multi (cm.entries (j + 1)) ≡ true → is_set cm.maps.free j ≡ true

new_entry-multi : (iskern : Bool) (pid vaddr i : ℕ) → multi (new_entry iskern pid vaddr i) ≡ ltb 0 i
new_entry-multi true pid vaddr zero = refl
new_entry-multi true pid vaddr (suc i) =
    let later : ltb 0 (suc i) ≡ true = ground arith in rw later refl
new_entry-multi false pid vaddr zero = refl
new_entry-multi false pid vaddr (suc i) =
    let later : ltb 0 (suc i) ≡ true = ground arith in rw later refl

entry_loop_lem :
    (n i idx : ℕ) (new : ℕ → CoremapEntry) (cm : Coremap) (j : ℕ)
    → (entry_loop n i idx new cm).entries (idx + j)
      ≡ (if leb i j && ltb j (i + n) then new j else cm.entries (idx + j))
unfolding entry_loop
entry_loop_lem zero i idx new cm j = ground arith
entry_loop_lem (suc n) i idx new cm j = ground (
  arith,
  entry_loop_lem n (suc i) idx new
      (record cm {
        entries = update cm.entries (idx + i) (new i);
        frames = update cm.frames idx (λ o. 0);
      })
      j,
)

entry_loop_below :
    (n i idx : ℕ) (new : ℕ → CoremapEntry) (cm : Coremap) (j : ℕ)
    → j < idx
    → (entry_loop n i idx new cm).entries j ≡ cm.entries j
unfolding entry_loop
entry_loop_below zero i idx new cm j h = refl
entry_loop_below (suc n) i idx new cm j h = ground (
  arith,
  entry_loop_below n (suc i) idx new
      (record cm {
        entries = update cm.entries (idx + i) (new i);
        frames = update cm.frames idx (λ o. 0);
      })
      j h,
)

-- The loop writes no other field.
entry_loop_same :
    (n i idx : ℕ) (new : ℕ → CoremapEntry) (cm : Coremap)
    → ((entry_loop n i idx new cm).base ≡ cm.base)
      × ((entry_loop n i idx new cm).length ≡ cm.length)
      × ((entry_loop n i idx new cm).maps ≡ cm.maps)
unfolding entry_loop
entry_loop_same zero i idx new cm = (refl, refl, refl)
entry_loop_same (suc n) i idx new cm = entry_loop_same n (suc i) idx new (record cm {
  entries = update cm.entries (idx + i) (new i);
  frames = update cm.frames idx (λ o. 0);
})

-- The two maps and the entries of `cm'` are those of `cm`.
pub record Restored (cm cm' : Coremap) : Type 0 where
  pub free : (j : ℕ) → is_set cm'.maps.free j ≡ is_set cm.maps.free j
  pub swappable : (j : ℕ) → is_set cm'.maps.swappable j ≡ is_set cm.maps.swappable j
  pub entries : (j : ℕ) → cm'.entries j ≡ cm.entries j

-- The state behind an allocation: the range is set in both maps, and has new entries.
record Taken (cm : Coremap) (idx npages : ℕ) (new : ℕ → CoremapEntry) (cm' : Coremap) : Type 0 where
  base : cm'.base ≡ cm.base
  length : cm'.length ≡ cm.length
  free : Filled cm.maps.free idx (idx + npages) cm'.maps.free
  swappable : Filled cm.maps.swappable idx (idx + npages) cm'.maps.swappable
  inner : (j : ℕ) → j < npages → cm'.entries (idx + j) ≡ new j
  outer : (j : ℕ) → (leb idx j && ltb j (idx + npages)) ≡ false → cm'.entries j ≡ cm.entries j

module _ (cm : Coremap) (sound : IsSound cm) (npages : ℕ) (some_pages : 0 < npages) (iskern : Bool)
    (pid vaddr : ℕ) where
  abbrev new : ℕ → CoremapEntry
  new = new_entry iskern pid vaddr

  allocated-Taken :
      (idx : ℕ) (maps : Maps)
      → BothFilled cm.maps idx (idx + npages) maps
      → Taken cm idx npages new (entry_loop npages 0 idx new (record cm { maps = maps }))
  allocated-Taken idx maps both =
      let start : Coremap = record cm { maps = maps } in
      let same = entry_loop_same npages 0 idx new start in
      record {
        base = same.0;
        length = same.1;
        free = rw (same.2) (both.0);
        swappable = rw (same.2) (both.1);
        inner = λ j h. ground (arith, entry_loop_lem npages 0 idx new start j);
        outer = λ j h. elim (dec_lt j idx) [
          | yes below ↦ entry_loop_below npages 0 idx new start j below
          | no above ↦
              let here : idx + (j - idx) ≡ j = omega arith in
              let read = entry_loop_lem npages 0 idx new start (j - idx) in
              ground (arith, rw here at read)
        ];
      }

  allocated-Extent :
      (idx : ℕ) (cm' : Coremap)
      → idx + npages < cm.length
      → Clear cm.maps.free idx npages
      → Taken cm idx npages new cm'
      → Extent cm' idx npages
  allocated-Extent idx cm' inside clear t = record {
    pages = some_pages;
    inside = omega (arith, t.length);
    parts = λ i pos below. ground (arith, t.inner i below, new_entry-multi iskern pid vaddr i);
    end =
        ground (
          arith,
          t.outer (idx + npages),
          sound.behind (idx + npages - 1),
          clear (idx + npages - 1),
        );
  }

  allocated-fault :
      (idx : ℕ) (cm' : Coremap)
      → idx + npages ≡ cm.length
      → Taken cm idx npages new cm'
      → coremap_free_page cm' (coremap_untranslate cm.base idx) ≡ fault
  allocated-fault idx cm' at_end t =
      subst (λ b. coremap_free_page cm' (coremap_untranslate b idx) ≡ fault) (t.base)
        (coremap_free_page-fault cm' idx npages (omega (arith, t.base, t.length, sound.fits))
          (record {
            pages = some_pages;
            last = omega (arith, t.length);
            parts =
                λ i pos below. ground (arith, t.inner i below, new_entry-multi iskern pid vaddr i);
          }))

  allocated-Restored :
      (idx : ℕ) (cm' : Coremap)
      → idx + npages < cm.length
      → Clear cm.maps.free idx npages
      → Taken cm idx npages new cm'
      → Ends (Restored cm) (coremap_free_page cm' (coremap_untranslate cm.base idx))
  allocated-Restored idx cm' inside clear t =
      subst (λ b. Ends (Restored cm) (coremap_free_page cm' (coremap_untranslate b idx))) (t.base)
        (Ends-weaken (Freed cm' idx npages) (Restored cm) _
          (coremap_free_page-Freed cm' idx npages t.free.valid t.swappable.valid
            (ground (arith, t.free.sized, sound.free_length, t.length))
            (ground (arith, t.swappable.sized, sound.swappable_length, t.length))
            (omega (arith, t.base, t.length, sound.fits)) (allocated-Extent idx cm' inside clear t))
          (λ cm'' f. record {
            free = λ j. ground (arith, f.free.bits j, t.free.bits j, clear j);
            swappable = λ j.
                ground (arith, f.swappable.bits j, t.swappable.bits j, clear j, sound.unclaimed j);
            entries = λ j. ground (arith, f.entries j, t.outer j, clear j, sound.empty j);
          }))

  -- What an allocation leaves, and then a coremap_free_page of what it returned.
  abbrev pub Returned : Option ℕ × Coremap → Type 0
  Returned (none, cm') =
      ((s : ℕ) → s + npages ≤ cm.length → Busy cm.maps.free s npages) × Restored cm cm'
  Returned (some paddr, cm') =
      (idx : ℕ) × (paddr ≡ coremap_untranslate cm.base idx)
      × (((idx + npages < cm.length) × Ends (Restored cm) (coremap_free_page cm' paddr))
          ⊎ ((idx + npages ≡ cm.length) × (coremap_free_page cm' paddr ≡ fault)))

  allocated-Returned :
      (r : Status × ℕ × Maps)
      → Located cm.length in_free npages cm.maps r
      → Returned (allocated iskern pid npages vaddr cm r)
  unfolding allocated
  allocated-Returned (success, idx, maps) (inside, clear, first, both) =
      let taken = allocated-Taken idx maps both in
      (
        idx,
        refl,
        elim (dec_lt (idx + npages) cm.length) [
          | yes within ↦ inl (within, allocated-Restored idx _ within clear taken)
          | no end ↦
              let at_end : idx + npages ≡ cm.length = omega arith in
              inr (at_end, allocated-fault idx _ at_end taken)
        ],
      )
  allocated-Returned (enospc, idx, maps) (full, both) = (
    full,
    record {
      free = λ j. ground (arith, (both.0).bits j);
      swappable = λ j. ground (arith, (both.1).bits j);
      entries = λ j. refl;
    },
  )
  allocated-Returned (enomem, idx, maps) h = absurd h

  -- On a sound core map, coremap_allocate_page for a positive number of pages that does not overflow
  -- with coremap_length ends. Where it finds no free frames there is no range of that many, and the
  -- maps and the entries are as before. Otherwise it returns the address of a frame: where a frame
  -- follows the range, coremap_free_page of that address ends, and the maps and the entries are as before
  -- the allocation; where the range ends with the last frame, coremap_free_page reads behind the core
  -- map.
  pub coremap_free_page-allocate :
      cm.length + npages < 2 ^ 32 → Ends Returned (coremap_allocate_page iskern pid npages vaddr cm)
  unfolding coremap_allocate_page
  coremap_free_page-allocate small =
      Ends-seq _ _ _ _
        (locate_range-Located cm.length npages in_free cm.maps sound.free_valid
          sound.swappable_valid sound.free_length sound.swappable_length some_pages small)
        (λ r l. (_, refl, allocated-Returned r l))
