-- ===== src/Coremap/Frames.antt =====
-- The entries of the page frames: coremap_allocate_page on free frames, coremap_free_page, the claims
-- that lock a page, and the dirty bit of kern/vm/coremap.c, with coremap_translate and
-- coremap_untranslate of kern/arch/mips/vm/mipsvm.c.
use Prim.Native.Nat.{bit_and, bit_or}
use cse.Base.{
  ℕ, zero, suc, ◌+◌, ◌-◌, ◌*◌, ◌/◌, ◌%◌, ◌^◌, Bool, true, false, Option, none, some, ltb, ◌==◌,
  if◌then◌else◌, update, Status, success, enospc, enomem, Run, done, fault, out_of_fuel, ◌>>=◌,
}
use cse.Bitmap.{bitmap_mark, bitmap_unmark, bitmap_isset}
use cse.Coremap.{Maps, in_free, locate_range}

-- `struct coremap_entry`
pub record CoremapEntry : Type 0 where
  pub flags : ℕ
  pub pid : ℕ
  pub vaddr : ℕ

abbrev pub coremap_inuse : ℕ
coremap_inuse = 8

abbrev pub coremap_swappable : ℕ
coremap_swappable = 4

abbrev pub coremap_multi : ℕ
coremap_multi = 2

abbrev pub coremap_dirty : ℕ
coremap_dirty = 1

abbrev pub page_size : ℕ
page_size = 4096

-- The globals of the core map, and the bytes of each page frame. `base` is the address of frame 0.
pub record Coremap : Type 0 where
  pub base : ℕ
  pub length : ℕ
  pub entries : ℕ → CoremapEntry
  pub maps : Maps
  pub frames : ℕ → ℕ → ℕ

abbrev pub coremap_untranslate : ℕ → ℕ → ℕ
coremap_untranslate base idx = (idx * page_size + base) % 2 ^ 32

abbrev pub coremap_translate : ℕ → ℕ → ℕ
coremap_translate base paddr = (paddr + 2 ^ 32 - base) % 2 ^ 32 / page_size

-- The entry of page `i` of a new range.
abbrev pub new_entry : Bool → ℕ → ℕ → ℕ → CoremapEntry
new_entry iskern pid vaddr i = record {
  flags =
      bit_or (bit_or coremap_inuse (if ltb 0 i then coremap_multi else 0))
        (if iskern then 0 else coremap_swappable);
  pid = pid % 2 ^ 16;
  vaddr = if iskern then 0 else vaddr;
}

-- The loop of coremap_allocate_page over the entries, from page `i` on with `n` left. Each round zeroes
-- the first frame of the range.
unfoldable pub entry_loop : ℕ → ℕ → ℕ → (ℕ → CoremapEntry) → Coremap → Coremap
entry_loop zero i idx new cm = cm
entry_loop (suc n) i idx new cm = entry_loop n (suc i) idx new (record cm {
  entries = update cm.entries (idx + i) (new i);
  frames = update cm.frames idx (λ o. 0);
})

-- Behind the search for free frames: the physical address, or nothing where a page has to be swapped
-- out first.
unfoldable pub allocated : Bool → ℕ → ℕ → ℕ → Coremap → Status × ℕ × Maps → Option ℕ × Coremap
unfolding entry_loop
allocated iskern pid npages vaddr cm (success, idx, maps) = (
  some (coremap_untranslate cm.base idx),
  entry_loop npages 0 idx (new_entry iskern pid vaddr) (record cm { maps = maps }),
)
allocated iskern pid npages vaddr cm (enospc, idx, maps) = (none, record cm { maps = maps })
allocated iskern pid npages vaddr cm (enomem, idx, maps) = (none, record cm { maps = maps })

-- coremap_allocate_page, up to the search for pages to swap out.
unfoldable pub coremap_allocate_page : Bool → ℕ → ℕ → ℕ → Coremap → Run (Option ℕ × Coremap)
unfolding allocated locate_range
coremap_allocate_page iskern pid npages vaddr cm =
    locate_range cm.length in_free npages cm.maps >>= λ r.
    done (allocated iskern pid npages vaddr cm r)

-- `coremap[i]` read; an index past the end is a wild read.
unfoldable pub entry_at : Coremap → ℕ → Run CoremapEntry
entry_at cm i = if ltb i cm.length then done (cm.entries i) else fault

-- The loop that determines the length of an allocation, with fuel.
unfoldable pub count_loop : ℕ → Coremap → ℕ → ℕ → Run ℕ
unfolding entry_at
count_loop zero cm idx num = out_of_fuel
count_loop (suc fuel) cm idx num = entry_at cm (idx + num) >>= λ e.
    let rest : Run ℕ = count_loop fuel cm idx (num + 1) in
    if bit_and e.flags coremap_multi == 0 then done num else rest

abbrev pub no_entry : CoremapEntry
no_entry = record { flags = 0; pid = 0; vaddr = 0 }

unfoldable pub reset_loop : ℕ → ℕ → ℕ → (ℕ → CoremapEntry) → ℕ → CoremapEntry
reset_loop zero i idx entries = entries
reset_loop (suc n) i idx entries = reset_loop n (suc i) idx (update entries (idx + i) no_entry)

unfoldable pub unmark_both : ℕ → ℕ → ℕ → Maps → Run Maps
unmark_both zero i idx maps = done maps
unmark_both (suc n) i idx maps = bitmap_unmark maps.swappable (idx + i) >>= λ s.
    bitmap_unmark maps.free (idx + i) >>= λ f.
    unmark_both n (suc i) idx (record { free = f; swappable = s })

-- coremap_free_page, without the broadcast to the threads that wait for a page.
unfoldable pub coremap_free_page : Coremap → ℕ → Run Coremap
unfolding count_loop reset_loop unmark_both
coremap_free_page cm paddr =
    let idx : ℕ = coremap_translate cm.base paddr in
    count_loop (suc cm.length) cm idx 1 >>= λ num. unmark_both num 0 idx cm.maps >>= λ maps.
    done (record cm { entries = reset_loop num 0 idx cm.entries; maps = maps })

-- The claim on a page that keeps it from being swapped out.
unfoldable pub coremap_lock_acquire : Coremap → ℕ → Run (Bool × Coremap)
coremap_lock_acquire cm paddr =
    let idx : ℕ = coremap_translate cm.base paddr in
    bitmap_isset cm.maps.swappable idx >>= λ taken.
    let marked : Run (Bool × Coremap) = bitmap_mark cm.maps.swappable idx >>= λ s.
    done (true, record cm { maps = record (cm.maps) { swappable = s } }) in
    if taken == 0 then marked else done (false, cm)

unfoldable pub coremap_lock_release : Coremap → ℕ → Run Coremap
coremap_lock_release cm paddr =
    bitmap_unmark cm.maps.swappable (coremap_translate cm.base paddr) >>= λ s.
    done (record cm { maps = record (cm.maps) { swappable = s } })

abbrev pub with_flags : Coremap → ℕ → (ℕ → ℕ) → Coremap
with_flags cm idx f = record cm {
  entries = update cm.entries idx (record (cm.entries idx) { flags = f (cm.entries idx).flags });
}

unfoldable pub coremap_mark_page_dirty : Coremap → ℕ → Coremap
coremap_mark_page_dirty cm paddr =
    with_flags cm (coremap_translate cm.base paddr) (λ flags. bit_or flags coremap_dirty)

-- `~COREMAP_DIRTY` in the eight bits of the flags
unfoldable pub coremap_mark_page_clean : Coremap → ℕ → Coremap
coremap_mark_page_clean cm paddr =
    with_flags cm (coremap_translate cm.base paddr) (λ flags. bit_and flags (255 - coremap_dirty))
