-- ===== src/Pagetable.antt =====
-- kern/vm/pagetable.c, the page table in two levels, and the swap blocks of kern/vm/swap.c. A call is
-- one step, as if no other thread came between; kmalloc is a parameter that answers the n-th request.
pub mod Lookup
pub mod Add
pub mod Stale
pub mod Vm
pub mod Remove
mod Tests
use Prim.Native.Nat.{bit_and, bit_or}
use cse.Base.{
  ℕ, ◌+◌, ◌-◌, ◌/◌, ◌%◌, ◌^◌, Bool, true, false, Option, none, some, ◌==◌, if◌then◌else◌, update,
  Status, success, enospc, enomem, Run, done, fault, ◌>>=◌,
}
use cse.Bitmap.{Bitmap, bitmap_create, bitmap_alloc, bitmap_mark, bitmap_unmark, bitmap_isset}
use cse.Coremap.Frames.{Coremap, coremap_lock_acquire, coremap_free_page}

abbrev pub pagetable_valid : ℕ
pagetable_valid = 1

abbrev pub pagetable_inmem : ℕ
pagetable_inmem = 2

abbrev pub pagetable_dirty : ℕ
pagetable_dirty = 4

abbrev pub pagetable_request_free : ℕ
pagetable_request_free = 8

-- `struct pagetable_entry` without its spinlock
pub record PagetableEntry : Type 0 where
  pub addr : ℕ
  pub swap : ℕ
  pub flags : ℕ

-- The pointers of a subtable; NULL is `none`.
pub record Subtable : Type 0 where
  pub valids : Bitmap
  pub entries : ℕ → Option PagetableEntry

-- `held` tells whether pagetable_lock is held.
pub record Pagetable : Type 0 where
  pub valids : Bitmap
  pub subtables : ℕ → Subtable
  pub held : Bool

abbrev pub mainindex : ℕ → ℕ
mainindex vaddr = vaddr / 2 ^ 12 / 2 ^ 10

-- `frame & 1023`
abbrev pub subindex : ℕ → ℕ
subindex vaddr = vaddr / 2 ^ 12 % 2 ^ 10

-- The table with another subtable, or another entry of the subtable, for an address.
abbrev pub with_subtable : Pagetable → ℕ → Subtable → Pagetable
with_subtable table i sub = record table { subtables = update table.subtables i sub }

abbrev pub lock : Bool → Pagetable → Pagetable
lock held table = record table { held = held }

-- `if(!entry->flags & PAGETABLE_VALID)`: the `!` is taken first, so the test is that no flag is set.
abbrev pub cleared : ℕ → Bool
cleared flags = flags == 0

-- `flags &= ~flag` on eight bits
abbrev pub without_flag : ℕ → ℕ → ℕ
without_flag flags flag = bit_and flags (255 - flag)

-- The flags of an entry behind coremap_swap_page_out, which invalidates one whose page is to be freed.
abbrev pub swapped_out : ℕ → ℕ
swapped_out flags =
    let left : ℕ = without_flag (without_flag flags pagetable_dirty) pagetable_inmem in
    if bit_and left pagetable_request_free == 0 then left else without_flag left pagetable_valid

-- pagetable_lookup behind the tests of the valid bits: an entry without flags is freed.
unfoldable pub read_entry :
    Pagetable → ℕ → ℕ → Option PagetableEntry → Run (Option PagetableEntry × Pagetable)
read_entry table i j none = done (none, table)
read_entry table i j (some entry) =
    let sub : Subtable = table.subtables i in
    let drop : Run (Option PagetableEntry × Pagetable) = bitmap_unmark sub.valids j >>= λ v.
    done (none, with_subtable table i (record sub { valids = v })) in
    if cleared entry.flags then drop else done (some entry, table)

unfoldable pub pagetable_lookup : Pagetable → ℕ → Run (Option PagetableEntry × Pagetable)
unfolding read_entry
pagetable_lookup table vaddr =
    let i : ℕ = mainindex vaddr in
    let j : ℕ = subindex vaddr in
    bitmap_isset table.valids i >>= λ main.
    let inner : Run (Option PagetableEntry × Pagetable) =
      bitmap_isset (table.subtables i).valids j >>= λ valid.
      if valid == 0
      then done (none, table)
      else read_entry table i j ((table.subtables i).entries j) in
    if main == 0 then done (none, table) else inner

-- pagetable_create_subtable; it makes the requests from `t` on. The pointers are what kmalloc left in
-- the block.
unfoldable pub new_subtable : Bool → (ℕ → Option PagetableEntry) → Option Bitmap → Option Subtable
new_subtable mem garbage none = none
new_subtable mem garbage (some valids) =
    if mem then some (record { valids = valids; entries = garbage }) else none

unfoldable pub pagetable_create_subtable :
    (ℕ → Bool) → (ℕ → Option PagetableEntry) → ℕ → Run (Option Subtable)
unfolding new_subtable
pagetable_create_subtable mem garbage t =
    if mem t
    then (bitmap_create (mem (t + 1)) (mem (t + 2)) 1024 >>= λ b.
        done (new_subtable (mem (t + 3)) garbage b))
    else done none

-- swap_allocate; a set bit is a block in use.
unfoldable pub swap_allocate : Bitmap → Run (Status × ℕ × Bitmap)
swap_allocate freelist = bitmap_alloc freelist

unfoldable pub swap_free : Bitmap → ℕ → Run Bitmap
swap_free freelist block = bitmap_unmark freelist block

-- What pagetable_add returns: its answer, the free list of the swap space, and the table.
abbrev pub Added : Type 0
Added = Bool × Bitmap × Pagetable

-- The new entry.
abbrev pub entry_for : ℕ → ℕ → ℕ → PagetableEntry
entry_for paddr block flags = record {
  addr = paddr / 2 ^ 12;
  swap = block;
  flags = bit_or (bit_or flags pagetable_valid) pagetable_inmem;
}

-- The end of pagetable_add for a subtable without an entry for the address. The lock has been released
-- and is taken again where a block was found.
unfoldable pub add_entry : Pagetable → ℕ → ℕ → ℕ → ℕ → Status × ℕ × Bitmap → Run Added
add_entry table i j paddr flags (success, block, freelist) =
    let sub : Subtable = table.subtables i in
    bitmap_mark sub.valids j >>= λ v. done (
      true,
      freelist,
      lock false (
          with_subtable table i (record {
            valids = v;
            entries = update sub.entries j (some (entry_for paddr block flags));
          })),
    )
add_entry table i j paddr flags (enospc, block, freelist) = done (false, freelist, lock false table)
add_entry table i j paddr flags (enomem, block, freelist) = done (false, freelist, lock false table)

-- The end of pagetable_add for a subtable with one. Without a block it returns with the lock held, and
-- the entry has its new address.
unfoldable pub replace_entry :
    Pagetable → ℕ → ℕ → ℕ → ℕ → Option PagetableEntry → Status × ℕ × Bitmap → Run Added
replace_entry table i j paddr flags none r = fault
replace_entry table i j paddr flags (some old) (success, block, freelist) =
    let sub : Subtable = table.subtables i in
    done (
      true,
      freelist,
      lock false (
          with_subtable table i
            (record sub { entries = update sub.entries j (some (entry_for paddr block flags)) })),
    )
replace_entry table i j paddr flags (some old) (enospc, block, freelist) =
    let sub : Subtable = table.subtables i in
    done (
      false,
      freelist,
      lock true (
          with_subtable table i (record sub {
            entries = update sub.entries j (some (record old { addr = paddr / 2 ^ 12 }));
          })),
    )
replace_entry table i j paddr flags (some old) (enomem, block, freelist) =
    let sub : Subtable = table.subtables i in
    done (
      false,
      freelist,
      lock true (
          with_subtable table i (record sub {
            entries = update sub.entries j (some (record old { addr = paddr / 2 ^ 12 }));
          })),
    )

-- pagetable_add once there is a subtable. `mem` answers the request for the entry, whose result is
-- used without a test.
unfoldable pub add_to_subtable : Bool → Bitmap → Pagetable → ℕ → ℕ → ℕ → Run Added
unfolding add_entry replace_entry swap_allocate
add_to_subtable mem freelist table vaddr paddr flags =
    let i : ℕ = mainindex vaddr in
    let j : ℕ = subindex vaddr in
    bitmap_isset (table.subtables i).valids j >>= λ valid.
    if valid == 0
    then (if mem
        then (swap_allocate freelist >>= λ r. add_entry table i j paddr flags r)
        else fault)
    else (swap_allocate freelist >>= λ r.
        replace_entry table i j paddr flags ((table.subtables i).entries j) r)

-- pagetable_add where the subtable is missing: `made` is the result of pagetable_create_subtable, and
-- `table` the table when the lock is taken again. Where another thread has made the subtable in
-- the meantime, this call frees its own and then reads the bits of it, freed as they are.
unfoldable pub add_subtable : Bool → Bitmap → Pagetable → ℕ → ℕ → ℕ → Option Subtable → Run Added
unfolding add_to_subtable
add_subtable mem freelist table vaddr paddr flags none = done (false, freelist, lock true table)
add_subtable mem freelist table vaddr paddr flags (some sub) =
    bitmap_isset table.valids (mainindex vaddr) >>= λ again.
    let install : Run Added = bitmap_mark table.valids (mainindex vaddr) >>= λ v.
    add_to_subtable mem freelist (with_subtable (record table { valids = v }) (mainindex vaddr) sub)
      vaddr paddr flags in
    if again == 0 then install else fault

-- `meanwhile` is what other threads make of the table while the lock is released for
-- pagetable_create_subtable. While it is released for the entry they leave the table as it is.
unfoldable pub pagetable_add :
    (ℕ → Bool)
    → (ℕ → Option PagetableEntry)
    → (Pagetable → Pagetable)
    → Bitmap
    → Pagetable
    → ℕ
    → ℕ
    → ℕ
    → Run Added
unfolding add_subtable pagetable_create_subtable
pagetable_add mem garbage meanwhile freelist table vaddr paddr flags =
    bitmap_isset table.valids (mainindex vaddr) >>= λ main.
    if main == 0
    then (pagetable_create_subtable mem garbage 0 >>= λ made.
        add_subtable (mem 4) freelist (meanwhile table) vaddr paddr flags made)
    else add_to_subtable (mem 4) freelist table vaddr paddr flags
