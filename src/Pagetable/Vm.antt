-- ===== src/Pagetable/Vm.antt =====
-- pagetable_remove, over the core map and the swap space.
use Prim.Native.Nat.{bit_or}
use cse.Base.{
  ℕ, ◌*◌, ◌%◌, ◌^◌, Bool, true, false, Option, none, some, ◌==◌, if◌then◌else◌, update, Run, done,
  fault, ◌>>=◌,
}
use cse.Bitmap.{Bitmap, bitmap_unmark, bitmap_isset}
use cse.Coremap.Frames.{Coremap, coremap_lock_acquire, coremap_free_page}
use cse.Pagetable.{
  PagetableEntry, Subtable, Pagetable, mainindex, subindex, with_subtable, lock, pagetable_inmem,
  pagetable_request_free, swap_free,
}

-- The core map, the free list of the swap space, and a page table.
pub record Vm : Type 0 where
  pub coremap : Coremap
  pub freelist : Bitmap
  pub table : Pagetable

-- `entry->addr << 12`
abbrev pub page_of : PagetableEntry → ℕ
page_of entry = entry.addr * 2 ^ 12 % 2 ^ 32

-- The valid bit of the page is cleared, and the block of the entry is given back.
unfoldable pub forget : Vm → ℕ → ℕ → PagetableEntry → Run (Bool × Vm)
unfolding swap_free
forget vm i j entry =
    let sub : Subtable = vm.table.subtables i in
    swap_free vm.freelist entry.swap >>= λ f. bitmap_unmark sub.valids j >>= λ v.
    done (
      true,
      record vm { freelist = f; table = with_subtable vm.table i (record sub { valids = v }) },
    )

-- The branch for a page in memory, with the answer of coremap_lock_acquire: the frame is freed, or the
-- thread that swaps the page out is asked to free it.
unfoldable pub free_claimed : Vm → ℕ → ℕ → PagetableEntry → Bool × Coremap → Run (Bool × Vm)
unfolding forget
free_claimed vm i j entry (true, coremap) =
    coremap_free_page coremap (page_of entry) >>= λ c. forget (record vm { coremap = c }) i j entry
free_claimed vm i j entry (false, coremap) =
    let sub : Subtable = vm.table.subtables i in
    done (
      true,
      record vm {
        coremap = coremap;
        table = with_subtable vm.table i (record sub {
          entries =
              update sub.entries j
                (some (record entry { flags = bit_or entry.flags pagetable_request_free }));
        });
      },
    )

-- pagetable_remove on an entry. The test of PAGETABLE_INMEM takes the flag by `|`.
unfoldable pub remove_entry : Vm → ℕ → ℕ → Option PagetableEntry → Run (Bool × Vm)
unfolding free_claimed forget
remove_entry vm i j none = fault
remove_entry vm i j (some entry) =
    if bit_or entry.flags pagetable_inmem == 0
    then forget vm i j entry
    else coremap_lock_acquire vm.coremap (page_of entry) >>= λ r. free_claimed vm i j entry r

unfoldable pub pagetable_remove : Vm → ℕ → Run (Bool × Vm)
unfolding remove_entry
pagetable_remove vm vaddr =
    let i : ℕ = mainindex vaddr in
    let j : ℕ = subindex vaddr in
    let unlocked : Vm = record vm { table = lock false vm.table } in
    let sub : Subtable = vm.table.subtables i in
    let inner : Run (Bool × Vm) = bitmap_isset sub.valids j >>= λ valid.
    if valid == 0 then done (false, unlocked) else remove_entry unlocked i j (sub.entries j) in
    bitmap_isset vm.table.valids i >>= λ main. if main == 0 then done (false, unlocked) else inner
