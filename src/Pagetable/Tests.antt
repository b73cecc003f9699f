-- ===== src/Pagetable/Tests.antt =====
-- A page table with one page, in frame 2 of a core map of eight frames.
use Prim.Native.Nat.{bit_and}
use cse.Base.{ℕ, ◌≡◌, refl, true, false, none, some, update, arith, Ends, ◌<◌, if◌then◌else◌, ◌>>=◌}
use cse.Bitmap.{Bitmap}
use cse.Bitmap.Byte.{bit}
use cse.Bitmap.Bits.{is_set, IsValid}
use cse.Coremap.Frames.{Coremap, no_entry}
use cse.Coremap.Freed.{Extent}
use cse.Pagetable.{
  PagetableEntry, Pagetable, pagetable_valid, pagetable_lookup, pagetable_add, entry_for,
}
use cse.Pagetable.Lookup.{IsSound, entry_of, Found, pagetable_lookup-Found}
use cse.Pagetable.Add.{same_page, pagetable_lookup-add}
use cse.Pagetable.Stale.{pagetable_lookup-Stale}
use cse.Pagetable.Vm.{Vm, pagetable_remove}
use cse.Pagetable.Remove.{IsMapped, Removed, pagetable_remove-Removed}

-- A bitmap with the bits of one byte.
abbrev bits_of : ℕ → ℕ → ℕ → Bitmap
bits_of nbits size byte = record {
  nbits = nbits;
  v = record { mem = update (λ i. 0) 0 byte; size = size };
}

abbrev first_bit : Bitmap
first_bit = bits_of 1024 128 1

first_bit-IsValid : IsValid first_bit
first_bit-IsValid = record {
  sized = refl;
  byte = λ ix. ground arith;
  leftover = λ j p q. absurd (omega arith);
}

-- The page 0 with an entry.
abbrev with_entry : PagetableEntry → Pagetable
with_entry entry = record {
  valids = first_bit;
  subtables = λ i. record { valids = first_bit; entries = λ j. some entry };
  held = false;
}

with_entry-IsSound : (entry : PagetableEntry) → IsSound (with_entry entry)
with_entry-IsSound entry = record {
  main = (first_bit-IsValid, refl);
  sub = λ i h. record { map = (first_bit-IsValid, refl); filled = λ l p q. refl };
}

abbrev in_frame : PagetableEntry
in_frame = record { addr = 3; swap = 1; flags = 3 }

abbrev invalid : PagetableEntry
invalid = record { addr = 3; swap = 1; flags = 8 }

abbrev blocks : Bitmap
blocks = bits_of 8 1 2

abbrev free_frames : Bitmap
free_frames = bits_of 8 1 0x85

abbrev swappable_frames : Bitmap
swappable_frames = bits_of 8 1 0x81

byte-IsValid : (byte : ℕ) → byte < 256 → IsValid (bits_of 8 1 byte)
byte-IsValid byte small = record {
  sized = refl;
  byte = λ ix. ground arith;
  leftover = λ j p q. absurd (omega arith);
}

abbrev frames : Coremap
frames = record {
  base = 4096;
  length = 8;
  entries = update (λ i. no_entry) 2 (record { flags = 12; pid = 1; vaddr = 0 });
  maps = record { free = free_frames; swappable = swappable_frames };
  frames = λ i o. 0;
}

frames-IsMapped : IsMapped frames
frames-IsMapped = record {
  free_valid = byte-IsValid 0x85 (omega arith);
  swappable_valid = byte-IsValid 0x81 (omega arith);
  free_length = refl;
  swappable_length = refl;
  fits = omega arith;
}

frames-Extent : Extent frames 2 1
frames-Extent = record {
  pages = omega arith;
  inside = omega arith;
  parts = λ i p q. absurd (omega arith);
  end = refl;
}

abbrev vm : Vm
vm = record { coremap = frames; freelist = blocks; table = with_entry in_frame }

-- An address in page 1 reads NULL, and one in page 0 the entry.
reads_entry : entry_of (with_entry in_frame) 100 ≡ some in_frame
unfolding bit
reads_entry = refl

pagetable_lookup-Found_example :
    Ends (Found (with_entry in_frame) 5000) (pagetable_lookup (with_entry in_frame) 5000)
pagetable_lookup-Found_example =
    pagetable_lookup-Found (with_entry in_frame) 5000 (with_entry-IsSound in_frame) (omega arith)

pagetable_lookup-add_example :
    Ends
      (λ r.
        (block : ℕ) × (is_set blocks block ≡ false)
        × (r.0 ≡ (
            if same_page 5000 6000
            then some (entry_for 12288 block 16)
            else entry_of (with_entry in_frame) 6000)))
      (pagetable_add (λ n. true) (λ i. none) (λ t. t) blocks (with_entry in_frame) 5000 12288 16
        >>= λ a. pagetable_lookup (a.2) 6000)
unfolding bit
pagetable_lookup-add_example =
    pagetable_lookup-add blocks (byte-IsValid 2 (omega arith)) 0 (omega arith) refl (λ n. true)
      (λ i. none) (λ t. t) (with_entry in_frame) 5000 12288 16 6000 (λ n. refl) refl
      (with_entry-IsSound in_frame) (omega arith) (omega arith) (omega arith)

pagetable_lookup-Stale_example :
    (bit_and invalid.flags pagetable_valid ≡ 0)
    × Ends (λ r. r.0 ≡ some invalid) (pagetable_lookup (with_entry invalid) 100)
unfolding bit
pagetable_lookup-Stale_example =
    pagetable_lookup-Stale (with_entry invalid) 100 11 invalid (with_entry-IsSound invalid)
      (omega arith) (omega arith) refl refl refl refl refl

pagetable_remove-Removed_example : Ends (Removed vm 100 2 in_frame) (pagetable_remove vm 100)
unfolding bit
pagetable_remove-Removed_example =
    pagetable_remove-Removed vm 100 2 in_frame (with_entry-IsSound in_frame) (omega arith)
      reads_entry (omega arith) (byte-IsValid 2 (omega arith)) (omega arith) frames-IsMapped
      frames-Extent refl refl
