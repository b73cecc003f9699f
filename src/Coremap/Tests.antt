-- ===== src/Coremap/Tests.antt =====
-- A core map of eight frames, of which the first and the last are in use.
use cse.Base.{
  Bool-cases, inl, inr, ℕ_discrete, ℕ, ◌+◌, ◌≡◌, refl, true, false, update, arith, Ends, ◌==◌,
}
use cse.Bitmap.{Bitmap}
use cse.Bitmap.Byte.{bit}
use cse.Bitmap.Bits.{is_set, IsValid}
use cse.Coremap.{Maps, in_free, locate_range}
use cse.Coremap.Located.{Located, locate_range-Located}
use cse.Coremap.Frames.{Coremap, CoremapEntry, no_entry, coremap_allocate_page}
use cse.Coremap.Freed.{multi}
use cse.Coremap.Allocation.{IsSound, Returned, coremap_free_page-allocate}

abbrev ends_taken : Bitmap
ends_taken = record { nbits = 8; v = record { mem = update (λ i. 0) 0 0x81; size = 1 } }

ends_taken-IsValid : IsValid ends_taken
ends_taken-IsValid = record {
  sized = refl;
  byte = λ ix. ground arith;
  leftover = λ j p q. absurd (omega arith);
}

abbrev both : Maps
both = record { free = ends_taken; swappable = ends_taken }

abbrev kernel_entry : CoremapEntry
kernel_entry = record { flags = 9; pid = 0; vaddr = 0 }

abbrev eight : Coremap
eight = record {
  base = 4096;
  length = 8;
  entries = update (update (λ i. no_entry) 0 kernel_entry) 7 kernel_entry;
  maps = both;
  frames = λ i o. 0;
}

no_range : (j : ℕ) → multi (eight.entries j) ≡ false
no_range j = elim (Bool-cases (7 == j)) [
  | inl e ↦ rw e refl
  | inr e ↦ elim (Bool-cases (0 == j)) [ inl e' ↦ rw (e, e') refl | inr e' ↦ rw (e, e') refl ]
]

ends_set : (is_set ends_taken 0 ≡ true) × (is_set ends_taken 7 ≡ true)
unfolding bit
ends_set = (refl, refl)

clear_empty : (j : ℕ) → is_set ends_taken j ≡ false → eight.entries j ≡ no_entry
clear_empty j h = elim (ℕ_discrete j 0) [
  | yes first ↦ let b : is_set ends_taken 0 ≡ false = rw first at h in absurd (cc (ends_set.0))
  | no other ↦ elim (ℕ_discrete j 7) [
    | yes last ↦ let b : is_set ends_taken 7 ≡ false = rw last at h in absurd (cc (ends_set.1))
    | no inner ↦ ground arith
  ]
]

eight-IsSound : IsSound eight
unfolding bit
eight-IsSound = record {
  free_valid = ends_taken-IsValid;
  swappable_valid = ends_taken-IsValid;
  free_length = refl;
  swappable_length = refl;
  fits = omega arith;
  empty = clear_empty;
  unclaimed = λ j h. h;
  behind = λ j h. absurd (cc (no_range (j + 1)));
}

locate_range-Located_example : Ends (Located 8 in_free 3 both) (locate_range 8 in_free 3 both)
locate_range-Located_example =
    locate_range-Located 8 3 in_free both ends_taken-IsValid ends_taken-IsValid refl refl
      (omega arith) (omega arith)

coremap_free_page-allocate_example :
    Ends
      (Returned eight eight-IsSound 3 (omega arith) false 5 4096)
      (coremap_allocate_page false 5 3 4096 eight)
coremap_free_page-allocate_example =
    coremap_free_page-allocate eight eight-IsSound 3 (omega arith) false 5 4096 (omega arith)
