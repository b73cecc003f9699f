-- ===== src/Bitmap/Tests.antt =====
-- The bitmap at concrete inputs: ten bits, of which the first nine are in use.
use cse.Base.{ℕ, zero, suc, ◌+◌, ◌-◌, ◌<◌, ◌≡◌, refl, true, not, arith, update, ◌==◌, Ends}
use cse.Bitmap.{Bitmap, bitmap_alloc_after, bitmap_mark, bitmap_unmark, bitmap_isset}
use cse.Bitmap.Byte.{bit}
use cse.Bitmap.Bits.{IsValid, Unmarked, is_set, MarkEnds, bitmap_bits_lem}
use cse.Bitmap.Alloc.{Allocated, bitmap_alloc_after_lem}

abbrev nine : Bitmap
nine = record { nbits = 10; v = record { mem = update (update (λ i. 0) 0 0xff) 1 0xfd; size = 2 } }

tail_set : (k : ℕ) → k < 6 → is_set nine (10 + k) ≡ true
unfolding bit
tail_set zero h = refl
tail_set (suc zero) h = refl
tail_set (suc (suc zero)) h = refl
tail_set (suc (suc (suc zero))) h = refl
tail_set (suc (suc (suc (suc zero)))) h = refl
tail_set (suc (suc (suc (suc (suc zero))))) h = refl
tail_set (suc (suc (suc (suc (suc (suc k)))))) h = absurd (omega arith)

nine-IsValid : IsValid nine
nine-IsValid = record {
  sized = refl;
  byte = λ ix. ground arith;
  leftover =
      λ j p q. let e : 10 + (j - 10) ≡ j = omega arith in rw e at (tail_set (j - 10) (omega arith));
}

bitmap_alloc_after_lem_example : Ends (Allocated nine 5) (bitmap_alloc_after nine 5)
bitmap_alloc_after_lem_example = bitmap_alloc_after_lem nine nine-IsValid 5

bitmap_bits_lem_example :
    Ends (λ r. (r == 0) ≡ not (is_set nine 9)) (bitmap_isset nine 9)
    × Ends (Unmarked nine 9) (bitmap_unmark nine 9)
    × MarkEnds nine 9 (is_set nine 9) (bitmap_mark nine 9)
bitmap_bits_lem_example = bitmap_bits_lem nine nine-IsValid 9 (omega arith)
