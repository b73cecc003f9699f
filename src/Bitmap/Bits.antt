-- ===== src/Bitmap/Bits.antt =====
-- A bitmap as the truth of each bit: what reading, marking and unmarking do to it.
use Prim.Native.Nat.{bit_and, bit_or}
use cse.Base.{
  ℕ, ◌-◌, ◌*◌, ◌/◌, ◌%◌, ◌≤◌, ◌<◌, ◌≡◌, refl, Bool, true, false, not, ◌&&◌, ◌||◌, arith, ◌==◌, Run,
  panic, Ends,
}
use cse.Bitmap.{
  Bitmap, word_allbits, words, mask, load, store, stored, bitmap_mark, bitmap_unmark, bitmap_isset,
}
use cse.Bitmap.Byte.{bit, bit-or, bit-and, bit_test}

-- Bit `j` of the map.
abbrev pub is_set : Bitmap → ℕ → Bool
is_set b j = bit (b.v.mem (j / 8)) (j % 8)

-- The words are bytes, there are as many as the bits need, and the leftover bits are in use.
pub record IsValid (b : Bitmap) : Type 0 where
  pub sized : b.v.size ≡ words b.nbits
  pub byte : (ix : ℕ) → b.v.mem ix < 256
  pub leftover : (j : ℕ) → b.nbits ≤ j → j < b.v.size * 8 → is_set b j ≡ true

-- `b'` is `b` with bit `i` set, or cleared; all other bits are kept.
abbrev pub Marked : Bitmap → ℕ → Bitmap → Type 0
Marked b i b' = IsValid b' × (b'.nbits ≡ b.nbits) × ((j : ℕ) → is_set b' j ≡ (i == j || is_set b j))

abbrev pub Unmarked : Bitmap → ℕ → Bitmap → Type 0
Unmarked b i b' =
    IsValid b' × (b'.nbits ≡ b.nbits) × ((j : ℕ) → is_set b' j ≡ (not (i == j) && is_set b j))

-- How bitmap_mark ends on a bit that is set, or clear.
abbrev pub MarkEnds : Bitmap → ℕ → Bool → Run Bitmap → Type 0
MarkEnds b i true r = r ≡ panic
MarkEnds b i false r = Ends (Marked b i) r

module _ (b : Bitmap) (valid : IsValid b) (i : ℕ) (inside : i < b.nbits) where
  abbrev ix : ℕ
  ix = i / 8

  abbrev off : ℕ
  off = i % 8

  in_block : ix < b.v.size
  in_block = omega (arith, valid.sized)

  abbrev marked : Bitmap
  marked = stored b ix (bit_or (b.v.mem ix) (mask off))

  abbrev unmarked : Bitmap
  unmarked = stored b ix (bit_and (b.v.mem ix) (word_allbits - mask off))

  is_set-marked : (j : ℕ) → is_set marked j ≡ (i == j || is_set b j)
  unfolding stored
  is_set-marked j =
      ground (arith, bit-or (b.v.mem ix) off (j % 8) (valid.byte ix) (omega arith) (omega arith))

  is_set-unmarked : (j : ℕ) → is_set unmarked j ≡ (not (i == j) && is_set b j)
  unfolding stored
  is_set-unmarked j =
      ground (arith, bit-and (b.v.mem ix) off (j % 8) (valid.byte ix) (omega arith) (omega arith))

  pub marked-Marked : Marked b i marked
  unfolding stored
  marked-Marked = (
    record {
      sized = valid.sized;
      byte = λ k.
          ground (arith, valid.byte k, bit_test (b.v.mem ix) off (valid.byte ix) (omega arith));
      leftover = λ j p q. ground (arith, is_set-marked j, valid.leftover j p q);
    },
    refl,
    is_set-marked,
  )

  unmarked-Unmarked : Unmarked b i unmarked
  unfolding stored
  unmarked-Unmarked = (
    record {
      sized = valid.sized;
      byte = λ k.
          ground (arith, valid.byte k, bit_test (b.v.mem ix) off (valid.byte ix) (omega arith));
      leftover = λ j p q. ground (arith, is_set-unmarked j, valid.leftover j p q);
    },
    refl,
    is_set-unmarked,
  )

  -- bitmap_isset returns 0 for exactly the clear bits.
  pub bitmap_isset_lem : Ends (λ r. (r == 0) ≡ not (is_set b i)) (bitmap_isset b i)
  unfolding bitmap_isset load
  bitmap_isset_lem = (
    bit_and (b.v.mem ix) (mask off),
    ground (arith, in_block),
    (bit_test (b.v.mem ix) off (valid.byte ix) (omega arith)).0,
  )

  -- bitmap_mark sets a clear bit and no other, and fails its KASSERT on a set one.
  pub bitmap_mark_lem :
      (is_set b i ≡ false → Ends (Marked b i) (bitmap_mark b i))
      × (is_set b i ≡ true → bitmap_mark b i ≡ panic)
  unfolding bitmap_mark load store
  bitmap_mark_lem =
      let test = bit_test (b.v.mem ix) off (valid.byte ix) (omega arith) in
      (
        λ clear. (marked, ground (arith, in_block, test), marked-Marked),
        λ taken. ground (arith, in_block, test),
      )

  -- bitmap_unmark clears a bit, set or not, and no other.
  pub bitmap_unmark_lem : Ends (Unmarked b i) (bitmap_unmark b i)
  unfolding bitmap_unmark load store
  bitmap_unmark_lem = (unmarked, ground (arith, in_block), unmarked-Unmarked)

  -- On a valid map, for an index in range, bitmap_isset returns 0 for exactly the clear bits;
  -- bitmap_unmark clears the bit, set or not, and no other; bitmap_mark sets a clear bit and no other,
  -- and fails its KASSERT on a bit that is set. Both keep the map valid.
  pub bitmap_bits_lem :
      Ends (λ r. (r == 0) ≡ not (is_set b i)) (bitmap_isset b i)
      × Ends (Unmarked b i) (bitmap_unmark b i)
      × MarkEnds b i (is_set b i) (bitmap_mark b i)
  bitmap_bits_lem = (bitmap_isset_lem, bitmap_unmark_lem, mark_ends (is_set b i) refl)
    where
      mark_ends : (set : Bool) → is_set b i ≡ set → MarkEnds b i set (bitmap_mark b i)
      mark_ends true taken = bitmap_mark_lem.1 taken
      mark_ends false clear = bitmap_mark_lem.0 clear
