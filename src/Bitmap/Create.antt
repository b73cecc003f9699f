-- ===== src/Bitmap/Create.antt =====
-- bitmap_create gives a map of clear bits, with the leftover bits of the last word in use.
use Prim.Native.Nat.{bit_or}
use cse.Base.{
  ℕ, zero, suc, ◌+◌, ◌-◌, ◌*◌, ◌/◌, ◌%◌, ◌<◌, ◌≡◌, refl, Bool, true, false, ◌&&◌, ◌||◌, arith, ltb,
  leb, ◌==◌, Ends, Option, none, some, Bool-cases, inl, inr,
}
use cse.Bitmap.{Bitmap, words, mask, load, store, stored, fill_loop, bitmap_create}
use cse.Bitmap.Byte.{bit, bit-or, bit_test, bit_zero}
use cse.Bitmap.Bits.{is_set, IsValid}

-- The loop sets the bits from `j` on and keeps those below.
fill_loop-bit :
    (n j byte q : ℕ)
    → j + n ≡ 8
    → byte < 256
    → q < 8
    → (bit (fill_loop n j byte) q ≡ (leb j q || bit byte q)) × (fill_loop n j byte < 256)
unfolding fill_loop
fill_loop-bit zero j byte q e hb hq = ground arith
fill_loop-bit (suc n) j byte q e hb hq =
    let test = bit_test byte j hb (omega arith) in
    ground (
      arith,
      fill_loop-bit n (j + 1) (bit_or byte (mask j)) q (omega arith) test.1 hq,
      bit-or byte j q hb (omega arith) hq,
    )

-- A new map: valid, and every bit clear.
abbrev pub Fresh : ℕ → Bitmap → Type 0
Fresh nbits b = IsValid b × (b.nbits ≡ nbits) × ((j : ℕ) → j < nbits → is_set b j ≡ false)

-- the map before the leftover bits are marked
abbrev blank : ℕ → Bitmap
blank nbits = record { nbits = nbits; v = record { mem = λ ix. 0; size = words nbits } }

blank-Fresh : (nbits : ℕ) → nbits % 8 ≡ 0 → Fresh nbits (blank nbits)
blank-Fresh nbits whole = (
  record { sized = refl; byte = λ ix. omega arith; leftover = λ j p q. absurd (omega arith) },
  refl,
  λ j p. bit_zero (j % 8) (omega arith),
)

module _ (nbits : ℕ) (part : 0 < nbits % 8) where
  abbrev last : ℕ
  last = words nbits - 1

  abbrev over : ℕ
  over = nbits - last * 8

  abbrev filled : Bitmap
  filled = stored (blank nbits) last (fill_loop (8 - over) over 0)

  last_bits :
      (q : ℕ)
      → q < 8
      → (bit (fill_loop (8 - over) over 0) q ≡ leb over q) × (fill_loop (8 - over) over 0 < 256)
  last_bits q hq =
      ground
        (arith, fill_loop-bit (8 - over) over 0 q (omega arith) (omega arith) hq, bit_zero q hq)

  filled-Fresh : Fresh nbits filled
  unfolding stored
  filled-Fresh = (
    record {
      sized = refl;
      byte = λ ix. ground (arith, last_bits 0 (omega arith));
      leftover = λ j p q. ground (arith, last_bits (j % 8) (omega arith));
    },
    refl,
    λ j p. ground (arith, last_bits (j % 8) (omega arith), bit_zero (j % 8) (omega arith)),
  )

abbrev pub Created : Bool → ℕ → Option Bitmap → Type 0
Created true nbits r = (b : Bitmap) × (r ≡ some b) × Fresh nbits b
Created false nbits r = r ≡ none

-- What bitmap_create answers: NULL if an allocation fails, and else a fresh map. No KASSERT fails.
pub bitmap_create-Fresh :
    (mem_map mem_bits : Bool) (nbits : ℕ)
    → Ends (Created (mem_map && mem_bits) nbits) (bitmap_create mem_map mem_bits nbits)
unfolding bitmap_create load store
bitmap_create-Fresh false mem_bits nbits = (none, refl, refl)
bitmap_create-Fresh true false nbits = (none, refl, refl)
bitmap_create-Fresh true true nbits = elim (Bool-cases (nbits % 8 == 0)) [
  | inl whole ↦
      let exact : ltb (nbits / 8) (words nbits) ≡ false = ground arith in
      rw exact (some (blank nbits), refl, (blank nbits, refl, blank-Fresh nbits (ground arith)))
  | inr part ↦
      let p : 0 < nbits % 8 = ground arith in
      (some (filled nbits p), ground arith, (filled nbits p, refl, filled-Fresh nbits p))
]
