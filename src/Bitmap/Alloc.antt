-- ===== src/Bitmap/Alloc.antt =====
-- bitmap_alloc_after takes the first clear bit from `min` on.
use Prim.Native.Nat.{bit_and, bit_or}
use cse.Base.{
  ℕ, zero, suc, ◌+◌, ◌-◌, ◌*◌, ◌/◌, ◌%◌, ◌≤◌, ◌<◌, ◌≡◌, ◌≢◌, refl, Bool, true, false, arith, ltb,
  ◌==◌, if◌then◌else◌, Run, Ends, Option, none, some, ◌⊎◌, inl, inr, Status, success, enospc,
  Ends-test, Ends-weaken, Bool-cases,
}
use cse.Bitmap.{
  Bitmap, bits_per_word, word_allbits, words, mask, load, store, stored, find_clear, claim,
  finish_word, word_loop, bitmap_alloc_after, bitmap_alloc,
}
use cse.Bitmap.Byte.{bit, bit_test, bit_full, full_of_bits}
use cse.Bitmap.Bits.{is_set, IsValid, Marked, marked-Marked}

-- Every bit from `lo` up to `hi` is in use.
abbrev pub InUse : Bitmap → ℕ → ℕ → Type 0
InUse b lo hi = (j : ℕ) → lo ≤ j → j < hi → is_set b j ≡ true

-- From `lo` on: the first clear bit is found and set, or there is none and nothing changes.
abbrev pub Allocated : Bitmap → ℕ → Status × ℕ × Bitmap → Type 0
Allocated b lo (code, i, b') =
    (code ≡ enospc) × (b' ≡ b) × InUse b lo b.nbits
    ⊎ (code ≡ success)
      × (lo ≤ i)
      × (i < b.nbits)
      × (is_set b i ≡ false)
      × InUse b lo i
      × Marked b i b'

Allocated-from :
    (b : Bitmap) (lo mid : ℕ)
    → lo ≤ mid
    → InUse b lo mid
    → (r : Status × ℕ × Bitmap) → Allocated b mid r
    → Allocated b lo r
Allocated-from b lo mid h used (code, i, b') (inl (e, same, rest)) =
    inl (e, same, λ j p q. ground (arith, used j p, rest j))
Allocated-from b lo mid h used (code, i, b') (inr (e, from, inside, clear, rest, m)) =
    inr (e, omega arith, inside, clear, (λ j p q. ground (arith, used j p, rest j)), m)

-- What the inner loop finds in a byte.
abbrev Found : ℕ → ℕ → Option ℕ → Type 0
Found offset byte none = (o : ℕ) → offset ≤ o → o < 8 → bit byte o ≡ true
Found offset byte (some o) =
    (offset ≤ o)
    × (o < 8)
    × (bit byte o ≡ false)
    × ((q : ℕ) → offset ≤ q → q < o → bit byte q ≡ true)

find_clear-Found :
    (n offset byte : ℕ) → byte < 256 → offset + n ≡ 8 → Found offset byte (find_clear n offset byte)
unfolding find_clear
find_clear-Found zero offset byte hb e = λ o p q. absurd (omega arith)
find_clear-Found (suc n) offset byte hb e = elim (Bool-cases (bit byte offset)) [
  | inl taken ↦
      let test : (bit_and byte (mask offset) == 0) ≡ false =
        ground (arith, bit_test byte offset hb (omega arith)) in
      rw test (
        onward (find_clear n (offset + 1) byte)
          (find_clear-Found n (offset + 1) byte hb (omega arith)) taken)
  | inr clear ↦
      let test : (bit_and byte (mask offset) == 0) ≡ true =
        ground (arith, bit_test byte offset hb (omega arith)) in
      rw test (omega arith, omega arith, clear, λ q p r. absurd (omega arith))
]
  where
    onward :
        (r : Option ℕ) → Found (offset + 1) byte r → bit byte offset ≡ true → Found offset byte r
    onward none f taken = λ o p q. ground (arith, f o)
    onward (some o) f taken = (omega (arith, f.0), f.1, f.2, λ q p r. ground (arith, f.3 q))

module _ (b : Bitmap) (valid : IsValid b) where
  abbrev Done : ℕ → Run (Status × ℕ × Bitmap) → Type 0
  Done lo r = Ends (Allocated b lo) r

  -- A clear bit of a word is below `nbits`, so the KASSERT of the code passes.
  claim-Allocated :
      (ix o lo : ℕ)
      → ix < b.v.size
      → o < 8
      → lo ≤ ix * 8 + o
      → bit (b.v.mem ix) o ≡ false
      → InUse b lo (ix * 8 + o)
      → Done lo (claim b ix (b.v.mem ix) o)
  unfolding claim store
  claim-Allocated ix o lo hix ho from clear used =
      let i : ℕ = ix * 8 + o in
      let word : i / 8 ≡ ix = omega arith in
      let place : i % 8 ≡ o = omega arith in
      let free : is_set b i ≡ false = rw (word, place) clear in
      let inside : i < b.nbits = ground (arith, valid.leftover i, valid.sized) in
      let there : ltb ix b.v.size ≡ true = ground arith in
      let below : ltb i b.nbits ≡ true = ground arith in
      (
        (success, i, stored b ix (bit_or (b.v.mem ix) (mask o))),
        rw there (ground (arith, below)),
        inr (refl, from, inside, free, used, rw (word, place) at (marked-Marked b valid i inside)),
      )

  -- The bits of the words passed over are in use.
  word-InUse :
      (ix from : ℕ)
      → ((o : ℕ) → from ≤ o → o < 8 → bit (b.v.mem ix) o ≡ true)
      → InUse b (ix * 8 + from) ((ix + 1) * 8)
  word-InUse ix from set j p q =
      let word : j / 8 ≡ ix = omega arith in rw word (set (j % 8) (omega arith) (omega arith))

  finish_word-Allocated :
      (r : Option ℕ) (ix from : ℕ) (first : Bool) (onward : Run (Status × ℕ × Bitmap))
      → ix < b.v.size
      → Found from (b.v.mem ix) r
      → (first ≡ false → from ≡ 0)
      → b.v.mem ix ≢ word_allbits
      → Done ((ix + 1) * 8) onward
      → from ≤ 8
      → Done (ix * 8 + from) (finish_word r b ix (b.v.mem ix) first onward)
  unfolding finish_word
  finish_word-Allocated (some o) ix from first onward hix f start partial rest small =
      claim-Allocated ix o (ix * 8 + from) hix f.1 (omega (arith, f.0)) f.2 λ j p q.
        let word : j / 8 ≡ ix = omega (arith, f.1) in
        rw word (f.3 (j % 8) (omega arith) (omega arith))
  finish_word-Allocated none ix from true onward hix f start partial rest small =
      Ends-weaken (Allocated b ((ix + 1) * 8)) _ _ rest
        (Allocated-from b (ix * 8 + from) ((ix + 1) * 8) (omega arith) (word-InUse ix from f))
  finish_word-Allocated none ix from false onward hix f start partial rest small =
      absurd (
        partial
          (full_of_bits (b.v.mem ix) (valid.byte ix) λ o p. f o (omega (arith, start refl)) p))

  -- The outer loop from word `ix`; in the first word it starts at `offset`.
  word_loop-Allocated :
      (n ix offset : ℕ) (first : Bool)
      → n ≡ words b.nbits - ix
      → (first ≡ true → offset < 8)
      → Done (ix * 8 + (if first then offset else 0)) (word_loop n b ix offset first)
  unfolding word_loop load
  word_loop-Allocated zero ix offset first en small =
      ((enospc, 0, b), refl, inl (refl, refl, λ j p q. absurd (ground arith)))
  word_loop-Allocated (suc n) ix offset first en small =
      let hix : ix < b.v.size = omega (arith, valid.sized) in
      let there : ltb ix b.v.size ≡ true = ground arith in
      rw there (
        Ends-test _ (b.v.mem ix == word_allbits) _ _
          (λ full.
            Ends-weaken _ _ _ (word_loop-Allocated n (ix + 1) offset false (omega arith) (λ z. cc))
              (Allocated-from b _ ((ix + 1) * 8 + 0) (ground arith) (λ j p q.
                word-InUse ix 0 (λ o p q. ground (arith, bit_full o q)) j (ground arith)
                  (omega arith))))
          (λ partial.
            finish_word-Allocated (find_clear (8 - from) from (b.v.mem ix)) ix from first _ hix
              (find_clear-Found (8 - from) from (b.v.mem ix) (valid.byte ix) (ground arith))
              (λ z. ground arith) (ground arith)
              (next_word
                (word_loop-Allocated n (ix + 1) bits_per_word false (omega arith) (λ z. cc)))
              (ground arith)))
    where
      from : ℕ
      from = if first then offset else 0

      next_word :
          Done ((ix + 1) * 8 + 0) (word_loop n b (ix + 1) bits_per_word false)
          → Done ((ix + 1) * 8) (word_loop n b (ix + 1) bits_per_word false)
      next_word h = let e : (ix + 1) * 8 + 0 ≡ (ix + 1) * 8 = omega arith in rw e at h

  -- bitmap_alloc_after finds the first clear bit from `min` on, sets it and no other, and returns
  -- its index; if there is none below `nbits` it returns ENOSPC and changes nothing.
  pub bitmap_alloc_after_lem : (min : ℕ) → Ends (Allocated b min) (bitmap_alloc_after b min)
  unfolding bitmap_alloc_after
  bitmap_alloc_after_lem min =
      let e : min / 8 * 8 + min % 8 ≡ min = omega arith in
      rw e at (
        word_loop-Allocated (words b.nbits - min / 8) (min / 8) (min % 8) true refl
          (λ z. omega arith))

  -- bitmap_alloc starts at bit 0.
  pub bitmap_alloc_lem : Ends (Allocated b 0) (bitmap_alloc b)
  unfolding bitmap_alloc
  bitmap_alloc_lem = bitmap_alloc_after_lem 0
