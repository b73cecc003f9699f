-- ===== src/Bitmap.antt =====
-- kern/lib/bitmap.c: the fixed-size array of bits, in a block of bytes.
pub mod Byte
pub mod Bits
pub mod Alloc
pub mod Create
mod Tests
use Prim.Native.Nat.{bit_and, bit_or}
use cse.Base.{
  ℕ, zero, suc, ◌+◌, ◌-◌, ◌*◌, ◌/◌, ◌%◌, ◌^◌, Bool, true, false, Option, none, some, update, ltb,
  ◌==◌, if◌then◌else◌, Status, success, enospc, Run, done, panic, fault, kassert, ◌>>=◌, ◌>>◌,
}

abbrev pub bits_per_word : ℕ
bits_per_word = 8

abbrev pub word_allbits : ℕ
word_allbits = 0xff

-- A block of bytes from kmalloc.
pub record Bytes : Type 0 where
  pub mem : ℕ → ℕ
  pub size : ℕ

pub record Bitmap : Type 0 where
  pub nbits : ℕ
  pub v : Bytes

-- DIVROUNDUP(nbits, BITS_PER_WORD)
abbrev pub words : ℕ → ℕ
words nbits = (nbits + bits_per_word - 1) / bits_per_word

-- `b->v[ix]`, read and written
pub load : Bitmap → ℕ → Run ℕ
load b ix = if ltb ix b.v.size then done (b.v.mem ix) else fault

pub stored : Bitmap → ℕ → ℕ → Bitmap
stored b ix byte = record b { v = record (b.v) { mem = update b.v.mem ix byte } }

pub store : Bitmap → ℕ → ℕ → Run Bitmap
unfolding stored
store b ix byte = if ltb ix b.v.size then done (stored b ix byte) else fault

-- `(WORD_TYPE)1 << offset`
abbrev pub mask : ℕ → ℕ
mask offset = 2 ^ offset

-- `for (j=overbits; j<BITS_PER_WORD; j++) byte |= 1 << j`, with `n` rounds left
pub fill_loop : ℕ → ℕ → ℕ → ℕ
fill_loop zero j byte = byte
fill_loop (suc n) j byte = fill_loop n (j + 1) (bit_or byte (mask j))

-- The two allocations are answered by `mem_map` and `mem_bits`. The block holds zeros (bzero).
pub bitmap_create : Bool → Bool → ℕ → Run (Option Bitmap)
unfolding load store fill_loop
bitmap_create mem_map mem_bits nbits =
    let b : Bitmap = record { nbits = nbits; v = record { mem = λ ix. 0; size = words nbits } } in
    let ix = words nbits - 1 in
    let overbits = nbits - ix * bits_per_word in
    let leftover : Run (Option Bitmap) = do
      kassert (nbits / bits_per_word == words nbits - 1)
      kassert (ltb 0 overbits)
      kassert (ltb overbits bits_per_word)
      byte ← load b ix
      b' ← store b ix (fill_loop (bits_per_word - overbits) overbits byte)
      done (some b')
    in if mem_map
      then (if mem_bits
          then (if ltb (nbits / bits_per_word) (words nbits) then leftover else done (some b))
          else done none)
      else done none

-- The inner loop of bitmap_alloc_after: the first clear bit of the byte from `offset` on, with `n`
-- rounds left.
pub find_clear : ℕ → ℕ → ℕ → Option ℕ
find_clear zero offset byte = none
find_clear (suc n) offset byte =
    if bit_and byte (mask offset) == 0 then some offset else find_clear n (offset + 1) byte

-- What the function does with the bit that it found in word `ix`.
pub claim : Bitmap → ℕ → ℕ → ℕ → Run (Status × ℕ × Bitmap)
unfolding store
claim b ix byte offset = do
  b' ← store b ix (bit_or byte (mask offset))
  let index = ix * bits_per_word + offset
  kassert (ltb index b.nbits)
  done (success, index, b')

-- The rest of the body of the outer loop: a bit was found in word `ix`, or `if(!first) KASSERT(0)`
-- runs and the loop goes on.
pub finish_word :
    Option ℕ → Bitmap → ℕ → ℕ → Bool → Run (Status × ℕ × Bitmap) → Run (Status × ℕ × Bitmap)
unfolding claim
finish_word (some offset) b ix byte first onward = claim b ix byte offset
finish_word none b ix byte first onward = kassert first >> onward

-- The outer loop, with `n` words left. `*index` is written on success only.
pub word_loop : ℕ → Bitmap → ℕ → ℕ → Bool → Run (Status × ℕ × Bitmap)
word_loop zero b ix offset first = done (enospc, 0, b)
word_loop (suc n) b ix offset first = load b ix >>= λ byte.
    let from = if first then offset else 0 in
    let full = word_loop n b (ix + 1) offset false in
    let missed = word_loop n b (ix + 1) bits_per_word false in
    let found = find_clear (bits_per_word - from) from byte in
    if byte == word_allbits then full else finish_word found b ix byte first missed

pub bitmap_alloc_after : Bitmap → ℕ → Run (Status × ℕ × Bitmap)
unfolding word_loop find_clear finish_word load
bitmap_alloc_after b min =
    let ix = min / bits_per_word in word_loop (words b.nbits - ix) b ix (min % bits_per_word) true

pub bitmap_alloc : Bitmap → Run (Status × ℕ × Bitmap)
unfolding bitmap_alloc_after
bitmap_alloc b = bitmap_alloc_after b 0

pub bitmap_mark : Bitmap → ℕ → Run Bitmap
unfolding load store
bitmap_mark b index = do
  kassert (ltb index b.nbits)
  let ix = index / bits_per_word
  let m = mask (index % bits_per_word)
  byte ← load b ix
  kassert (bit_and byte m == 0)
  store b ix (bit_or byte m)

-- `byte &= ~mask` on a byte
pub bitmap_unmark : Bitmap → ℕ → Run Bitmap
unfolding load store
bitmap_unmark b index = do
  kassert (ltb index b.nbits)
  let ix = index / bits_per_word
  let m = mask (index % bits_per_word)
  byte ← load b ix
  store b ix (bit_and byte (word_allbits - m))

-- The int that the function returns: 0 for a clear bit.
pub bitmap_isset : Bitmap → ℕ → Run ℕ
unfolding load
bitmap_isset b index = do
  byte ← load b (index / bits_per_word)
  done (bit_and byte (mask (index % bits_per_word)))
