-- ===== src/Uio/Kernel.antt =====
-- uio_kinit and uiomove in turn, and uiomovezeros.
use cse.Base.{
  ℕ, ◌+◌, ◌%◌, ◌^◌, ◌≤◌, ◌<◌, ◌≡◌, inl, inr, refl, Bool, Option, arith, Ends, Ends-weaken, ap, ◌∙◌,
}
use cse.Copy.{Mem, Code, success}
use cse.Uio.{UioRw, uio_read, uio_write, Uio, uiomove, chunk, uio_kinit}
use cse.Uio.Move.{memmove-block, block}
use cse.Uio.Reference.{move}
use cse.Uio.Progress.{IsValid}
use cse.Uio.Moved.{both}

-- The kernel's buffer and that of the uio, one of which is copied to the other.
abbrev pub block_of : UioRw → ℕ → ℕ → ℕ → Mem → Mem
block_of uio_read ptr base size mem = block base ptr size mem
block_of uio_write ptr base size mem = block ptr base size mem

move-block :
    (dir : UioRw) (ptr base size : ℕ) (mem : Mem) (a : ℕ)
    → move dir ptr base size mem a ≡ block_of dir ptr base size mem a
move-block uio_read ptr base size mem a = memmove-block base ptr size mem a
move-block uio_write ptr base size mem a = memmove-block ptr base size mem a

kinit-IsValid :
    (kbuf len pos : ℕ) (dir : UioRw)
    → len < 2 ^ 32
    → pos < 2 ^ 64
    → kbuf + len ≤ 2 ^ 32
    → IsValid (uio_kinit kbuf len pos dir)
unfolding uio_kinit
kinit-IsValid kbuf len pos dir small position fits = record {
  counted = refl;
  few = omega arith;
  whole = omega arith;
  small = small;
  position = position;
  placed = (fits, tt);
}

-- What uiomove returns for a uio of uio_kinit.
abbrev pub OneBlock : UioRw → ℕ → ℕ → ℕ → ℕ → ℕ → Mem → Code × Uio × Mem → Type 0
OneBlock dir ptr n kbuf len pos mem (code, u', mem') =
    (code ≡ success)
    × (u'.resid + chunk n len ≡ len)
    × (u'.offset ≡ (pos + chunk n len) % 2 ^ 64)
    × ((a : ℕ) → mem' a ≡ block_of dir ptr kbuf (chunk n len) mem a)

-- For a buffer in the address space and a size that a size_t can have, uiomove with the uio of uio_kinit
-- returns 0 and copies the smaller of `n` and `len` bytes between the two buffers, as if all were
-- read before the first is written, and no byte outside the destination is changed; uio_resid and
-- uio_offset count them.
pub uiomove-kinit :
    (touch : ℕ → Bool) (curas : Option ℕ) (ptr n kbuf len pos : ℕ) (dir : UioRw) (mem : Mem)
    → n < 2 ^ 32
    → len < 2 ^ 32
    → pos < 2 ^ 64
    → kbuf + len ≤ 2 ^ 32
    → Ends
        (OneBlock dir ptr n kbuf len pos mem)
        (uiomove touch curas ptr n (uio_kinit kbuf len pos dir) mem)
unfolding uio_kinit
uiomove-kinit touch curas ptr n kbuf len pos dir mem small whole position fits =
    Ends-weaken _ _ _
      (both touch curas ptr n (uio_kinit kbuf len pos dir) mem
        (kinit-IsValid kbuf len pos dir whole position fits) refl small)
      (λ r h.
        let (ok, same) = h.1 refl in
        let (k, le, moved, how) = h.0 in
        let all : k ≡ chunk n len = elim how [
          | inl (_, inl asked) ↦ ground (arith, moved.resid)
          | inl (_, inr full) ↦ ground arith
          | inr (_, user) ↦ absurd (user refl)
        ] in
        (
          ok,
          omega (arith, moved.resid),
          moved.offset ∙ ap (λ x. (pos + x) % 2 ^ 64) all,
          λ a. ap (λ f. f a) same ∙ move-block dir ptr kbuf (chunk n len) mem a,
        ))
