-- ===== src/Uio/Tests.antt =====
-- Runs of uiomove over two iovecs, and of memmove over blocks that overlap.
use cse.Base.{
  inr, if◌then◌else◌, leb, ltb, ◌&&◌, ℕ, ◌≡◌, refl, Bool, true, Option, none, some, [], ◌∷◌, arith,
  Run, done, panic, Ends,
}
use cse.Copy.{Mem, Code, success, efault, copyout, copycheck}
use cse.Copy as Copy
use cse.Uio.{
  Uio, uio_read, uio_write, uio_userspace, uio_sysspace, uiomove, uiomove_loop, uiomove_round,
  first_iovec, follow, transfer, copied, moved_on, zeros_moved, zeros_loop, uiomovezeros, uio_kinit,
}
use cse.Uio.Move.{memmove, memcpy, copy_up, copy_down, copy_unit}
use cse.Uio.Progress.{IsValid}
use cse.Uio.Moved.{Moves, Copies, uiomove-Moves, uiomove-Copies}
use cse.Uio.Kernel.{OneBlock, uiomove-kinit}
use cse.Uio.Zeros.{Cleared, uiomovezeros-Cleared}

-- The byte at an address is the address.
abbrev bytes : Mem
bytes a = a

abbrev all : ℕ → Bool
all a = true

-- Back to front, where the destination is in the source; the four bytes of a word in one go.
overlap_up : memmove 102 100 5 bytes 106 ≡ 104
unfolding memmove copy_down copy_unit
overlap_up = refl

overlap_down : memmove 100 102 5 bytes 104 ≡ 106
unfolding memmove memcpy copy_up copy_unit
overlap_down = refl

by_words : memmove 104 100 8 bytes 111 ≡ 107
unfolding memmove copy_down copy_unit
by_words = refl

-- Three bytes at 16 and, behind an empty iovec, five at 32.
abbrev two_blocks : Uio
two_blocks = record {
  iov =
      record { base = 16; len = 3 }
      ∷ record { base = 20; len = 0 }
      ∷ record { base = 32; len = 5 }
      ∷ [];
  iovcnt = 3;
  offset = 100;
  resid = 8;
  segflg = uio_sysspace;
  rw_flag = uio_read;
  space = none;
}

-- The same for user memory.
abbrev user_blocks : Uio
user_blocks = record (two_blocks) { segflg = uio_userspace; space = some 7 }

-- A field of what a call returns.
abbrev returned : (Code × Uio × Mem → ℕ) → Run (Code × Uio × Mem) → Option ℕ
returned f (done r) = some (f r)
returned f m = none

two_blocks_offset : returned (λ r. r.1.offset) (uiomove all none 200 6 two_blocks bytes) ≡ some 106
unfolding uiomove uiomove_loop first_iovec uiomove_round follow copied moved_on transfer
two_blocks_offset = refl

two_blocks_byte : returned (λ r. r.2 34) (uiomove all none 200 6 two_blocks bytes) ≡ some 205
unfolding uiomove uiomove_loop first_iovec uiomove_round follow copied moved_on transfer memmove
    memcpy copy_up copy_unit
two_blocks_byte = refl

user_byte : returned (λ r. r.2 33) (uiomove all (some 7) 200 6 user_blocks bytes) ≡ some 204
unfolding uiomove uiomove_loop first_iovec uiomove_round follow copied moved_on transfer copyout
    copycheck Copy.memcpy
user_byte = refl

other_space : uiomove all (some 8) 200 6 user_blocks bytes ≡ panic
unfolding uiomove
other_space = refl

-- A uio whose uio_resid is too large runs out of buffers.
no_buffers : uiomove all none 200 9 (record (two_blocks) { resid = 9 }) bytes ≡ panic
unfolding uiomove uiomove_loop first_iovec uiomove_round follow copied moved_on transfer
no_buffers = refl

zeros_offset : returned (λ r. r.1.offset) (uiomovezeros all none 200 20 two_blocks bytes) ≡ some 108
unfolding uiomovezeros zeros_loop zeros_moved uiomove uiomove_loop first_iovec uiomove_round follow
    copied moved_on transfer
zeros_offset = refl

two_blocks-IsValid : IsValid two_blocks
two_blocks-IsValid = record {
  counted = refl;
  few = omega arith;
  whole = refl;
  small = omega arith;
  position = omega arith;
  placed = (omega arith, (omega arith, (omega arith, tt)));
}

user_blocks-IsValid : IsValid user_blocks
user_blocks-IsValid = record {
  counted = refl;
  few = omega arith;
  whole = refl;
  small = omega arith;
  position = omega arith;
  placed = (omega arith, (omega arith, (omega arith, tt)));
}

uiomove-Moves_example :
    Ends (Moves uio_read 200 6 user_blocks bytes) (uiomove all (some 7) 200 6 user_blocks bytes)
uiomove-Moves_example =
    uiomove-Moves all (some 7) 200 6 user_blocks bytes user_blocks-IsValid refl (omega arith)

uiomove-Copies_example :
    Ends (Copies all none 200 6 two_blocks bytes) (uiomove all none 200 6 two_blocks bytes)
uiomove-Copies_example =
    uiomove-Copies all none 200 6 two_blocks bytes two_blocks-IsValid refl (omega arith) refl

uiomove-kinit_example :
    Ends
      (OneBlock uio_write 200 6 203 5 40 bytes)
      (uiomove all none 200 6 (uio_kinit 203 5 40 uio_write) bytes)
uiomove-kinit_example =
    uiomove-kinit all none 200 6 203 5 40 uio_write bytes (omega arith) (omega arith) (omega arith)
      (omega arith)

-- Zeros at 200, numbers elsewhere.
abbrev with_zeros : Mem
with_zeros a = if leb 200 a && ltb a 216 then 0 else a

uiomovezeros-Cleared_example :
    Ends
      (Cleared all none 200 7 two_blocks with_zeros)
      (uiomovezeros all none 200 7 two_blocks with_zeros)
uiomovezeros-Cleared_example =
    uiomovezeros-Cleared all none 200 7 two_blocks with_zeros two_blocks-IsValid refl refl refl
      (λ j h. (ground arith, (inr (omega arith), (inr (omega arith), (inr (omega arith), tt)))))
