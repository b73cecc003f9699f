-- ===== src/Uio.antt =====
-- kern/lib/uio.c with memmove of common/libc/string/memmove.c (Uio/Move): blocks of data between a
-- kernel buffer and the buffers of a uio. `touch` is as in Copy, and `curas` is what proc_getas answers.
-- Sizes have 32 bits and offsets 64, which wrap; a pointer is an address without wrap-around, as in
-- Copy.
pub mod Move
pub mod Reference
pub mod Cover
pub mod Progress
pub mod Round
pub mod Moved
pub mod Kernel
pub mod Zeros
mod Tests
use cse.Base.{
  ℕ, zero, suc, ◌+◌, ◌-◌, ◌*◌, ◌%◌, ◌^◌, Bool, true, false, ◌||◌, Option, none, some, List, [], ◌∷◌,
  length, ltb, ◌==◌, if◌then◌else◌, Run, done, panic, fault, out_of_fuel, ◌>>=◌, ◌>>◌, kassert,
}
use cse.Copy.{Mem, Code, success, efault, enametoolong, copyin, copyout}
use cse.Uio.Move.{memmove}

-- The two pointers of the union are one address.
pub record Iovec : Type 0 where
  pub base : ℕ
  pub len : ℕ

pub data UioRw : Type 0 where
  uio_read uio_write : UioRw

pub data UioSeg : Type 0 where
  uio_userispace uio_userspace uio_sysspace : UioSeg

-- `iov` has the iovecs from uio_iov to the end of their block, and `offset` the 64 bits of uio_offset.
pub record Uio : Type 0 where
  pub iov : List Iovec
  pub iovcnt : ℕ
  pub offset : ℕ
  pub resid : ℕ
  pub segflg : UioSeg
  pub rw_flag : UioRw
  pub space : Option ℕ

-- The variables of uiomove's loop, and memory.
pub record Loop : Type 0 where
  pub ptr : ℕ
  pub n : ℕ
  pub uio : Uio
  pub mem : Mem

-- How a round of the loop ends: with the next one, or the call with a code.
pub data Next : Type 0 where
  again : Loop → Next
  fails : Code → Loop → Next

-- `switch (uio->uio_segflg)`, with the copy that it chooses.
unfoldable pub transfer : (ℕ → Bool) → UioSeg → UioRw → ℕ → ℕ → ℕ → Mem → Code × Mem
transfer touch uio_sysspace uio_read ptr base size mem = (success, memmove base ptr size mem)
transfer touch uio_sysspace uio_write ptr base size mem = (success, memmove ptr base size mem)
transfer touch uio_userspace uio_read ptr base size mem = copyout touch ptr base size mem
transfer touch uio_userspace uio_write ptr base size mem = copyin touch base ptr size mem
transfer touch uio_userispace uio_read ptr base size mem = copyout touch ptr base size mem
transfer touch uio_userispace uio_write ptr base size mem = copyin touch base ptr size mem

-- `size`, for the first iovec
abbrev pub chunk : ℕ → ℕ → ℕ
chunk n len = if ltb n len then n else len

-- The end of a round behind a copy of `size` bytes.
unfoldable pub moved_on : Loop → Iovec → List Iovec → ℕ → Mem → Loop
moved_on m v rest size mem = record {
  ptr = m.ptr + size;
  n = m.n - size;
  uio = record (m.uio) {
    iov = record { base = v.base + size; len = v.len - size } ∷ rest;
    offset = (m.uio.offset + size) % 2 ^ 64;
    resid = (m.uio.resid + (2 ^ 32 - size)) % 2 ^ 32;
  };
  mem = mem;
}

-- What follows the copy, by its code.
unfoldable pub copied : Loop → Iovec → List Iovec → ℕ → Code × Mem → Next
copied m v rest size (success, mem) = again (moved_on m v rest size mem)
copied m v rest size (efault, mem) = fails efault (record m { mem = mem })
copied m v rest size (enametoolong, mem) = fails enametoolong (record m { mem = mem })

-- `iovcnt` after it is counted down, in 32 bits
abbrev pub count_down : ℕ → ℕ
count_down iovcnt = (iovcnt + (2 ^ 32 - 1)) % 2 ^ 32

-- A round of the loop, with `v` the first iovec.
unfoldable pub uiomove_round : (ℕ → Bool) → Loop → Iovec → List Iovec → Run Next
unfolding transfer copied
uiomove_round touch m v rest =
    let size : ℕ = chunk m.n v.len in
    let onward : Loop = record m {
      uio = record (m.uio) { iov = rest; iovcnt = count_down m.uio.iovcnt };
    } in
    let mem : Code × Mem = transfer touch m.uio.segflg m.uio.rw_flag m.ptr v.base size m.mem in
    if size == 0
    then (if count_down m.uio.iovcnt == 0 then panic else done (again onward))
    else done (copied m v rest size mem)

-- The first iovec is read whatever uio_iovcnt says.
unfoldable pub first_iovec : (ℕ → Bool) → Loop → List Iovec → Run Next
unfolding uiomove_round
first_iovec touch m [] = fault
first_iovec touch m (v ∷ rest) = uiomove_round touch m v rest

unfoldable pub follow : (Loop → Run (Code × Loop)) → Next → Run (Code × Loop)
follow onward (again m) = onward m
follow onward (fails code m) = done (code, m)

-- The loop; its first argument is fuel.
unfoldable pub uiomove_loop : (ℕ → Bool) → ℕ → Loop → Run (Code × Loop)
unfolding first_iovec follow
uiomove_loop touch zero m = out_of_fuel
uiomove_loop touch (suc fuel) m =
    let round : Run (Code × Loop) =
      first_iovec touch m m.uio.iov >>= follow (uiomove_loop touch fuel) in
    if m.n == 0 || m.uio.resid == 0 then done (success, m) else round

abbrev pub same_space : Option ℕ → Option ℕ → Bool
same_space none none = true
same_space none (some other) = false
same_space (some cur) none = false
same_space (some cur) (some other) = cur == other

-- Is the space of the uio the one in context?
abbrev pub in_space : Option ℕ → UioSeg → Option ℕ → Bool
in_space curas uio_sysspace none = true
in_space curas uio_sysspace (some other) = false
in_space curas uio_userspace own = same_space curas own
in_space curas uio_userispace own = same_space curas own

-- Each iovec takes two rounds at most: one that copies, and one that goes on to the next.
abbrev pub rounds : Uio → ℕ
rounds u = 2 * length u.iov + 1

unfoldable pub uiomove : (ℕ → Bool) → Option ℕ → ℕ → ℕ → Uio → Mem → Run (Code × Uio × Mem)
unfolding uiomove_loop
uiomove touch curas ptr n uio mem =
    kassert (in_space curas uio.segflg uio.space)
    >> (uiomove_loop touch (rounds uio) (record { ptr = ptr; n = n; uio = uio; mem = mem }) >>= λ r.
        done (r.0, r.1.uio, r.1.mem))

-- What uiomovezeros does behind uiomove, by its code.
unfoldable pub zeros_moved :
    (Uio → Mem → Run (Code × Uio × Mem)) → Code × Uio × Mem → Run (Code × Uio × Mem)
zeros_moved onward (success, u, mem) = onward u mem
zeros_moved onward (efault, u, mem) = done (efault, u, mem)
zeros_moved onward (enametoolong, u, mem) = done (enametoolong, u, mem)

-- The loop of uiomovezeros with `n` bytes left; its first argument is fuel.
unfoldable pub zeros_loop : (ℕ → Bool) → Option ℕ → ℕ → ℕ → ℕ → Uio → Mem → Run (Code × Uio × Mem)
unfolding uiomove zeros_moved
zeros_loop touch curas block zero n uio mem = out_of_fuel
zeros_loop touch curas block (suc fuel) n uio mem =
    let amt : ℕ = chunk n 16 in
    let round : Run (Code × Uio × Mem) =
      uiomove touch curas block amt uio mem
      >>= zeros_moved (zeros_loop touch curas block fuel (n - amt)) in
    if n == 0 then done (success, uio, mem) else round

abbrev pub is_read : UioRw → Bool
is_read uio_read = true
is_read uio_write = false

-- `block` is the address of the static block of 16 zeros.
unfoldable pub uiomovezeros : (ℕ → Bool) → Option ℕ → ℕ → ℕ → Uio → Mem → Run (Code × Uio × Mem)
unfolding zeros_loop
uiomovezeros touch curas block n uio mem =
    kassert (is_read uio.rw_flag) >> zeros_loop touch curas block (suc n) n uio mem

unfoldable pub uio_kinit : ℕ → ℕ → ℕ → UioRw → Uio
uio_kinit kbuf len pos rw_flag = record {
  iov = record { base = kbuf; len = len } ∷ [];
  iovcnt = 1;
  offset = pos;
  resid = len;
  segflg = uio_sysspace;
  rw_flag = rw_flag;
  space = none;
}
