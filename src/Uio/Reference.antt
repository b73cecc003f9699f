-- ===== src/Uio/Reference.antt =====
-- A reference for uiomove in kernel memory that takes the iovecs one by one.
use cse.Base.{ℕ, ◌+◌, ◌-◌, ◌≡◌, ◌⊎◌, inl, inr, refl, sym, ◌∙◌, Bool, List, [], ◌∷◌, arith}
use cse.Copy.{Mem, success}
use cse.Uio.{Iovec, UioRw, uio_read, uio_write, uio_sysspace, transfer, chunk}
use cse.Uio.Move.{memmove, memmove-nothing}

-- The bytes that the iovecs have room for.
abbrev pub room : List Iovec → ℕ
room [] = 0
room (v ∷ vs) = v.len + room vs

abbrev pub move : UioRw → ℕ → ℕ → ℕ → Mem → Mem
move uio_read ptr base size mem = memmove base ptr size mem
move uio_write ptr base size mem = memmove ptr base size mem

-- The iovecs in order, each with as many of the `n` bytes as it has room for.
abbrev pub moves : UioRw → ℕ → ℕ → List Iovec → Mem → Mem
moves dir ptr n [] mem = mem
moves dir ptr n (v ∷ vs) mem =
    moves dir (ptr + chunk n v.len) (n - chunk n v.len) vs (move dir ptr v.base (chunk n v.len) mem)

move-nothing : (dir : UioRw) (ptr base : ℕ) (mem : Mem) → move dir ptr base 0 mem ≡ mem
move-nothing uio_read ptr base mem = memmove-nothing base ptr mem
move-nothing uio_write ptr base mem = memmove-nothing ptr base mem

-- An iovec that takes no byte can be left out.
pub moves-skip :
    (dir : UioRw) (ptr n : ℕ) (v : Iovec) (vs : List Iovec) (mem : Mem)
    → chunk n v.len ≡ 0
    → moves dir ptr n (v ∷ vs) mem ≡ moves dir ptr n vs mem
moves-skip dir ptr n v vs mem e =
    let p : ptr + 0 ≡ ptr = omega arith in
    let q : n - 0 ≡ n = omega arith in rw (e, move-nothing dir ptr v.base mem, p, q) refl

pub moves-nothing :
    (dir : UioRw) (ptr n : ℕ) (vs : List Iovec) (mem : Mem)
    → (n ≡ 0) ⊎ (room vs ≡ 0)
    → moves dir ptr n vs mem ≡ mem
moves-nothing dir ptr n [] mem h = refl
moves-nothing dir ptr n (v ∷ vs) mem h =
    let later : (n ≡ 0) ⊎ (room vs ≡ 0) = elim h [
      | inl asked ↦ inl asked
      | inr full ↦ inr (omega arith)
    ] in
    moves-skip dir ptr n v vs mem (elim h [ inl asked ↦ ground arith | inr full ↦ ground arith ])
    ∙ moves-nothing dir ptr n vs mem later

-- A round leaves the rest of the work.
pub moves-split :
    (dir : UioRw) (ptr n size : ℕ) (v : Iovec) (vs : List Iovec) (mem : Mem)
    → size ≡ chunk n v.len
    → moves dir ptr n (v ∷ vs) mem
      ≡ moves dir
          (ptr + size)
          (n - size)
          (record { base = v.base + size; len = v.len - size } ∷ vs)
          (move dir ptr v.base size mem)
moves-split dir ptr n size v vs mem e = rw (sym e) (
    sym (
      moves-skip dir (ptr + size) (n - size) (record { base = v.base + size; len = v.len - size })
        vs (move dir ptr v.base size mem) (ground arith)))

pub transfer-move :
    (touch : ℕ → Bool) (dir : UioRw) (ptr base size : ℕ) (mem : Mem)
    → transfer touch uio_sysspace dir ptr base size mem ≡ (success, move dir ptr base size mem)
unfolding transfer
transfer-move touch uio_read ptr base size mem = refl
transfer-move touch uio_write ptr base size mem = refl
