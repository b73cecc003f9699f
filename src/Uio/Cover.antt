-- ===== src/Uio/Cover.antt =====
-- Which addresses the first bytes of a list of iovecs have, and what a copy of zeros makes of memory.
use cse.Base.{
  ℕ, ◌+◌, ◌-◌, ◌≤◌, ◌<◌, ◌≡◌, refl, ◌∙◌, Bool, false, ◌&&◌, ◌||◌, List, [], ◌∷◌, ltb, leb,
  if◌then◌else◌, arith, All, inl, inr,
}
use cse.Copy.{Mem}
use cse.Copy.Codes.{Apart}
use cse.Uio.{Iovec, uio_read, chunk}
use cse.Uio.Move.{memmove, memmove-block, block}
use cse.Uio.Reference.{moves, room}

-- Is the address one of the first `n` bytes of the iovecs?
abbrev pub within : ℕ → List Iovec → ℕ → Bool
within n [] a = false
within n (v ∷ vs) a =
    (leb v.base a && ltb a (v.base + chunk n v.len)) || within (n - chunk n v.len) vs a

pub within-zero : (vs : List Iovec) (a : ℕ) → within 0 vs a ≡ false
within-zero [] a = refl
within-zero (v ∷ vs) a =
    let none : chunk 0 v.len ≡ 0 = ground arith in rw none (ground (arith, within-zero vs a))

pub within-full : (n : ℕ) (vs : List Iovec) (a : ℕ) → room vs ≡ 0 → within n vs a ≡ false
within-full n [] a h = refl
within-full n (v ∷ vs) a h =
    let none : chunk n v.len ≡ 0 = ground arith in
    rw none (ground (arith, within-full (n - 0) vs a (omega arith)))

-- `moved` bytes of `iov` are those in front of `rest`.
abbrev pub Covers : List Iovec → ℕ → List Iovec → Type 0
Covers iov moved rest =
    (n : ℕ)
    → moved ≤ n
    → (a : ℕ) → within n iov a ≡ (within moved iov a || within (n - moved) rest a)

pub Covers-none : (iov : List Iovec) → Covers iov 0 iov
Covers-none iov n le a = let all : n - 0 ≡ n = omega arith in rw (all, within-zero iov a) refl

pub Covers-then :
    (iov mid rest : List Iovec) (k l : ℕ)
    → Covers iov k mid
    → Covers mid l rest
    → Covers iov (k + l) rest
Covers-then iov mid rest k l f g n le a =
    let first = f n (omega arith) a in
    let both = f (k + l) (omega arith) a in
    let second = g (n - k) (omega arith) a in
    let e : k + l - k ≡ l = omega arith in
    let d : n - (k + l) ≡ n - k - l = omega arith in rw (first, both, second, e, d) (ground arith)

pub Covers-skip : (v : Iovec) (vs : List Iovec) → v.len ≡ 0 → Covers (v ∷ vs) 0 vs
Covers-skip v vs empty n le a =
    let none : chunk n v.len ≡ 0 = ground arith in
    let none' : chunk 0 v.len ≡ 0 = ground arith in
    let all : n - 0 ≡ n = omega arith in rw (none, none', all) (ground (arith, within-zero vs a))

pub Covers-part :
    (v : Iovec) (vs : List Iovec) (size : ℕ)
    → size ≤ v.len
    → Covers (v ∷ vs) size (record { base = v.base + size; len = v.len - size } ∷ vs)
Covers-part v vs size le n few a =
    let whole : chunk size v.len ≡ size = ground arith in
    let none : size - size ≡ 0 = omega arith in
    let left : chunk (n - size) (v.len - size) ≡ chunk n v.len - size = ground arith in
    let rest : n - size - (chunk n v.len - size) ≡ n - chunk n v.len = ground arith in
    rw (whole, none, left, rest) (ground (arith, within-zero vs a))

-- The `n` bytes from `ptr` on are 0, and lie outside the iovecs.
abbrev pub ZerosAt : ℕ → ℕ → List Iovec → Mem → Type 0
ZerosAt ptr n vs mem =
    (j : ℕ) → j < n → (mem (ptr + j) ≡ 0) × All (λ v. Apart v.base v.len (ptr + j)) vs

-- The first `n` bytes of the iovecs are 0, and all others as before.
abbrev pub Zeroed : ℕ → List Iovec → Mem → Mem → Type 0
Zeroed n vs mem mem' = (a : ℕ) → mem' a ≡ (if within n vs a then 0 else mem a)

pub moves-Zeroed :
    (ptr n : ℕ) (vs : List Iovec) (mem : Mem)
    → ZerosAt ptr n vs mem
    → Zeroed n vs mem (moves uio_read ptr n vs mem)
moves-Zeroed ptr n [] mem z a = refl
moves-Zeroed ptr n (v ∷ vs) mem z a =
    let k : ℕ = chunk n v.len in
    let le : k ≤ v.len = ground arith in
    let few : k ≤ n = ground arith in
    let after : Mem = memmove v.base ptr k mem in
    let read : (x : ℕ) → after x ≡ block v.base ptr k mem x =
      λ x. memmove-block v.base ptr k mem x in
    let clear : ZerosAt (ptr + k) (n - k) vs after = λ j h.
      let here = z (k + j) (omega arith) in
      let at : ptr + k + j ≡ ptr + (k + j) = omega arith in
      let kept : after (ptr + (k + j)) ≡ 0 = read (ptr + (k + j)) ∙ elim here.1.0 [
        | inl front ↦ ground (arith, here.0)
        | inr back ↦ ground (arith, here.0)
      ] in
      rw at (kept, here.1.1) in
    let rest = moves-Zeroed (ptr + k) (n - k) vs after clear a in
    rest ∙ ground (arith, read a, (λ (h : a - v.base < n). (z (a - v.base) h).0))
