-- ===== src/Uio/Move.antt =====
-- memcpy and memmove of common/libc/string on kernel memory, where no access is refused: they copy words
-- where both pointers and the size are aligned, and else bytes; memmove copies back to front where
-- the destination is not below the source.
use cse.Base.{
  ℕ, zero, suc, ◌+◌, ◌-◌, ◌*◌, ◌/◌, ◌%◌, ◌≤◌, ◌<◌, ◌≡◌, refl, ap, Bool, ◌&&◌, inl, inr, ltb, leb,
  ◌==◌, if◌then◌else◌, arith, Bool-cases, dec_lt, lt→ltb, le→ltb,
}
use cse.Copy.{Mem}

-- `*d = *s` for a unit of `w` bytes, which are read before they are written.
unfoldable pub copy_unit : ℕ → ℕ → ℕ → Mem → Mem
copy_unit w dest src mem a =
    if leb dest a && ltb a (dest + w) then mem (src + (a - dest)) else mem a

-- `for (i=0; i<n; i++) d[i] = s[i];` from the byte offset `off` on
unfoldable pub copy_up : ℕ → ℕ → ℕ → ℕ → ℕ → Mem → Mem
unfolding copy_unit
copy_up w dest src zero off mem = mem
copy_up w dest src (suc n) off mem =
    copy_up w dest src n (off + w) (copy_unit w (dest + off) (src + off) mem)

-- `for (i=n; i>0; i--) d[i-1] = s[i-1];`
unfoldable pub copy_down : ℕ → ℕ → ℕ → ℕ → Mem → Mem
unfolding copy_unit
copy_down w dest src zero mem = mem
copy_down w dest src (suc i) mem =
    copy_down w dest src i (copy_unit w (dest + w * i) (src + w * i) mem)

-- May the block be copied by words?
abbrev pub aligned : ℕ → ℕ → ℕ → Bool
aligned dest src len = dest % 4 == 0 && (src % 4 == 0 && len % 4 == 0)

unfoldable pub memcpy : ℕ → ℕ → ℕ → Mem → Mem
unfolding copy_up
memcpy dest src len mem =
    if aligned dest src len
    then copy_up 4 dest src (len / 4) 0 mem
    else copy_up 1 dest src len 0 mem

unfoldable pub memmove : ℕ → ℕ → ℕ → Mem → Mem
unfolding memcpy copy_down
memmove dest src len mem =
    if ltb dest src
    then memcpy dest src len mem
    else if aligned dest src len
    then copy_down 4 dest src (len / 4) mem
    else copy_down 1 dest src len mem

-- What a copy of `len` bytes makes of memory, read as if at once: the block at `dest` has the bytes
-- that the block at `src` had, and the others are as before.
abbrev pub block : ℕ → ℕ → ℕ → Mem → Mem
block dest src len mem a =
    if leb dest a && ltb a (dest + len) then mem (src + (a - dest)) else mem a

module _ (w k dest src : ℕ) (mem : Mem) (a : ℕ) where
  -- A unit and the block in front of it.
  block-down :
      src ≤ dest
      → block dest src k (copy_unit w (dest + k) (src + k) mem) a ≡ block dest src (k + w) mem a
  unfolding copy_unit
  block-down above = elim (dec_lt a (dest + k)) [
    | yes front ↦ ground arith
    | no back ↦
        let at : src + k + (a - (dest + k)) ≡ src + (a - dest) = omega arith in
        ground (arith, ap mem at)
  ]

  -- A unit and the block behind it.
  block-up :
      dest < src
      → block (dest + w) (src + w) k (copy_unit w dest src mem) a ≡ block dest src (w + k) mem a
  unfolding copy_unit
  block-up below = elim (dec_lt a (dest + w)) [
    | yes front ↦ ground arith
    | no back ↦
        let at : src + w + (a - (dest + w)) ≡ src + (a - dest) = omega arith in
        ground (arith, ap mem at)
  ]

size_suc : (w n : ℕ) → w * suc n ≡ w + w * n
size_suc w n = grind arith

copy_up-block :
    (w dest src n off : ℕ) (mem : Mem)
    → dest < src
    → (a : ℕ) → copy_up w dest src n off mem a ≡ block (dest + off) (src + off) (w * n) mem a
unfolding copy_up
copy_up-block w dest src zero off mem below a = ground arith
copy_up-block w dest src (suc n) off mem below a =
    let after : Mem = copy_unit w (dest + off) (src + off) mem in
    let d : dest + (off + w) ≡ dest + off + w = omega arith in
    let s : src + (off + w) ≡ src + off + w = omega arith in
    rw (copy_up-block w dest src n (off + w) after below a, d, s, size_suc w n)
      (block-up w (w * n) (dest + off) (src + off) mem a (omega arith))

copy_down-block :
    (w dest src n : ℕ) (mem : Mem)
    → src ≤ dest
    → (a : ℕ) → copy_down w dest src n mem a ≡ block dest src (w * n) mem a
unfolding copy_down
copy_down-block w dest src zero mem above a = ground arith
copy_down-block w dest src (suc i) mem above a =
    let k : ℕ = w * i in
    let size : w * suc i ≡ k + w = grind arith in
    rw (copy_down-block w dest src i (copy_unit w (dest + k) (src + k) mem) above a, size)
      (block-down w k dest src mem a above)

module _ (dest src len : ℕ) (mem : Mem) (a : ℕ) where
  forward :
      dest < src → (w n : ℕ) → w * n ≡ len → copy_up w dest src n 0 mem a ≡ block dest src len mem a
  forward below w n size =
      let d : dest + 0 ≡ dest = omega arith in
      let s : src + 0 ≡ src = omega arith in
      rw (copy_up-block w dest src n 0 mem below a, d, s, size) refl

  backward :
      src ≤ dest → (w n : ℕ) → w * n ≡ len → copy_down w dest src n mem a ≡ block dest src len mem a
  backward above w n size = rw (copy_down-block w dest src n mem above a, size) refl

  -- memmove copies a block of any size between any two addresses, as if all bytes were read before the
  -- first is written: the blocks may overlap in either order, and words and bytes have the same result.
  pub memmove-block : memmove dest src len mem a ≡ block dest src len mem a
  unfolding memmove memcpy
  memmove-block = elim (dec_lt dest src) [
    | yes below ↦ rw (lt→ltb dest src below) (elim (Bool-cases (aligned dest src len)) [
      | inl words ↦ rw words (forward below 4 (len / 4) (ground arith))
      | inr bytes ↦ rw bytes (forward below 1 len (omega arith))
    ])
    | no above ↦ rw (le→ltb dest src (omega arith)) (elim (Bool-cases (aligned dest src len)) [
      | inl words ↦ rw words (backward (omega arith) 4 (len / 4) (ground arith))
      | inr bytes ↦ rw bytes (backward (omega arith) 1 len (omega arith))
    ])
  ]

pub memmove-nothing : (dest src : ℕ) (mem : Mem) → memmove dest src 0 mem ≡ mem
unfolding memmove memcpy copy_up copy_down
memmove-nothing dest src mem = elim (Bool-cases (ltb dest src)) [
  | inl below ↦ rw below (elim (Bool-cases (aligned dest src 0)) [
    | inl words ↦ rw words refl
    | inr bytes ↦ rw bytes refl
  ])
  | inr above ↦ rw above (elim (Bool-cases (aligned dest src 0)) [
    | inl words ↦ rw words refl
    | inr bytes ↦ rw bytes refl
  ])
]
