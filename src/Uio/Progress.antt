-- ===== src/Uio/Progress.antt =====
-- What the rounds of uiomove keep: a uio whose counts fit its buffers, and the bytes outside them.
use cse.Base.{
  ℕ, ◌+◌, ◌-◌, ◌%◌, ◌^◌, ◌≤◌, ◌<◌, ◌≡◌, ◌≢◌, ◌⊎◌, inl, inr, refl, sym, Bool, List, length, All,
  arith, ◌∙◌,
}
use cse.Copy.{Mem, Code, success, efault, copyout}
use cse.Copy.Bounds.{copies-Confined, Outside}
use cse.Copy.Codes.{Apart, copyout-code, copyin-code, copyin-Apart}
use cse.Uio.Cover.{Covers, Covers-none, Covers-then}
use cse.Uio.Reference.{room, moves}
use cse.Uio.Move.{block, memmove-block}
use cse.Uio.{
  Iovec, UioRw, uio_read, uio_write, UioSeg, uio_userispace, uio_userspace, uio_sysspace, Uio, Loop,
  transfer,
}

-- The counts of a uio fit its iovecs, as uio.h asks for, and its buffers lie in the address space.
pub record IsValid (u : Uio) : Type 0 where
  pub counted : u.iovcnt ≡ length u.iov
  pub few : u.iovcnt < 2 ^ 32
  pub whole : u.resid ≡ room u.iov
  pub small : u.resid < 2 ^ 32
  pub position : u.offset < 2 ^ 64
  pub placed : All (λ v. v.base + v.len ≤ 2 ^ 32) u.iov

-- A byte that uiomove has no reason to write: outside the buffers of the uio where it reads, and outside
-- the kernel buffer where it writes.
abbrev pub Spared : UioRw → ℕ → ℕ → List Iovec → ℕ → Type 0
Spared uio_read ptr n iov a = All (λ v. Apart v.base v.len a) iov
Spared uio_write ptr n iov a = Apart ptr n a

-- The same for a block that lies in another.
pub Apart-part :
    (base len size a : ℕ)
    → size ≤ len
    → Apart base len a
    → Apart base size a × Apart (base + size) (len - size) a
Apart-part base len size a le (inl before) = (inl before, inl (omega arith))
Apart-part base len size a le (inr behind) = (inr (omega arith), inr (omega arith))

block-Apart :
    (dest src len : ℕ) (mem : Mem) (a : ℕ) → Apart dest len a → block dest src len mem a ≡ mem a
block-Apart dest src len mem a (inl before) = ground arith
block-Apart dest src len mem a (inr behind) = ground arith

-- A byte outside the destination of a copy.
abbrev pub Unwritten : UioRw → ℕ → ℕ → ℕ → ℕ → Type 0
Unwritten uio_read ptr base size a = Apart base size a
Unwritten uio_write ptr base size a = Apart ptr size a

outside : (base size a : ℕ) → Apart base size a → Outside base size a
outside base size a (inl before) = inl before
outside base size a (inr behind) = inr (inl behind)

-- A copy of the switch writes no byte outside its destination.
module _ (touch : ℕ → Bool) (ptr base size : ℕ) (mem : Mem) (a : ℕ) (word : base < 2 ^ 32)
    (small : size < 2 ^ 32) where
  copyout-Unwritten : Apart base size a → (copyout touch ptr base size mem).1 a ≡ mem a
  copyout-Unwritten out =
      (copies-Confined touch ptr base size mem small a (outside base size a out) word).1

  pub transfer-Unwritten :
      (seg : UioSeg) (dir : UioRw)
      → Unwritten dir ptr base size a
      → (transfer touch seg dir ptr base size mem).1 a ≡ mem a
  unfolding transfer
  transfer-Unwritten uio_sysspace uio_read out =
      rw (memmove-block base ptr size mem a) (block-Apart base ptr size mem a out)
  transfer-Unwritten uio_sysspace uio_write out =
      rw (memmove-block ptr base size mem a) (block-Apart ptr base size mem a out)
  transfer-Unwritten uio_userspace uio_read out = copyout-Unwritten out
  transfer-Unwritten uio_userspace uio_write out = copyin-Apart touch base ptr size mem a out
  transfer-Unwritten uio_userispace uio_read out = copyout-Unwritten out
  transfer-Unwritten uio_userispace uio_write out = copyin-Apart touch base ptr size mem a out

-- A copy from or to user memory may fail with EFAULT, one in kernel memory does not fail.
abbrev pub Coded : UioSeg → Code → Type 0
Coded seg code = (code ≡ success) ⊎ ((code ≡ efault) × (seg ≢ uio_sysspace))

user_code :
    (code : Code) (seg : UioSeg)
    → (seg ≢ uio_sysspace)
    → (code ≡ success) ⊎ (code ≡ efault)
    → Coded seg code
user_code code seg user (inl ok) = inl ok
user_code code seg user (inr bad) = inr (bad, user)

module _ (touch : ℕ → Bool) (ptr base size : ℕ) (mem : Mem) where
  pub transfer-code :
      (seg : UioSeg) (dir : UioRw) → Coded seg ((transfer touch seg dir ptr base size mem).0)
  unfolding transfer
  transfer-code uio_sysspace uio_read = inl refl
  transfer-code uio_sysspace uio_write = inl refl
  transfer-code uio_userspace uio_read =
      user_code _ _ (λ e. cc) (copyout-code touch ptr base size mem)
  transfer-code uio_userspace uio_write =
      user_code _ _ (λ e. cc) (copyin-code touch base ptr size mem)
  transfer-code uio_userispace uio_read =
      user_code _ _ (λ e. cc) (copyout-code touch ptr base size mem)
  transfer-code uio_userispace uio_write =
      user_code _ _ (λ e. cc) (copyin-code touch base ptr size mem)

-- From `m` to `m'` `moved` bytes were moved, and the uio stayed valid.
pub record Went (m m' : Loop) (moved : ℕ) : Type 0 where
  pub ptr : m'.ptr ≡ m.ptr + moved
  pub n : m'.n + moved ≡ m.n
  pub resid : m'.uio.resid + moved ≡ m.uio.resid
  pub offset : m'.uio.offset ≡ (m.uio.offset + moved) % 2 ^ 64
  pub segflg : m'.uio.segflg ≡ m.uio.segflg
  pub rw_flag : m'.uio.rw_flag ≡ m.uio.rw_flag
  pub space : m'.uio.space ≡ m.uio.space
  pub valid : IsValid m'.uio
  pub covers : Covers m.uio.iov moved m'.uio.iov
  pub kernel :
      m.uio.segflg ≡ uio_sysspace
      → moves m'.uio.rw_flag m'.ptr m'.n m'.uio.iov m'.mem
        ≡ moves m.uio.rw_flag m.ptr m.n m.uio.iov m.mem
  pub spares :
      (dir : UioRw) (a : ℕ)
      → dir ≡ m.uio.rw_flag
      → Spared dir m.ptr m.n m.uio.iov a
      → (m'.mem a ≡ m.mem a) × Spared dir m'.ptr m'.n m'.uio.iov a

pub Went-none : (m : Loop) → IsValid m.uio → Went m m 0
Went-none m valid = record {
  ptr = omega arith;
  n = omega arith;
  resid = omega arith;
  offset = omega (arith, valid.position);
  segflg = refl;
  rw_flag = refl;
  space = refl;
  valid = valid;
  covers = Covers-none m.uio.iov;
  kernel = λ k. refl;
  spares = λ dir a e out. (refl, out);
}

pub Went-then : (m m' m'' : Loop) (k l : ℕ) → Went m m' k → Went m' m'' l → Went m m'' (k + l)
Went-then m m' m'' k l f g = record {
  ptr = omega (arith, f.ptr, g.ptr);
  n = omega (arith, f.n, g.n);
  resid = omega (arith, f.resid, g.resid);
  offset = omega (arith, f.offset, g.offset);
  segflg = g.segflg ∙ f.segflg;
  rw_flag = g.rw_flag ∙ f.rw_flag;
  space = g.space ∙ f.space;
  valid = g.valid;
  covers = Covers-then m.uio.iov m'.uio.iov m''.uio.iov k l f.covers g.covers;
  kernel = λ sys. g.kernel (f.segflg ∙ sys) ∙ f.kernel sys;
  spares = λ dir a e out.
      let first = f.spares dir a e out in
      let second = g.spares dir a (e ∙ sym f.rw_flag) first.1 in (second.0 ∙ first.0, second.1);
}
