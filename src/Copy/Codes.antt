-- ===== src/Copy/Codes.antt =====
-- The codes of copyin and copyout, and the bytes that copyin may write.
use cse.Base.{
  ℕ, ◌+◌, ◌≤◌, ◌<◌, ◌≡◌, ◌⊎◌, inl, inr, refl, Bool, true, false, ◌==◌, arith, Option-cases,
  Bool-cases,
}
use cse.Copy.{Mem, success, efault, caught, copycheck, memcpy, copyin, copyout}
use cse.Copy.Bounds.{memcpy-Confined}

-- The bytes outside a block of `len` bytes.
abbrev pub Apart : ℕ → ℕ → ℕ → Type 0
Apart base len a = (a < base) ⊎ (base + len ≤ a)

caught-code : (r : Bool × Mem) → ((caught r).0 ≡ success) ⊎ ((caught r).0 ≡ efault)
caught-code (true, mem) = inl refl
caught-code (false, mem) = inr refl

module _ (touch : ℕ → Bool) (a b len : ℕ) (mem : Mem) where
  pub copyout-code :
      ((copyout touch a b len mem).0 ≡ success) ⊎ ((copyout touch a b len mem).0 ≡ efault)
  unfolding copyout
  copyout-code = elim (Option-cases (copycheck b len)) [
    | inl refused ↦ rw (refused, copyout) (inr refl)
    | inr (stoplen, passed) ↦
        rw (passed, copyout)
          (elim (Bool-cases (stoplen == len)) [
            | inl whole ↦ rw whole (caught-code (memcpy touch b b a len 0 mem))
            | inr part ↦ rw part (inr refl)
          ])
  ]

  pub copyin-code :
      ((copyin touch a b len mem).0 ≡ success) ⊎ ((copyin touch a b len mem).0 ≡ efault)
  unfolding copyin
  copyin-code = elim (Option-cases (copycheck a len)) [
    | inl refused ↦ rw (refused, copyin) (inr refl)
    | inr (stoplen, passed) ↦
        rw (passed, copyin)
          (elim (Bool-cases (stoplen == len)) [
            | inl whole ↦ rw whole (caught-code (memcpy touch a b a len 0 mem))
            | inr part ↦ rw part (inr refl)
          ])
  ]

  -- copyin writes no byte outside the kernel buffer of `len` bytes.
  pub copyin-Apart : (i : ℕ) → Apart b len i → (copyin touch a b len mem).1 i ≡ mem i
  unfolding copyin
  copyin-Apart i out = elim (Option-cases (copycheck a len)) [
    | inl refused ↦ rw (refused, copyin) refl
    | inr (stoplen, passed) ↦
        rw (passed, copyin)
          (elim (Bool-cases (stoplen == len)) [
            | inl whole ↦ rw whole (
                memcpy-Confined touch a b a len 0 mem i
                  (λ j h l same. elim out [ inl before ↦ omega arith | inr behind ↦ omega arith ]))
            | inr part ↦ rw part refl
          ])
  ]
