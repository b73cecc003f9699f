-- ===== src/Copy/Bounds.antt =====
-- When copyout succeeds, and where the copies to user memory write.
use cse.Base.{
  false, true, ◌↔◌, ℕ_discrete, ℕ, zero, suc, ◌+◌, ◌^◌, ◌≤◌, ◌<◌, ◌≡◌, ◌≢◌, ◌⊎◌, inl, inr, refl,
  Bool, some, ◌==◌, update, arith, Option-cases, Bool-cases,
}
use cse.Copy.{
  success, caught, Mem, userspacetop, copycheck, memcpy, copyout, copystr, copystr_loop, copyoutstr,
  ran_out,
}

-- The bytes that copycheck lets pass are below the kernel's.
copycheck-Below :
    (bot len stoplen : ℕ)
    → len < 2 ^ 32
    → copycheck bot len ≡ some stoplen
    → (i : ℕ) → i < len
    → i < stoplen
    → bot + i < userspacetop
unfolding copycheck
copycheck-Below bot len stoplen small e i within below = ground (arith, e)

pub memcpy-Confined :
    (touch : ℕ → Bool) (user dest src n i : ℕ) (mem : Mem) (a : ℕ)
    → ((j : ℕ) → i ≤ j → j < i + n → a ≢ dest + j)
    → (memcpy touch user dest src n i mem).1 a ≡ mem a
unfolding memcpy
memcpy-Confined touch user dest src zero i mem a out = refl
memcpy-Confined touch user dest src (suc n) i mem a out =
    let next =
      memcpy-Confined touch user dest src n (suc i) (update mem (dest + i) (mem (src + i))) a
        (λ j h l. out j (omega arith) (omega arith)) in
    ground (arith, next, out i (omega arith) (omega arith))

copystr_loop-Confined :
    (touch : ℕ → Bool) (user dest src maxlen stoplen left i : ℕ) (mem : Mem) (a : ℕ)
    → ((j : ℕ) → i ≤ j → j < i + left → j < stoplen → a ≢ dest + j)
    → (copystr_loop touch user dest src maxlen stoplen left i mem).2 a ≡ mem a
unfolding copystr_loop ran_out
copystr_loop-Confined touch user dest src maxlen stoplen zero i mem a out = refl
copystr_loop-Confined touch user dest src maxlen stoplen (suc left) i mem a out =
    let next =
      copystr_loop-Confined touch user dest src maxlen stoplen left (suc i)
        (update mem (dest + i) (mem (src + i))) a
        (λ j h l s. out j (omega arith) (omega arith) s) in
    ground (arith, next, out i (omega arith) (omega arith))

-- copyout and copyin have a block to copy exactly when it is not empty and lies in user space.
copycheck-Whole :
    (bot len : ℕ)
    → len < 2 ^ 32
    → bot < 2 ^ 32
    → (copycheck bot len ≡ some len) ↔ ((0 < len) × (bot + len ≤ userspacetop))
unfolding copycheck
copycheck-Whole bot len small word = ground arith

memcpy-touches :
    (touch : ℕ → Bool) (user dest src n i : ℕ) (mem : Mem)
    → (memcpy touch user dest src n i mem).0 ≡ true
    → (j : ℕ) → i ≤ j
    → j < i + n
    → touch (user + j) ≡ true
unfolding memcpy
memcpy-touches touch user dest src zero i mem h j low high = absurd (omega arith)
memcpy-touches touch user dest src (suc n) i mem h j low high = elim (ℕ_discrete i j) [
  | yes same ↦ ground arith
  | no other ↦
      memcpy-touches touch user dest src n (suc i) (update mem (dest + i) (mem (src + i)))
        (ground arith) j (omega arith) (omega arith)
]

memcpy-ends :
    (touch : ℕ → Bool) (user dest src n i : ℕ) (mem : Mem)
    → ((j : ℕ) → i ≤ j → j < i + n → touch (user + j) ≡ true)
    → (memcpy touch user dest src n i mem).0 ≡ true
unfolding memcpy
memcpy-ends touch user dest src zero i mem ok = refl
memcpy-ends touch user dest src (suc n) i mem ok = rw (ok i (omega arith) (omega arith)) (
    memcpy-ends touch user dest src n (suc i) (update mem (dest + i) (mem (src + i)))
      (λ j low high. ok j (omega arith) (omega arith)))

-- The user bytes that the call was given are some, lie in user space and can be touched.
abbrev pub Fits : (ℕ → Bool) → ℕ → ℕ → Type 0
Fits touch user len =
    (0 < len) × (user + len ≤ userspacetop) × ((i : ℕ) → i < len → touch (user + i) ≡ true)

caught-success : (r : Bool × Mem) → ((caught r).0 ≡ success) ↔ (r.0 ≡ true)
caught-success (true, m) = ((λ h. refl), λ h. refl)
caught-success (false, m) = ((λ h. cc), λ h. cc)

copyout-success :
    (touch : ℕ → Bool) (src userdest len : ℕ) (mem : Mem)
    → len < 2 ^ 32
    → userdest < 2 ^ 32
    → ((copyout touch src userdest len mem).0 ≡ success) ↔ Fits touch userdest len
unfolding copyout
copyout-success touch src userdest len mem small word =
    elim (Option-cases (copycheck userdest len)) [
      | inl refused ↦
          rw (refused, copyout)
            (
              (λ h. cc),
              λ f. absurd (ground (arith, (copycheck-Whole userdest len small word).1 (f.0, f.1))),
            )
      | inr (stoplen, passed) ↦
          rw (passed, copyout)
            (elim (Bool-cases (stoplen == len)) [
              | inl whole ↦ rw whole (
                (λ h.
                    let ok = (caught-success (memcpy touch userdest userdest src len 0 mem)).0 h in
                    let fit = (copycheck-Whole userdest len small word).0 (ground arith) in
                    (
                      fit.0,
                      fit.1,
                      λ i l.
                          memcpy-touches touch userdest userdest src len 0 mem ok i (omega arith)
                            (omega arith),
                    )),
                λ f. (caught-success (memcpy touch userdest userdest src len 0 mem)).1 (
                    memcpy-ends touch userdest userdest src len 0 mem
                      (λ j low high. f.2 j (omega arith))),
              )
              | inr part ↦ rw part (
                (λ h. cc),
                λ f.
                    absurd (ground (arith, (copycheck-Whole userdest len small word).1 (f.0, f.1))),
              )
            ])
    ]

-- Is the address outside the bytes of user memory that the call was given?
abbrev pub Outside : ℕ → ℕ → ℕ → Type 0
Outside user len a = (a < user) ⊎ ((user + len ≤ a) ⊎ (userspacetop ≤ a))

module _ (touch : ℕ → Bool) (src userdest len : ℕ) (mem : Mem) (small : len < 2 ^ 32) (a : ℕ)
    (out : Outside userdest len a) where
  apart :
      (stoplen : ℕ)
      → copycheck userdest len ≡ some stoplen
      → (j : ℕ) → j < len
      → j < stoplen
      → a ≢ userdest + j
  apart stoplen e j within below same =
      let user : userdest + j < userspacetop =
        copycheck-Below userdest len stoplen small e j within below in
      elim out [
        | inl before ↦ omega arith
        | inr (inl behind) ↦ omega arith
        | inr (inr kernel) ↦ omega arith
      ]

  copyout-Confined : (copyout touch src userdest len mem).1 a ≡ mem a
  unfolding copyout
  copyout-Confined = elim (Option-cases (copycheck userdest len)) [
    | inl refused ↦ rw (refused, copyout) refl
    | inr (stoplen, passed) ↦
        rw (passed, copyout)
          (elim (Bool-cases (stoplen == len)) [
            | inl whole ↦ rw whole (
                memcpy-Confined touch userdest userdest src len 0 mem a
                  (λ j h l. apart stoplen passed j (omega arith) (ground arith)))
            | inr part ↦ rw part refl
          ])
  ]

  copyoutstr-Confined : (copyoutstr touch src userdest len mem).2 a ≡ mem a
  unfolding copyoutstr copystr
  copyoutstr-Confined = elim (Option-cases (copycheck userdest len)) [
    | inl refused ↦ rw (refused, copyoutstr) refl
    | inr (stoplen, passed) ↦
        rw (passed, copyoutstr, copystr)
          (copystr_loop-Confined touch userdest userdest src len stoplen len 0 mem a
            (λ j h l s. apart stoplen passed j (omega arith) s))
  ]

  -- For an address and a size that an unsigned int can have, copyout returns 0 exactly when the user
  -- bytes that it was given are some, lie below USERSPACETOP and can be touched. Wherever the copy
  -- stops, copyout and copyoutstr change no byte outside the user buffer of that size, and none at or
  -- above USERSPACETOP.
  pub copies-Confined :
      userdest < 2 ^ 32
      → (((copyout touch src userdest len mem).0 ≡ success) ↔ Fits touch userdest len)
        × ((copyout touch src userdest len mem).1 a ≡ mem a)
        × ((copyoutstr touch src userdest len mem).2 a ≡ mem a)
  copies-Confined word =
      (copyout-success touch src userdest len mem small word, copyout-Confined, copyoutstr-Confined)
