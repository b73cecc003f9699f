-- ===== src/Copy.antt =====
-- The copies between user and kernel memory of kern/vm/copyinout.c, with memcpy of
-- common/libc/string/memcpy.c byte by byte. Memory is a function from addresses to bytes. `touch` is a
-- parameter: it tells for which addresses the processor and the virtual memory system let an access
-- pass; any other access ends the call with EFAULT, through copyfail. Addresses and sizes have 32 bits.
pub mod Bounds
pub mod Codes
mod Tests
use cse.Base.{
  ℕ, zero, suc, ◌+◌, ◌-◌, ◌%◌, ◌^◌, Bool, true, false, Option, none, some, ◌==◌, ltb, leb,
  if◌then◌else◌, update,
}

abbrev pub Mem : Type 0
Mem = ℕ → ℕ

-- The codes that the copies return; `success` is 0.
pub data Code : Type 0 where
  success efault enametoolong : Code

abbrev pub userspacetop : ℕ
userspacetop = 2 ^ 31

-- copycheck: EFAULT as `none`, and else stoplen.
unfoldable pub copycheck : ℕ → ℕ → Option ℕ
copycheck bot len =
    let top : ℕ = (bot + len + (2 ^ 32 - 1)) % 2 ^ 32 in
    if ltb top bot
    then none
    else if leb userspacetop bot
    then none
    else some (if leb userspacetop top then userspacetop - bot else len)

-- memcpy from byte `i` on, where `n` bytes are left, and whether it came to the end. `user` is the one of
-- the two addresses that lies in user memory.
unfoldable pub memcpy : (ℕ → Bool) → ℕ → ℕ → ℕ → ℕ → ℕ → Mem → Bool × Mem
memcpy touch user dest src zero i mem = (true, mem)
memcpy touch user dest src (suc n) i mem =
    if touch (user + i)
    then memcpy touch user dest src n (suc i) (update mem (dest + i) (mem (src + i)))
    else (false, mem)

-- setjmp around a copy: behind copyfail the call returns EFAULT.
abbrev pub caught : Bool × Mem → Code × Mem
caught r = (if r.0 then success else efault, r.1)

unfoldable pub copyin : (ℕ → Bool) → ℕ → ℕ → ℕ → Mem → Code × Mem
unfolding copycheck memcpy
copyin touch usersrc dest len mem = elim (copycheck usersrc len) as (λ _. Code × Mem) [
  | none ↦ (efault, mem)
  | some stoplen ↦
      if stoplen == len then caught (memcpy touch usersrc dest usersrc len 0 mem) else (efault, mem)
]

unfoldable pub copyout : (ℕ → Bool) → ℕ → ℕ → ℕ → Mem → Code × Mem
unfolding copycheck memcpy
copyout touch src userdest len mem = elim (copycheck userdest len) as (λ _. Code × Mem) [
  | none ↦ (efault, mem)
  | some stoplen ↦
      if stoplen == len
      then caught (memcpy touch userdest userdest src len 0 mem)
      else (efault, mem)
]

-- What a copy of a string returns: a code, the length with the terminator if it was found, and memory.
abbrev pub Copied : Type 0
Copied = Code × Option ℕ × Mem

-- copystr behind its loop
unfoldable pub ran_out : ℕ → ℕ → Mem → Copied
ran_out maxlen stoplen mem = (if ltb stoplen maxlen then efault else enametoolong, none, mem)

-- The loop of copystr from `i` on, where `left` is `maxlen - i`.
unfoldable pub copystr_loop : (ℕ → Bool) → ℕ → ℕ → ℕ → ℕ → ℕ → ℕ → ℕ → Mem → Copied
unfolding ran_out
copystr_loop touch user dest src maxlen stoplen zero i mem = ran_out maxlen stoplen mem
copystr_loop touch user dest src maxlen stoplen (suc left) i mem =
    let mem' : Mem = update mem (dest + i) (mem (src + i)) in
    let rest : Copied = copystr_loop touch user dest src maxlen stoplen left (suc i) mem' in
    if ltb i stoplen
    then (if touch (user + i)
        then (if mem' (src + i) == 0 then (success, some (i + 1), mem') else rest)
        else (efault, none, mem))
    else ran_out maxlen stoplen mem

unfoldable pub copystr : (ℕ → Bool) → ℕ → ℕ → ℕ → ℕ → ℕ → Mem → Copied
unfolding copystr_loop
copystr touch user dest src maxlen stoplen mem =
    copystr_loop touch user dest src maxlen stoplen maxlen 0 mem

unfoldable pub copyinstr : (ℕ → Bool) → ℕ → ℕ → ℕ → Mem → Copied
unfolding copycheck copystr
copyinstr touch usersrc dest len mem = elim (copycheck usersrc len) as (λ _. Copied) [
  | none ↦ (efault, none, mem)
  | some stoplen ↦ copystr touch usersrc dest usersrc len stoplen mem
]

unfoldable pub copyoutstr : (ℕ → Bool) → ℕ → ℕ → ℕ → Mem → Copied
unfolding copycheck copystr
copyoutstr touch src userdest len mem = elim (copycheck userdest len) as (λ _. Copied) [
  | none ↦ (efault, none, mem)
  | some stoplen ↦ copystr touch userdest userdest src len stoplen mem
]
