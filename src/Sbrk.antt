-- ===== src/Sbrk.antt =====
-- The end of the heap of a process: kern/syscall/sbrk.c, over the fields of struct addrspace that it
-- uses. Addresses and amounts are words of 32 bits; an amount from 2 ^ 31 on stands for the negative
-- number below it by 2 ^ 32, and -1 is the last word.
pub mod Outcomes
mod Tests
use cse.Base.{ℕ, ◌+◌, ◌-◌, ◌%◌, ◌^◌, ltb, leb, ◌==◌, if◌then◌else◌}

-- The codes that sys_sbrk stores; `success` is 0.
pub data Errno : Type 0 where
  success einval enomem : Errno

pub record Addrspace : Type 0 where
  pub heap_end : ℕ
  pub heap_start : ℕ
  pub stack_base : ℕ

-- The error, the result and the address space behind the call, with `space` what proc_getas answers.
unfoldable pub sys_sbrk : ℕ → Addrspace → Errno × ℕ × Addrspace
sys_sbrk amount space =
    let target : ℕ = (space.heap_end + amount) % 2 ^ 32 in
    let moved : Errno × ℕ × Addrspace =
      (success, space.heap_end, record space { heap_end = target }) in
    if amount == 0
    then (success, space.heap_end, space)
    else if leb (2 ^ 31) amount
    then (if leb space.heap_start target then moved else (einval, 2 ^ 32 - 1, space))
    else (if ltb target space.stack_base then moved else (enomem, 2 ^ 32 - 1, space))
