-- ===== src/Sbrk/Tests.antt =====
-- sys_sbrk on a heap of one page from 2 ^ 28 on, below a stack of three pages.
use cse.Base.{◌+◌, ◌-◌, ◌*◌, ◌^◌, ◌≡◌, refl, arith}
use cse.Sbrk.{success, einval, enomem, Addrspace, sys_sbrk}
use cse.Sbrk.Outcomes.{Sbrk, sys_sbrk_lem}

abbrev one_page : Addrspace
one_page = record { heap_end = 2 ^ 28 + 4096; heap_start = 2 ^ 28; stack_base = 2 ^ 31 - 3 * 4096 }

increase : (sys_sbrk 100 one_page).2.heap_end ≡ 2 ^ 28 + 4196
unfolding sys_sbrk
increase = refl

give_back : sys_sbrk (2 ^ 32 - 100) (sys_sbrk 100 one_page).2 ≡ (success, 2 ^ 28 + 4196, one_page)
unfolding sys_sbrk
give_back = refl

below_start : (sys_sbrk (2 ^ 32 - 4097) one_page).0 ≡ einval
unfolding sys_sbrk
below_start = refl

into_stack : (sys_sbrk (2 ^ 31 - 2 ^ 28 - 4 * 4096) one_page).0 ≡ enomem
unfolding sys_sbrk
into_stack = refl

-- A decrease by 2 ^ 29 is accepted, and the heap then ends in the kernel's half of memory.
wraps : (sys_sbrk (2 ^ 32 - 2 ^ 29) one_page).2.heap_end ≡ 2 ^ 32 - 2 ^ 28 + 4096
unfolding sys_sbrk
wraps = refl

sys_sbrk_lem_example : Sbrk one_page (2 ^ 32 - 2 ^ 29) (sys_sbrk (2 ^ 32 - 2 ^ 29) one_page)
sys_sbrk_lem_example =
    sys_sbrk_lem one_page
      (record { order = omega arith; under_stack = omega arith; user = omega arith })
      (2 ^ 32 - 2 ^ 29) (omega arith)
