-- ===== src/Array/Tests.antt =====
-- The array at concrete inputs.
use cse.Base.{ℕ, ◌≡◌, refl, some, none, update, success, enomem, done, panic}
use cse.Array.{Array, Kmalloc, array_add, array_get}

-- An allocator that always has room, and one that never has.
abbrev plenty : Kmalloc ℕ
plenty n = some (record { mem = λ i. 99; bytes = n })

abbrev exhausted : Kmalloc ℕ
exhausted n = none

-- 7, 8, 9 in a block of four
abbrev three : Array ℕ
three = record {
  v = record { mem = update (update (update (λ i. 0) 0 7) 1 8) 2 9; bytes = 16 };
  num = 3;
  max = 4;
}

abbrev full : Array ℕ
full = record (three) { max = 3; v = record (three.v) { bytes = 12 } }

no_memory : array_add exhausted full 5 ≡ done (enomem, 3, full)
unfolding array_add
no_memory = refl

-- There is room in the block.
added : (r : Array ℕ) × (array_add plenty three 5 ≡ done (success, 3, r))
unfolding array_add
added = (_, refl)

past_end : array_get three 3 ≡ panic
unfolding array_get
past_end = refl
