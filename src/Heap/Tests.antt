-- ===== src/Heap/Tests.antt =====
-- The priority queue at concrete inputs: numbers, the smaller one first.
use cse.Base.{
  ℕ, ◌≡◌, ◌≢◌, refl, Option, some, none, arith, update, ltb, success, enomem, done, panic, Ends,
}
use cse.Array.{Array, Kmalloc, array_add}
use cse.Array.Laws.{IsValid, IsKmalloc}
use cse.Heap.{Heap, heap_type, heap_push, heap_pop, heap_assertvalid}
use cse.Heap.Order.{IsPrecedence}
use cse.Heap.Queue.{IsQueue, Pushed, Popped, heap_push-Pushed, heap_pop-Popped}
use cse.Heap.Check.{heap_assertvalid-panic}

ltb-IsPrecedence : IsPrecedence ltb
ltb-IsPrecedence = record { asym = λ x y h. ground arith; trans = λ x y z h k. ground arith }

abbrev plenty : Kmalloc ℕ
plenty n = some (record { mem = λ i. 99; bytes = n })

plenty-IsKmalloc : IsKmalloc plenty
plenty-IsKmalloc = record { large = λ n b e. ground arith }

plenty-ne-none : (n : ℕ) → plenty n ≢ none
plenty-ne-none n e = cc

abbrev exhausted : Kmalloc ℕ
exhausted n = none

-- 2 above 5 and 3, in a block that is full
abbrev vals : Array ℕ
vals = record {
  v = record { mem = update (update (update (λ i. 0) 0 2) 1 5) 2 3; bytes = 12 };
  num = 3;
  max = 3;
}

abbrev three : Heap ℕ
three = record { datatype = heap_type; comparator = ltb; vals = vals }

vals-IsValid : IsValid vals
vals-IsValid = record { num_in = omega arith; room = omega arith }

three-IsQueue : IsQueue three
three-IsQueue = record {
  canary = refl;
  order = ltb-IsPrecedence;
  valid = vals-IsValid;
  heap = λ c p q. ground arith;
}

heap_push-Pushed_example :
    Ends
      (λ r. (r.0 ≡ success) × ((h' : Heap ℕ) × (r.1 ≡ some h') × Pushed three 1 h'))
      (heap_push plenty three 1)
heap_push-Pushed_example =
    heap_push-Pushed three three-IsQueue plenty 1 plenty-IsKmalloc plenty-ne-none (omega arith)

heap_pop-Popped_example :
    Ends (λ (r : Option ℕ × Heap ℕ). (x : ℕ) × (r.0 ≡ some x) × Popped three x r.1) (heap_pop three)
heap_pop-Popped_example = heap_pop-Popped three three-IsQueue (omega arith)

refused : array_add exhausted vals 1 ≡ done (enomem, 3, vals)
unfolding array_add
refused = refl

heap_assertvalid-panic_example : heap_assertvalid three ≡ panic
heap_assertvalid-panic_example = heap_assertvalid-panic three vals-IsValid (omega arith)
