-- ===== src/Heap.antt =====
-- kern/lib/heap.c: the priority queue over the resizeable array. A heap value is a pointer that is
-- not NULL; after kfree there is no heap, which is `none`.
pub mod Order
pub mod Up
pub mod Down
pub mod Queue
pub mod Check
mod Tests
use cse.Base.{
  ℕ, zero, suc, ◌+◌, ◌-◌, ◌*◌, ◌/◌, Bool, Option, none, some, ltb, ◌==◌, if◌then◌else◌, Status,
  success, enomem, Run, done, out_of_fuel, kassert, ◌>>=◌, ◌>>◌,
}
use cse.Array.{
  Array, Kmalloc, array_init, array_num, array_get, array_set, array_add, array_cleanup,
}

-- HEAPTYPE
abbrev pub heap_type : ℕ
heap_type = 3333

-- `struct heap`; the comparator's int is read as a truth value.
pub record Heap {ℓ} (A : Type ℓ) : Type ℓ where
  pub datatype : ℕ
  pub comparator : A → A → Bool
  pub vals : Array A

-- PARENT on an int that is not negative: `(0 - 1) / 2` is 0 in C too.
abbrev pub parent : ℕ → ℕ
parent i = (i - 1) / 2

abbrev pub left : ℕ → ℕ
left i = 2 * i + 1

abbrev pub right : ℕ → ℕ
right i = 2 * i + 2

-- KASSERT_HEAP
abbrev kassert_heap {ℓ} : {A : Type ℓ} → Heap A → Run (Unit {0})
kassert_heap h = kassert (h.datatype == heap_type)

module _ {ℓ} {A : Type ℓ} where
  -- The two allocations of heap_create are answered by `mem_heap` and `mem_array`.
  pub heap_create : Bool → Bool → (ℕ → A) → (A → A → Bool) → Option (Heap A)
  unfolding array_init
  heap_create mem_heap mem_array junk comparator =
      if mem_heap
      then (if mem_array
          then some
              (record { datatype = heap_type; comparator = comparator; vals = array_init junk })
          else none)
      else none

  -- the swap that bubble_up and trickle_down spell out
  pub swap : Array A → ℕ → ℕ → Run (Array A)
  swap vals i j = do
    t ← array_get vals i
    u ← array_get vals j
    vals' ← array_set vals i u
    array_set vals' j t

  pub bubble_loop : ℕ → (A → A → Bool) → Array A → ℕ → Run (Array A)
  bubble_loop zero comparator vals index = out_of_fuel
  bubble_loop (suc fuel) comparator vals index =
      let p = parent index in
      let rise = swap vals index p >>= λ vals'. bubble_loop fuel comparator vals' p in
      let step : Run (Array A) = do
        x ← array_get vals index
        y ← array_get vals p
        if comparator x y then rise else done vals
      in if ltb 0 index then step else done vals

  pub bubble_up : Heap A → ℕ → Run (Heap A)
  unfolding bubble_loop swap
  bubble_up h index = do
    kassert_heap h
    vals ← bubble_loop (index + 1) h.comparator h.vals index
    done (record h { vals = vals })

  -- The last branch of the loop body of trickle_down: the left child, if it exists and precedes.
  left_only : (A → A → Bool) → Array A → ℕ → Run (Option ℕ)
  left_only comparator vals index =
      let look : Run (Option ℕ) = do
        x ← array_get vals (left index)
        y ← array_get vals index
        done (if comparator x y then some (left index) else none)
      in if ltb (left index) vals.num then look else done none

  -- The `j` that the body of the loop computes; -1 is `none`.
  pub choose : (A → A → Bool) → Array A → ℕ → Run (Option ℕ)
  choose comparator vals index =
      let both : Run (Option ℕ) = do
        x ← array_get vals (left index)
        y ← array_get vals (right index)
        done (if comparator x y then some (left index) else some (right index))
      in let look : Run (Option ℕ) = do
        x ← array_get vals (right index)
        y ← array_get vals index
        if comparator x y then both else left_only comparator vals index
        in if ltb (right index) vals.num then look else left_only comparator vals index

  pub trickle_loop : ℕ → (A → A → Bool) → Array A → ℕ → Run (Array A)
  trickle_loop zero comparator vals index = out_of_fuel
  trickle_loop (suc fuel) comparator vals index = choose comparator vals index >>= elim [
    | none ↦ done vals
    | some j ↦ (swap vals j index >>= λ vals'. trickle_loop fuel comparator vals' j)
  ]

  pub trickle_down : Heap A → ℕ → Run (Heap A)
  unfolding trickle_loop choose left_only swap
  trickle_down h index = do
    kassert_heap h
    vals ← trickle_loop (h.vals.num + 1) h.comparator h.vals index
    done (record h { vals = vals })

  -- The part of heap_push behind array_add. On ENOMEM it destroys the array and frees the heap.
  pub after_add : Heap A → Status × ℕ × Array A → Run (Status × Option (Heap A))
  unfolding bubble_up
  after_add h (enomem, newindex, vals) = do _ ← array_cleanup vals; done (enomem, none)
  after_add h (code, newindex, vals) = do
    kassert (newindex == vals.num - 1)
    h' ← bubble_up (record h { vals = vals }) (vals.num - 1)
    done (success, some h')

  pub heap_push : Kmalloc A → Heap A → A → Run (Status × Option (Heap A))
  unfolding after_add
  heap_push kmalloc h newval = do kassert_heap h; r ← array_add kmalloc h.vals newval; after_add h r

  -- `--h->vals->num`
  abbrev pub shrink : Array A → Array A
  shrink vals = record vals { num = vals.num - 1 }

  pub heap_pop : Heap A → Run (Option A × Heap A)
  unfolding trickle_down
  heap_pop h =
      let take_top : Run (Option A × Heap A) = do
        top ← array_get h.vals 0
        last ← array_get h.vals (h.vals.num - 1)
        vals ← array_set h.vals 0 last
        h' ← trickle_down (record h { vals = shrink vals }) 0
        done (some top, h')
      in do kassert_heap h; if h.vals.num == 0 then done (none, h) else take_top

  pub heap_top : Heap A → Run A
  heap_top h = do kassert_heap h; array_get h.vals 0

  pub heap_isempty : Heap A → Run Bool
  unfolding array_num
  heap_isempty h = do kassert_heap h; done (array_num h.vals == 0)

  pub heap_getsize : Heap A → Run ℕ
  unfolding array_num
  heap_getsize h = do kassert_heap h; done (array_num h.vals)

  -- NULL is `none`.
  pub heap_destroy : Option (Heap A) → Run (Unit {0})
  heap_destroy none = done tt
  heap_destroy (some h) = do kassert_heap h; _ ← array_cleanup h.vals; done tt

  -- assert_heap_property: the depth is the fuel.
  pub assert_heap_property : ℕ → Array A → ℕ → ℕ → (A → A → Bool) → Run (Unit {0})
  assert_heap_property zero vals index max comparator = out_of_fuel
  assert_heap_property (suc fuel) vals index max comparator =
      let check : Run (Unit {0}) = do
        x ← array_get vals index
        l ← array_get vals (left index)
        kassert (comparator x l)
        y ← array_get vals index
        r ← array_get vals (right index)
        kassert (comparator y r)
        assert_heap_property fuel vals (left index) max comparator
        assert_heap_property fuel vals (right index) max comparator
      in if ltb index max then check else done tt

  pub heap_assertvalid : Heap A → Run (Unit {0})
  unfolding assert_heap_property
  heap_assertvalid h = do
    kassert_heap h
    assert_heap_property (h.vals.num + 1) h.vals 0 h.vals.num h.comparator
