-- ===== src/Heap/Check.antt =====
-- heap_assertvalid reads the children of every element, also of those that have none.
use cse.Base.{
  ℕ, zero, suc, ◌+◌, ◌≤◌, ◌<◌, ◌≡◌, refl, Bool, true, false, arith, ltb, Bool-cases, inl, inr, Run,
  panic, kassert, ◌>>=◌, ◌>>◌, ◌==◌,
}
use cse.Array.{Array, array_get}
use cse.Array.Laws.{IsValid, array_get-done}
use cse.Heap.{Heap, heap_type, left, right, assert_heap_property, heap_assertvalid}

array_get-panic {ℓ} : {A : Type ℓ} (a : Array A) (i : ℕ) → a.num ≤ i → array_get a i ≡ panic
unfolding array_get
array_get-panic a i h = ground arith

module _ {ℓ} {A : Type ℓ} (cmp : A → A → Bool) (a : Array A) (valid : IsValid a) where
  -- The right child's test and the two recursive calls, once the left child has passed.
  right_half : ℕ → ℕ → Run (Unit {0})
  right_half fuel i = do
    y ← array_get a i
    r ← array_get a (right i)
    kassert (cmp y r)
    assert_heap_property fuel a (left i) a.num cmp
    assert_heap_property fuel a (right i) a.num cmp

  right_half-panic :
      (fuel i : ℕ)
      → i < a.num
      → (right i < a.num → assert_heap_property fuel a (left i) a.num cmp ≡ panic)
      → right_half fuel i ≡ panic
  unfolding right_half
  right_half-panic fuel i h deeper = elim (Bool-cases (ltb (right i) a.num)) [
    | inr leaf ↦ rw (array_get-done a valid i h, array_get-panic a (right i) (ground arith))
    | inl node ↦
        let hr : right i < a.num = ground arith in
        rw (array_get-done a valid i h, array_get-done a valid (right i) hr)
          (ground (arith, deeper hr))
  ]

  assert_heap_property-panic :
      (fuel i : ℕ) → a.num < fuel + i → i < a.num → assert_heap_property fuel a i a.num cmp ≡ panic
  unfolding assert_heap_property right_half
  assert_heap_property-panic zero i f h = absurd (omega arith)
  assert_heap_property-panic (suc fuel) i f h =
      let inside : ltb i a.num ≡ true = ground arith in
      elim (Bool-cases (ltb (left i) a.num)) [
        | inr leaf ↦
            rw (inside, array_get-done a valid i h, array_get-panic a (left i) (ground arith))
        | inl node ↦
            let hl : left i < a.num = ground arith in
            let rest =
              right_half-panic fuel i h
                (λ p. assert_heap_property-panic fuel (left i) (omega arith) hl) in
            rw (inside, array_get-done a valid i h, array_get-done a valid (left i) hl)
              (step (cmp (a.v.mem i) (a.v.mem (left i))) _
                (rw (array_get-done a valid i h, right_half) at rest))
      ]
    where
      step : (b : Bool) (m : Run (Unit {0})) → m ≡ panic → (kassert b >> m) ≡ panic
      step true m e = e
      step false m e = refl

-- heap_assertvalid fails a KASSERT on every heap that is not empty, in order or not.
pub heap_assertvalid-panic {ℓ} :
    {A : Type ℓ} (h : Heap A) → IsValid h.vals → 0 < h.vals.num → heap_assertvalid h ≡ panic
unfolding heap_assertvalid
heap_assertvalid-panic h valid some_left = elim (Bool-cases (h.datatype == heap_type)) [
  | inl live ↦ rw live (
      assert_heap_property-panic h.comparator h.vals valid (h.vals.num + 1) 0 (omega arith)
        some_left)
  | inr dead ↦ rw dead
]
