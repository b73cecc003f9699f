-- ===== src/Heap/Queue.antt =====
-- heap_push and heap_pop as the operations of a priority queue.
use cse.Base.{
  ◌>>=◌, ℕ, zero, suc, ◌+◌, ◌-◌, ◌^◌, ◌<◌, ◌≡◌, ◌≢◌, refl, ◌∙◌, inl, inr, Bool, true, false, Option,
  none, some, arith, update, total, total-ext, total-zero, total-suc, total-update, Status, success,
  enomem, done, panic, Ends, Ends-seq, ◌==◌,
}
use cse.Array.{Array, array_cleanup, Kmalloc, array_add, array_get}
use cse.Array.Laws.{
  IsValid, IsKmalloc, Added, Keeps, array_add-Added, array_get-done, array_set-done,
}
use cse.Heap.{
  Heap, heap_type, parent, bubble_up, trickle_loop, trickle_down, after_add, heap_push, heap_pop,
  heap_top, heap_isempty, shrink,
}
use cse.Heap.Order.{IsPrecedence, IsHeap, Sifted}
use cse.Heap.Up.{bubble_loop-Sifted}
use cse.Heap.Down.{DownInv, trickle_loop-Sifted}

-- A live heap: the canary, a comparator that is an order, a valid array in heap order.
pub record IsQueue {ℓ} {A : Type ℓ} (h : Heap A) : Type ℓ where
  pub canary : h.datatype ≡ heap_type
  pub order : IsPrecedence h.comparator
  pub valid : IsValid h.vals
  pub heap : IsHeap h.comparator h.vals

-- The weighted sum over the elements of a heap.
abbrev pub weight {ℓ} : {A : Type ℓ} → (A → ℕ) → Heap A → ℕ
weight w h = total w h.vals.num h.vals.v.mem

-- `h'` is a live heap with the comparator of `h`, one more element, and the elements of `h` and `x`.
pub record Pushed {ℓ} {A : Type ℓ} (h : Heap A) (x : A) (h' : Heap A) : Type ℓ where
  pub queue : IsQueue h'
  pub same_order : h'.comparator ≡ h.comparator
  pub size : h'.vals.num ≡ h.vals.num + 1
  pub items : (w : A → ℕ) → weight w h' ≡ weight w h + w x

-- `h'` is a live heap with one element less: those of `h` without `x`, and none precedes `x`.
pub record Popped {ℓ} {A : Type ℓ} (h : Heap A) (x : A) (h' : Heap A) : Type ℓ where
  pub queue : IsQueue h'
  pub same_order : h'.comparator ≡ h.comparator
  pub size : h'.vals.num + 1 ≡ h.vals.num
  pub items : (w : A → ℕ) → weight w h' + w x ≡ weight w h
  pub first : (i : ℕ) → i < h.vals.num → h.comparator (h.vals.v.mem i) x ≡ false

module _ {ℓ} {A : Type ℓ} (h : Heap A) (q : IsQueue h) where
  abbrev cmp : A → A → Bool
  cmp = h.comparator

  canary_test : (h.datatype == heap_type) ≡ true
  canary_test = ground (arith, q.canary)

  -- No element of a heap precedes its root.
  root_first : (k i : ℕ) → i < k → i < h.vals.num → cmp (h.vals.v.mem i) (h.vals.v.mem 0) ≡ false
  root_first zero i f p = absurd (omega arith)
  root_first (suc k) zero f p = let r = h.vals.v.mem 0 in ground (arith, q.order.asym r r)
  root_first (suc k) (suc i) f p =
      q.order.trans _ _ _ (q.heap (suc i) (omega arith) p)
        (root_first k (parent (suc i)) (omega arith) (omega arith))

  bubble_up-Pushed :
      (x : A) (b : Array A)
      → IsValid b
      → b.num ≡ h.vals.num + 1
      → b.v.mem h.vals.num ≡ x
      → Keeps h.vals.num h.vals b
      → Ends (Pushed h x) (bubble_up (record h { vals = b }) (b.num - 1))
  unfolding bubble_up
  bubble_up-Pushed x b valid n at keeps = rw canary_test (
      Ends-seq (Sifted cmp b) _ _ _
        (bubble_loop-Sifted cmp q.order (b.num - 1 + 1) b (b.num - 1) (omega arith) (record {
          valid = valid;
          inside = omega arith;
          edges = λ c p r s. ground (arith, keeps c, keeps (parent c), q.heap c);
          bridged = λ c p r s t. absurd (omega arith);
        }))
        λ c s. (
          record h { vals = c },
          refl,
          record {
            queue = record { canary = q.canary; order = q.order; valid = s.valid; heap = s.heap };
            same_order = refl;
            size = s.num ∙ n;
            items = λ w. sums c s w;
          },
        ))
    where
      sums : (c : Array A) → Sifted cmp b c → (w : A → ℕ) → total w c.num c.v.mem ≡ weight w h + w x
      sums c s w = ground (
        arith,
        s.num,
        s.items w,
        total-suc w h.vals.num b.v.mem,
        total-ext w h.vals.num b.v.mem h.vals.v.mem keeps,
      )

  -- With memory at hand, heap_push on a live heap returns success and a live heap with exactly one
  -- more element, the new one.
  pub heap_push-Pushed :
      (kmalloc : Kmalloc A) (x : A)
      → IsKmalloc kmalloc
      → ((n : ℕ) → kmalloc n ≢ none)
      → h.vals.num < 2 ^ 28
      → Ends
          (λ r. (r.0 ≡ success) × ((h' : Heap A) × (r.1 ≡ some h') × Pushed h x h'))
          (heap_push kmalloc h x)
  unfolding heap_push
  heap_push-Pushed kmalloc x large memory small = rw canary_test (
      Ends-seq (Added kmalloc h.vals x) _ _ _ (array_add-Added kmalloc large h.vals q.valid x small)
        finish)
    where
      finish :
          (r : Status × ℕ × Array A)
          → Added kmalloc h.vals x r
          → Ends
              (λ r. (r.0 ≡ success) × ((h' : Heap A) × (r.1 ≡ some h') × Pushed h x h'))
              (after_add h r)
      finish (code, index, b) (inl (e, same, (n, refused))) = absurd (memory n refused)
      finish (code, index, b) (inr (e, ei, v, n, at, keeps)) =
          let last : (index == b.num - 1) ≡ true = ground arith in
          rw (e, after_add, last)
            (Ends-seq (Pushed h x) _ _ _ (bubble_up-Pushed x b v n at keeps)
              λ h' p. ((success, some h'), refl, (refl, (h', refl, p))))

  -- With no memory to grow, heap_push fails a KASSERT unless the heap is empty: it destroys the
  -- array while elements are in it.
  pub heap_push_no_memory :
      (kmalloc : Kmalloc A) (x : A)
      → array_add kmalloc h.vals x ≡ done (enomem, h.vals.num, h.vals)
      → (0 < h.vals.num → heap_push kmalloc h x ≡ panic)
        × (h.vals.num ≡ 0 → heap_push kmalloc h x ≡ done (enomem, none))
  unfolding heap_push after_add array_cleanup
  heap_push_no_memory kmalloc x failed = (
    λ some_left. rw (canary_test, failed) (ground arith),
    λ empty. rw (canary_test, failed) (ground arith),
  )

  -- the array that heap_pop hands to trickle_down
  abbrev cut : Array A
  cut = shrink (record (h.vals) {
    v = record (h.vals.v) { mem = update h.vals.v.mem 0 (h.vals.v.mem (h.vals.num - 1)) };
  })

  cut-DownInv : 0 < h.vals.num → DownInv cmp q.order cut 0
  cut-DownInv some_left = record {
    valid = record { num_in = omega (arith, q.valid.num_in); room = q.valid.room };
    inside = omega arith;
    edges = λ c p r s. ground (arith, q.heap c);
    bridged = λ c p r s t. absurd (omega arith);
  }

  cut-items :
      (w : A → ℕ)
      → 0 < h.vals.num
      → total w (h.vals.num - 1) cut.v.mem + w (h.vals.v.mem 0) ≡ weight w h
  cut-items w some_left = go h.vals.num some_left
    where
      f : ℕ → A
      f = h.vals.v.mem

      go : (n : ℕ) → 0 < n → total w (n - 1) (update f 0 (f (n - 1))) + w (f 0) ≡ total w n f
      go zero p = absurd (omega arith)
      go (suc zero) p =
          omega (arith, total-zero w (update f 0 (f 0)), total-suc w 0 f, total-zero w f)
      go (suc (suc m)) p =
          let n : suc (suc m) - 1 ≡ suc m = omega arith in
          rw n (
            omega
              (arith, total-update w (suc m) f 0 (f (suc m)) (omega arith), total-suc w (suc m) f))

  -- heap_pop on a live heap that is not empty returns an element that no other precedes, and leaves
  -- a live heap of exactly the others.
  pub heap_pop-Popped :
      0 < h.vals.num
      → Ends (λ (r : Option A × Heap A). (x : A) × (r.0 ≡ some x) × Popped h x r.1) (heap_pop h)
  unfolding heap_pop trickle_down
  heap_pop-Popped some_left =
      let full : (h.vals.num == 0) ≡ false = ground arith in
      rw
        (
          canary_test,
          full,
          array_get-done h.vals q.valid 0 some_left,
          array_get-done h.vals q.valid (h.vals.num - 1) (omega arith),
          array_set-done h.vals q.valid 0 (h.vals.v.mem (h.vals.num - 1)) some_left,
        )
        (finish (
          trickle_loop-Sifted cmp q.order (cut.num + 1) cut 0 (omega arith)
            (cut-DownInv some_left)))
    where
      finish :
          Ends (Sifted cmp cut) (trickle_loop (cut.num + 1) cmp cut 0)
          → Ends
              (λ (r : Option A × Heap A). (x : A) × (r.0 ≡ some x) × Popped h x r.1)
              (trickle_loop (cut.num + 1) cmp cut 0
                >>= (λ vals. done (record h { vals = vals }))
                >>= λ h'. done (some (h.vals.v.mem 0), h'))
      finish (c, e, s) = (
        (some (h.vals.v.mem 0), record h { vals = c }),
        rw e,
        (
          h.vals.v.mem 0,
          refl,
          record {
            queue = record { canary = q.canary; order = q.order; valid = s.valid; heap = s.heap };
            same_order = refl;
            size = omega (arith, s.num);
            items = λ w. ground (arith, s.num, s.items w, cut-items w some_left);
            first = λ i p. root_first (suc i) i (omega arith) p;
          },
        ),
      )

  -- heap_pop on an empty heap returns NULL, and heap_top fails a KASSERT there.
  pub heap_empty :
      h.vals.num ≡ 0
      → (heap_pop h ≡ done (none, h)) × (heap_top h ≡ panic) × (heap_isempty h ≡ done true)
  unfolding heap_pop heap_top heap_isempty array_get
  heap_empty none_left =
      (rw canary_test (ground arith), rw canary_test (ground arith), rw canary_test (ground arith))
