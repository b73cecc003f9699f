-- ===== src/Heap/Up.antt =====
-- bubble_up restores the order when only the edge above one element may be out of order.
use cse.Base.{
  ℕ, zero, suc, ◌<◌, ◌≡◌, ◌≢◌, refl, Bool, true, false, arith, ltb, Ends, Ends-test, Ends-weaken,
}
use cse.Array.{Array}
use cse.Array.Laws.{IsValid, array_get-done}
use cse.Heap.{parent, bubble_loop}
use cse.Heap.Order.{
  IsPrecedence, IsHeap, swapped, swapped_mem, Sifted, Sifted-swap, swapped-IsValid, swap-done,
}

module _ {ℓ} {A : Type ℓ} (cmp : A → A → Bool) (order : IsPrecedence cmp) where
  -- Only the edge above `i` may be out of order, and the children of `i` are in order with the
  -- parent of `i`.
  pub record UpInv (a : Array A) (i : ℕ) : Type ℓ where
    pub valid : IsValid a
    pub inside : i < a.num
    pub edges : (c : ℕ) → 0 < c → c < a.num → c ≢ i → cmp (a.v.mem c) (a.v.mem (parent c)) ≡ false
    pub bridged :
        (c : ℕ)
        → 0 < c
        → c < a.num
        → parent c ≡ i
        → 0 < i
        → cmp (a.v.mem c) (a.v.mem (parent i)) ≡ false

  swapped-edges :
      (a : Array A) (i : ℕ)
      → UpInv a i
      → 0 < i
      → cmp (a.v.mem i) (a.v.mem (parent i)) ≡ true
      → (c : ℕ) → 0 < c
      → c < a.num
      → c ≢ parent i
      → cmp (swapped_mem a.v.mem i (parent i) c) (swapped_mem a.v.mem i (parent i) (parent c))
        ≡ false
  swapped-edges a i inv pos below c p q r =
      let f = a.v.mem in
      ground (
        arith,
        order.asym (f i) (f (parent i)),
        order.trans (f c) (f (parent i)) (f i),
        inv.edges c,
        inv.bridged c,
      )

  swapped-bridged :
      (a : Array A) (i : ℕ)
      → UpInv a i
      → 0 < i
      → cmp (a.v.mem i) (a.v.mem (parent i)) ≡ true
      → (c : ℕ) → 0 < c
      → c < a.num
      → parent c ≡ parent i
      → 0 < parent i
      → cmp
          (swapped_mem a.v.mem i (parent i) c)
          (swapped_mem a.v.mem i (parent i) (parent (parent i)))
        ≡ false
  swapped-bridged a i inv pos below c p q r s =
      let f = a.v.mem in
      ground (
        arith,
        order.trans (f c) (f (parent i)) (f (parent (parent i))),
        inv.edges c,
        inv.edges (parent i),
      )

  -- The loop of bubble_up ends, in a heap of the same elements.
  pub bubble_loop-Sifted :
      (fuel : ℕ) (a : Array A) (i : ℕ)
      → i < fuel
      → UpInv a i
      → Ends (Sifted cmp a) (bubble_loop fuel cmp a i)
  unfolding bubble_loop
  bubble_loop-Sifted zero a i f inv = absurd (omega arith)
  bubble_loop-Sifted (suc fuel) a i f inv =
      let p : ℕ = parent i in
      let hp : p < a.num = omega (arith, inv.inside) in
      rw
        (
          array_get-done a inv.valid i inv.inside,
          array_get-done a inv.valid p hp,
          swap-done a inv.valid i p inv.inside hp,
        )
        (Ends-test (Sifted cmp a) (ltb 0 i) _ _
          (λ pos.
            Ends-test (Sifted cmp a) (cmp (a.v.mem i) (a.v.mem p)) _ _
              (λ below.
                Ends-weaken (Sifted cmp (swapped a i p)) (Sifted cmp a) _
                  (bubble_loop-Sifted fuel (swapped a i p) p (ground arith) (record {
                    valid = swapped-IsValid a inv.valid i p inv.inside hp;
                    inside = hp;
                    edges = swapped-edges a i inv (ground arith) below;
                    bridged = swapped-bridged a i inv (ground arith) below;
                  }))
                  (Sifted-swap a inv.valid i p inv.inside hp cmp))
              (λ settled. (a, refl, stay (λ c q r. ground (arith, inv.edges c)))))
          (λ root. (a, refl, stay (λ c q r. inv.edges c q r (ground arith)))))
    where
      stay : IsHeap cmp a → Sifted cmp a a
      stay h = record { valid = inv.valid; num = refl; heap = h; items = λ w. refl }
