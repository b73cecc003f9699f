-- ===== src/Heap/Down.antt =====
-- trickle_down restores the order when only the edges below one element may be out of order.
use cse.Base.{
  ℕ, zero, suc, ◌+◌, ◌≤◌, ◌<◌, ◌≡◌, ◌≢◌, ◌⊎◌, inl, inr, refl, Bool, true, false, Option, none, some,
  arith, ltb, done, Ends, Ends-seq, Ends-test, Ends-weaken, if◌then◌else◌,
}
use cse.Array.{Array}
use cse.Array.Laws.{IsValid, array_get-done}
use cse.Heap.{parent, left, right, left_only, choose, trickle_loop}
use cse.Heap.Order.{IsPrecedence, swapped, Sifted, Sifted-swap, swapped-IsValid, swap-done}

module _ {ℓ} {A : Type ℓ} (cmp : A → A → Bool) (order : IsPrecedence cmp) where
  -- Only the edges below `i` may be out of order, and the children of `i` are in order with the
  -- parent of `i`.
  pub record DownInv (a : Array A) (i : ℕ) : Type ℓ where
    pub valid : IsValid a
    pub inside : i ≤ a.num
    pub edges :
        (c : ℕ) → 0 < c → c < a.num → parent c ≢ i → cmp (a.v.mem c) (a.v.mem (parent c)) ≡ false
    pub bridged :
        (c : ℕ)
        → 0 < c
        → c < a.num
        → parent c ≡ i
        → 0 < i
        → cmp (a.v.mem c) (a.v.mem (parent i)) ≡ false

  -- The child `j` precedes `i`, and no child of `i` precedes `j`.
  record First (a : Array A) (i j : ℕ) : Type 0 where
    inside : j < a.num
    child : (j ≡ left i) ⊎ (j ≡ right i)
    precedes : cmp (a.v.mem j) (a.v.mem i) ≡ true
    first : (c : ℕ) → 0 < c → c < a.num → parent c ≡ i → cmp (a.v.mem c) (a.v.mem j) ≡ false

  -- What `choose` answers: a first child, or that no child precedes.
  abbrev Chosen : Array A → ℕ → Option ℕ → Type 0
  Chosen a i (some j) = First a i j
  Chosen a i none = (c : ℕ) → 0 < c → c < a.num → parent c ≡ i → cmp (a.v.mem c) (a.v.mem i) ≡ false

  irrefl : (x : A) → cmp x x ≡ false
  irrefl x = ground (arith, order.asym x x)

  -- The left child alone is looked at where the right one does not exist or does not precede.
  left_only-Chosen :
      (a : Array A) (i : ℕ)
      → IsValid a
      → (right i < a.num → cmp (a.v.mem (right i)) (a.v.mem i) ≡ false)
      → Ends (Chosen a i) (left_only cmp a i)
  unfolding left_only
  left_only-Chosen a i valid settled =
      Ends-test (Chosen a i) (ltb (left i) a.num) _ _
        (λ there.
          let f = a.v.mem in
          let hl : left i < a.num = ground arith in
          rw (array_get-done a valid (left i) hl, array_get-done a valid i (omega arith))
            (pick hl (cmp (f (left i)) (f i)) refl))
        (λ gone. (none, refl, λ c p q r. absurd (ground arith)))
    where
      pick :
          left i < a.num
          → (b : Bool) → cmp (a.v.mem (left i)) (a.v.mem i) ≡ b
          → Ends (Chosen a i) (done (if b then some (left i) else none))
      pick hl true e = (
        some (left i),
        refl,
        record {
          inside = hl;
          child = inl refl;
          precedes = e;
          first = λ c p q r. ground (
            arith,
            settled,
            irrefl (a.v.mem (left i)),
            order.asym (a.v.mem (left i)) (a.v.mem i),
            order.trans (a.v.mem c) (a.v.mem i) (a.v.mem (left i)),
          );
        },
      )
      pick hl false e = (none, refl, λ c p q r. ground (arith, settled))

  -- The choice that the loop body of trickle_down makes.
  choose-Chosen : (a : Array A) (i : ℕ) → IsValid a → Ends (Chosen a i) (choose cmp a i)
  unfolding choose
  choose-Chosen a i valid =
      Ends-test (Chosen a i) (ltb (right i) a.num) _ _
        (λ there.
          let hr : right i < a.num = ground arith in
          let hl : left i < a.num = omega arith in
          rw
            (
              array_get-done a valid (left i) hl,
              array_get-done a valid (right i) hr,
              array_get-done a valid i (omega arith),
            )
            (Ends-test (Chosen a i) (cmp (a.v.mem (right i)) (a.v.mem i)) _ _
              (λ lower. pick hr lower (cmp (a.v.mem (left i)) (a.v.mem (right i))) refl)
              (λ settled. left_only-Chosen a i valid (λ _. settled))))
        (λ gone. left_only-Chosen a i valid (λ p. absurd (ground arith)))
    where
      l : A
      l = a.v.mem (left i)

      r : A
      r = a.v.mem (right i)

      top : A
      top = a.v.mem i

      pick :
          right i < a.num
          → cmp r top ≡ true
          → (b : Bool) → cmp l r ≡ b
          → Ends (Chosen a i) (done (if b then some (left i) else some (right i)))
      pick hr lower true e = (
        some (left i),
        refl,
        record {
          inside = omega arith;
          child = inl refl;
          precedes = ground (arith, order.asym r top, order.trans l top r);
          first = λ c p q s. ground (arith, irrefl l, order.asym l r);
        },
      )
      pick hr lower false e = (
        some (right i),
        refl,
        record {
          inside = hr;
          child = inr refl;
          precedes = lower;
          first = λ c p q s. ground (arith, irrefl r);
        },
      )

  swapped-DownInv : (a : Array A) (i j : ℕ) → DownInv a i → First a i j → DownInv (swapped a j i) j
  swapped-DownInv a i j inv fst =
      let f = a.v.mem in
      record {
        valid = swapped-IsValid a inv.valid j i fst.inside (omega (arith, fst.child));
        inside = omega (arith, fst.inside);
        edges = λ c p q s.
            ground
              (arith, fst.child, order.asym (f j) (f i), fst.first c, inv.edges c, inv.bridged j);
        bridged = λ c p q s t. ground (arith, fst.child, inv.edges c);
      }

  -- The loop of trickle_down ends, in a heap of the same elements.
  pub trickle_loop-Sifted :
      (fuel : ℕ) (a : Array A) (i : ℕ)
      → a.num < fuel + i
      → DownInv a i
      → Ends (Sifted cmp a) (trickle_loop fuel cmp a i)
  unfolding trickle_loop
  trickle_loop-Sifted zero a i f inv = absurd (omega (arith, inv.inside))
  trickle_loop-Sifted (suc fuel) a i f inv =
      Ends-seq (Chosen a i) (Sifted cmp a) _ _ (choose-Chosen a i inv.valid) elim [
        | none ↦ λ settled. (
          a,
          refl,
          record {
            valid = inv.valid;
            num = refl;
            heap = λ c p q. ground (arith, settled c p q, inv.edges c p q);
            items = λ w. refl;
          },
        )
        | some j ↦ λ fst.
            let hi : i < a.num = omega (arith, fst.child) in
            rw (swap-done a inv.valid j i fst.inside hi) (
              Ends-weaken (Sifted cmp (swapped a j i)) (Sifted cmp a) _
                (trickle_loop-Sifted fuel (swapped a j i) j (omega (arith, fst.child))
                  (swapped-DownInv a i j inv fst))
                (Sifted-swap a inv.valid j i fst.inside hi cmp))
      ]
