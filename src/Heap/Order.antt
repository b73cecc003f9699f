-- ===== src/Heap/Order.antt =====
-- The heap order under a comparator, and what a swap does to an array's elements.
use cse.Base.{ℕ, ◌<◌, ◌≡◌, ◌∙◌, Bool, true, false, arith, update, total, total-update, done}
use cse.Array.{Array}
use cse.Array.Laws.{IsValid, array_get-done, array_set-done}
use cse.Heap.{parent, swap}

-- What heap.h asks of a comparator: 1 if the left element precedes the right one, else 0. An
-- element does not precede one that precedes it, and "does not precede" is transitive.
pub record IsPrecedence {ℓ} {A : Type ℓ} (cmp : A → A → Bool) : Type ℓ where
  pub asym : (x y : A) → cmp x y ≡ true → cmp y x ≡ false
  pub trans : (x y z : A) → cmp x y ≡ false → cmp y z ≡ false → cmp x z ≡ false

-- No element precedes its parent.
abbrev pub IsHeap {ℓ} : {A : Type ℓ} → (A → A → Bool) → Array A → Type 0
IsHeap cmp a = (c : ℕ) → 0 < c → c < a.num → cmp (a.v.mem c) (a.v.mem (parent c)) ≡ false

-- The elements below `n` are the same, as often: every weighted sum over them agrees.
abbrev pub SameItems {ℓ} : {A : Type ℓ} → ℕ → (ℕ → A) → (ℕ → A) → Type ℓ
SameItems {A} n f g = (w : A → ℕ) → total w n f ≡ total w n g

-- The array with its elements traded at `i` and `j`.
abbrev pub swapped_mem {ℓ} : {A : Type ℓ} → (ℕ → A) → ℕ → ℕ → ℕ → A
swapped_mem f i j = update (update f i (f j)) j (f i)

abbrev pub swapped {ℓ} : {A : Type ℓ} → Array A → ℕ → ℕ → Array A
swapped a i j = record a { v = record (a.v) { mem = swapped_mem a.v.mem i j } }

pub swapped-SameItems {ℓ} :
    {A : Type ℓ} (n : ℕ) (f : ℕ → A) (i j : ℕ) → i < n → j < n → SameItems n (swapped_mem f i j) f
swapped-SameItems n f i j hi hj w =
    ground (arith, total-update w n f i (f j) hi, total-update w n (update f i (f j)) j (f i) hj)

-- The order and the elements of `a` that a loop restores in `b`.
pub record Sifted {ℓ} {A : Type ℓ} (cmp : A → A → Bool) (a b : Array A) : Type ℓ where
  pub valid : IsValid b
  pub num : b.num ≡ a.num
  pub heap : IsHeap cmp b
  pub items : SameItems a.num b.v.mem a.v.mem

module _ {ℓ} {A : Type ℓ} (a : Array A) (valid : IsValid a) (i j : ℕ) (hi : i < a.num)
    (hj : j < a.num) where
  pub swapped-IsValid : IsValid (swapped a i j)
  swapped-IsValid = record { num_in = valid.num_in; room = valid.room }

  pub swap-done : swap a i j ≡ done (swapped a i j)
  unfolding swap
  swap-done =
      rw
        (
          array_get-done a valid i hi,
          array_get-done a valid j hj,
          array_set-done a valid i (a.v.mem j) hi,
        )
        (array_set-done _ (record { num_in = valid.num_in; room = valid.room }) j (a.v.mem i) hj)

  pub Sifted-swap :
      (cmp : A → A → Bool) (b : Array A) → Sifted cmp (swapped a i j) b → Sifted cmp a b
  Sifted-swap cmp b s = record {
    valid = s.valid;
    num = s.num;
    heap = s.heap;
    items = λ w. s.items w ∙ swapped-SameItems a.num a.v.mem i j hi hj w;
  }
