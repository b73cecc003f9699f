-- ===== src/Linked/Ends.antt =====
-- The operations at the two ends of a list, and the sequence they stand for.
use cse.Base.{
  ℕ, ◌+◌, ◌-◌, ◌<◌, ◌^◌, ◌≡◌, refl, ap, ◌∙◌, Option, none, some, ◌⊎◌, inl, inr, List, [], ◌∷◌, ◌++◌,
  length, arith, update, ◌==◌, if◌then◌else◌, Status, success, enomem, done, kassert, ◌>>◌, Ends,
}
use cse.Linked.{
  LinkedList, Store, NodeAlloc, list_type, kfree, listnode_create, push_node, list_push_back,
  list_pop_front, pop_head, list_front, front_value,
}
use cse.Linked.Chain.{node_of, last_of, Chain-update, Away-free, IsLinked}
use cse.Linked.Tail.{test-zero, test-suc, deref_lem, Ends-live, push_node-Linked}

module _ {ℓ} {A : Type ℓ} where
  -- What kmalloc answers is not allocated.
  abbrev pub IsAlloc : NodeAlloc A → Type ℓ
  IsAlloc kmalloc = (m : Store A) (p : ℕ) → kmalloc m ≡ some p → m p ≡ none

  -- The results of list_push_back.
  abbrev pub Pushed :
      NodeAlloc A → Store A → LinkedList → List (ℕ × A) → A → Status × Store A × LinkedList → Type ℓ
  Pushed kmalloc m lst c y (s, m', lst') =
      ((s ≡ success) × ((b : ℕ) × IsLinked m' lst' (c ++ ((b, y) ∷ []))))
      ⊎ ((s ≡ enomem) × (kmalloc m ≡ none) × (m' ≡ m) × (lst' ≡ lst))

  -- Where kmalloc answers with memory that is not allocated, list_push_back on a list in memory of
  -- fewer than 2 ^ 32 - 1 values returns: success, with the new value behind the others, or ENOMEM,
  -- with nothing changed, if kmalloc answers NULL.
  pub list_push_back-Pushed :
      (kmalloc : NodeAlloc A) (m : Store A) (lst : LinkedList) (c : List (ℕ × A)) (y : A)
      → IsAlloc kmalloc
      → IsLinked m lst c
      → length c + 1 < 2 ^ 32
      → Ends (Pushed kmalloc m lst c y) (list_push_back kmalloc m lst y)
  unfolding list_push_back listnode_create
  list_push_back-Pushed kmalloc m lst c y alloc v room =
      Ends-live m lst c v _ _ (go (kmalloc m) refl)
    where
      created : Option ℕ → Option ℕ × Store A
      created o = elim o [
        | none ↦ (none, m)
        | some p ↦ (some p, update m p (some (node_of y none)))
      ]

      go :
          (o : Option ℕ)
          → kmalloc m ≡ o
          → Ends (Pushed kmalloc m lst c y) (push_node (created o) lst)
      go none refused = (_, refl, inr (refl, refused, refl, refl))
      go (some b) given =
          let free = Away-free m b lst.head c (alloc m b given) v.chain in
          let (r, e, (ok, linked)) =
            push_node-Linked m (update m b (some (node_of y none))) lst c b y v room (ground arith)
              free (Chain-update m b _ lst.head c free v.chain) in
          (r, e, inl (ok, (b, linked)))

  -- What list_pop_front leaves: the chain without its first node, which is freed.
  abbrev pub Popped : Store A → LinkedList → List (ℕ × A) → Store A × LinkedList → Type ℓ
  Popped m lst [] (m', lst') = (m' ≡ m) × (lst' ≡ lst)
  Popped m lst ((a, x) ∷ c) (m', lst') = IsLinked m' lst' c × (m' a ≡ none)

  pop_head_lem :
      (m : Store A) (lst : LinkedList) (a : ℕ) (x : A) (n : Option ℕ)
      → lst.head ≡ some a
      → m a ≡ some (node_of x n)
      → pop_head m lst lst.head
        ≡ done (
          update m a none,
          record lst {
            head = n;
            tail = if lst.size - 1 == 0 then none else lst.tail;
            size = lst.size - 1;
          },
        )
  unfolding pop_head kfree
  pop_head_lem m lst a x n e en = ap (pop_head m lst) e ∙ rw (deref_lem m a (node_of x n) en) refl

  -- The tail that list_pop_front sets.
  popped_tail :
      (size : ℕ) (t : Option ℕ) (a : ℕ) (x : A) (c : List (ℕ × A))
      → size ≡ length ((a, x) ∷ c)
      → t ≡ last_of ((a, x) ∷ c)
      → (if size - 1 == 0 then none else t) ≡ last_of c
  popped_tail size t a x [] es et = ground arith
  popped_tail size t a x (d ∷ c) es et = ground (arith, et)

  -- list_pop_front on a list in memory returns: the list without its first value, whose node is
  -- freed, or an empty list as it was.
  pub list_pop_front-Popped :
      (m : Store A) (lst : LinkedList) (c : List (ℕ × A))
      → IsLinked m lst c
      → Ends (Popped m lst c) (list_pop_front m lst)
  unfolding list_pop_front
  list_pop_front-Popped m lst [] v =
      Ends-live m lst [] v _ _ (_, test-zero _ _ lst.size v.count, (refl, refl))
  list_pop_front-Popped m lst ((a, x) ∷ c) v =
      let (e, apart, (n, en, rest)) = v.chain in
      Ends-live m lst ((a, x) ∷ c) v _ _ (
        _,
        test-suc _ _ lst.size (length c) v.count ∙ pop_head_lem m lst a x n e en,
        (
          record {
            live = v.live;
            chain = Chain-update m a none n c apart rest;
            last = popped_tail lst.size lst.tail a x c v.count v.last;
            count = omega (arith, v.count);
          },
          ground arith,
        ),
      )

  abbrev pub front_of : List (ℕ × A) → Option A
  front_of [] = none
  front_of ((a, x) ∷ c) = some x

  -- list_front on a list in memory returns its first value, or NULL for an empty list.
  pub list_front_lem :
      (m : Store A) (lst : LinkedList) (c : List (ℕ × A))
      → IsLinked m lst c
      → list_front m lst ≡ done (front_of c)
  unfolding list_front front_value
  list_front_lem m lst [] v =
      ap
        (λ d.
          kassert (d == list_type) >> (if lst.size == 0 then done none else front_value m lst.head))
        v.live
      ∙ test-zero _ _ lst.size v.count
  list_front_lem m lst ((a, x) ∷ c) v =
      let (e, apart, (n, en, rest)) = v.chain in
      ap
        (λ d.
          kassert (d == list_type) >> (if lst.size == 0 then done none else front_value m lst.head))
        v.live
      ∙ test-suc _ _ lst.size (length c) v.count
      ∙ ap (front_value m) e
      ∙ rw (deref_lem m a (node_of x n) en) refl
