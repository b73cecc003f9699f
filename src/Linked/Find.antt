-- ===== src/Linked/Find.antt =====
-- list_find on a list in memory.
use cse.Base.{
  ℕ, zero, suc, ◌+◌, ◌<◌, ◌≡◌, refl, ap, ◌∙◌, Bool, true, false, Option, none, some, List, [], ◌∷◌,
  length, arith, ◌==◌, if◌then◌else◌, done, kassert, ◌>>◌, ℤ, is_zero_ℤ,
}
use cse.Linked.{LinkedList, Store, list_type, find_loop, list_find}
use cse.Linked.Chain.{node_of, Chain, IsLinked}
use cse.Linked.Tail.{deref_lem}

module _ {ℓ} {A : Type ℓ} (query_val : A) (comparator : A → A → ℤ) where
  -- The first value of the chain that compares as equal.
  abbrev pub first_match : List (ℕ × A) → Option A
  first_match [] = none
  first_match ((a, x) ∷ c) = if is_zero_ℤ (comparator x query_val) then some x else first_match c

  find_loop_lem :
      (fuel : ℕ) (m : Store A) (p : Option ℕ) (c : List (ℕ × A))
      → Chain m p c
      → length c < fuel
      → find_loop fuel m p query_val comparator ≡ done (first_match c)
  unfolding find_loop
  find_loop_lem zero m p c h room = absurd (omega arith)
  find_loop_lem (suc fuel) m p [] (e, _) room =
      ap (λ o. find_loop (suc fuel) m o query_val comparator) e
  find_loop_lem (suc fuel) m p ((a, x) ∷ c) (e, apart, (n, en, rest)) room =
      ap (λ o. find_loop (suc fuel) m o query_val comparator) e
      ∙ rw (deref_lem m a (node_of x n) en)
          (go (is_zero_ℤ (comparator x query_val)) (find_loop_lem fuel m n c rest (omega arith)))
    where
      go :
          (b : Bool)
          → find_loop fuel m n query_val comparator ≡ done (first_match c)
          → (if b then done (some x) else find_loop fuel m n query_val comparator)
            ≡ done (if b then some x else first_match c)
      go true ih = refl
      go false ih = ih

  -- list_find on a list in memory ends, and returns the first value for which the comparator
  -- answers 0, or NULL if there is none.
  pub list_find_lem :
      (m : Store A) (lst : LinkedList) (c : List (ℕ × A))
      → IsLinked m lst c
      → list_find m lst query_val comparator ≡ done (first_match c)
  unfolding list_find
  list_find_lem m lst c v =
      ap (λ d. kassert (d == list_type) >> find_loop (lst.size + 1) m lst.head query_val comparator)
        v.live
      ∙ find_loop_lem (lst.size + 1) m lst.head c v.chain (omega (arith, v.count))
