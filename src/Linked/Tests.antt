-- ===== src/Linked/Tests.antt =====
-- The linked list at concrete inputs: the numbers 5 and 7 at the addresses 1 and 2.
use cse.Base.{
  ℕ, ◌≡◌, refl, sym, Option, none, some, List, [], ◌∷◌, arith, update, ◌==◌, if◌then◌else◌, Ends,
  done, ℤ, pos,
}
use cse.Linked.{
  Listnode, LinkedList, Store, NodeAlloc, list_type, list_push_back, list_pop_front, list_find,
}
use cse.Linked.Chain.{node_of, IsLinked}
use cse.Linked.Ends.{IsAlloc, Pushed, Popped, list_push_back-Pushed, list_pop_front-Popped}
use cse.Linked.Remove.{list_remove}
use cse.Linked.Taken.{Taken, list_remove-Taken}
use cse.Linked.Find.{first_match, list_find_lem}

abbrev nodes : Store ℕ
nodes = update (update (λ i. none) 1 (some (node_of 5 (some 2)))) 2 (some (node_of 7 none))

abbrev two : LinkedList
two = record { datatype = list_type; head = some 1; tail = some 2; size = 2 }

abbrev contents : List (ℕ × ℕ)
contents = (1, 5) ∷ (2, 7) ∷ []

two-IsLinked : IsLinked nodes two contents
two-IsLinked = record {
  live = refl;
  chain = (refl, (omega arith, tt), (some 2, refl, (refl, tt, (none, refl, (refl, tt)))));
  last = refl;
  count = refl;
}

-- The address 3, while it is free.
abbrev next_free : NodeAlloc ℕ
next_free m = elim (m 3) [ none ↦ some 3 | some n ↦ none ]

next_free-IsAlloc : IsAlloc next_free
next_free-IsAlloc m p e = go (m 3) refl e
  where
    go :
        (o : Option (Listnode ℕ))
        → m 3 ≡ o
        → (elim o as (λ _. Option ℕ) [ none ↦ some 3 | some n ↦ none ]) ≡ some p
        → m p ≡ none
    go none eo e = let same : 3 ≡ p = ground arith in rw (sym same) eo
    go (some n) eo e = absurd cc

abbrev compare_numbers : ℕ → ℕ → ℤ
compare_numbers a b = if a == b then pos 0 else pos 1

list_push_back-Pushed_example :
    Ends (Pushed next_free nodes two contents 9) (list_push_back next_free nodes two 9)
list_push_back-Pushed_example =
    list_push_back-Pushed next_free nodes two contents 9 next_free-IsAlloc two-IsLinked
      (omega arith)

list_pop_front-Popped_example : Ends (Popped nodes two contents) (list_pop_front nodes two)
list_pop_front-Popped_example = list_pop_front-Popped nodes two contents two-IsLinked

list_find_lem_example :
    list_find nodes two 7 compare_numbers ≡ done (first_match 7 compare_numbers contents)
list_find_lem_example = list_find_lem 7 compare_numbers nodes two contents two-IsLinked

list_remove-Taken_example :
    Ends (Taken 7 compare_numbers contents) (list_remove nodes two 7 compare_numbers)
list_remove-Taken_example =
    list_remove-Taken 7 compare_numbers nodes two contents two-IsLinked (omega arith)
