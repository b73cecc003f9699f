-- ===== src/Linked/Taken.antt =====
-- list_remove takes the first match out of the sequence.
use cse.Base.{
  ℕ, zero, suc, ◌+◌, ◌-◌, ◌<◌, ◌%◌, ◌^◌, ◌≡◌, refl, ap, ◌∙◌, Bool, true, false, Option, none, some,
  List, [], ◌∷◌, length, arith, ◌==◌, if◌then◌else◌, done, ◌>>=◌, Ends, ℤ, is_zero_ℤ,
}
use cse.Linked.{LinkedList, Store, kfree}
use cse.Linked.Chain.{node_of, Away, Chain, last_of, Chain-update, IsLinked}
use cse.Linked.Tail.{deref_lem, Ends-live}
use cse.Linked.Find.{first_match}
use cse.Linked.Remove.{bypass, unlink, remove_loop, clear_tail, list_remove}
use cse.Linked.Cut.{Cut, drop_match, cut_tail, wrapped, remove_loop-Cut}

module _ {ℓ} {A : Type ℓ} (query_val : A) (comparator : A → A → ℤ) where
  -- The results of list_remove: the first match, and the list of the others.
  abbrev pub Taken : List (ℕ × A) → Option A × Store A × LinkedList → Type ℓ
  Taken c (res, m, lst) =
      (res ≡ first_match query_val comparator c)
      × IsLinked m lst (drop_match query_val comparator c)

  -- The tail that the code behind the loop leaves.
  cleared :
      (size : ℕ) (t : Option ℕ) (c : List (ℕ × A))
      → size ≡ length c
      → t ≡ last_of c
      → (if size == 0 then none else t) ≡ last_of c
  cleared size t [] e et = ground arith
  cleared size t (d ∷ c) e et = ground (arith, et)

  last_front : (c : List (ℕ × A)) → elim c [ [] ↦ none | d ∷ c' ↦ last_of (d ∷ c') ] ≡ last_of c
  last_front [] = refl
  last_front (d ∷ c) = refl

  -- The first node matches.
  unlink_head :
      (m : Store A) (lst : LinkedList) (a : ℕ) (x : A) (k : Option ℕ) (c : List (ℕ × A))
      → IsLinked m lst ((a, x) ∷ c)
      → length c + 1 < 2 ^ 32
      → Away a c
      → Chain m k c
      → Ends
          (λ r. ((clear_tail r).0 ≡ some x) × IsLinked ((clear_tail r).1) ((clear_tail r).2) c)
          (unlink m lst none a (node_of x k))
  unfolding unlink bypass kfree
  unlink_head m lst a x k c v most apart rest = (
    _,
    refl,
    (
      refl,
      record {
        live = v.live;
        chain = Chain-update m a none k c apart rest;
        last =
            cleared _ _ c (smaller v.count)
              (cut_tail query_val comparator lst.tail none a x c apart v.last ∙ last_front c);
        count = smaller v.count;
      },
    ),
  )
    where
      smaller : lst.size ≡ suc (length c) → (lst.size + (2 ^ 32 - 1)) % 2 ^ 32 ≡ length c
      smaller e = omega (arith, wrapped query_val comparator lst.size (omega arith) (omega arith))

  remove_head :
      (fuel : ℕ) (m : Store A) (lst : LinkedList) (c : List (ℕ × A))
      → IsLinked m lst c
      → length c < 2 ^ 32
      → length c < fuel
      → Ends
          (λ r. Taken c (clear_tail r))
          (remove_loop fuel m lst none lst.head query_val comparator)
  unfolding remove_loop
  remove_head zero m lst c v most room = absurd (omega arith)
  remove_head (suc fuel) m lst [] v most room = (
    (none, m, lst),
    ap (λ o. remove_loop (suc fuel) m lst none o query_val comparator) ((v.chain).0),
    (
      refl,
      record {
        live = v.live;
        chain = v.chain;
        last = cleared lst.size lst.tail [] v.count v.last;
        count = v.count;
      },
    ),
  )
  remove_head (suc fuel) m lst ((a, x) ∷ c) v most room =
      let (e, apart, (k, ek, rest)) = v.chain in
      let (r, eq, taken) = go (is_zero_ℤ (comparator x query_val)) k apart rest (
        remove_loop-Cut query_val comparator fuel m lst a x c k apart ek rest v.last
          (omega (arith, v.count)) (omega (arith, v.count)) (omega arith)) in
      (
        r,
        ap (λ o. remove_loop (suc fuel) m lst none o query_val comparator) e
            ∙ rw (deref_lem m a (node_of x k) ek) eq,
        taken,
      )
    where
      kept :
          (r : Option A × Store A × LinkedList)
          → Cut query_val comparator m lst a x c
              (first_match query_val comparator c)
              (drop_match query_val comparator c)
              r
          → ((clear_tail r).0 ≡ first_match query_val comparator c)
            × IsLinked
                ((clear_tail r).1)
                ((clear_tail r).2)
                ((a, x) ∷ drop_match query_val comparator c)
      kept r cut =
          let count : (r.2).size ≡ suc (length (drop_match query_val comparator c)) =
            omega (arith, cut.size, v.count) in
          let (_, away, more) = cut.chain in
          (
            cut.res,
            record {
              live = cut.live ∙ v.live;
              chain = (cut.head ∙ (v.chain).0, away, more);
              last = cleared _ _ ((a, x) ∷ drop_match query_val comparator c) count cut.tail;
              count = count;
            },
          )

      go :
          (t : Bool) (k : Option ℕ)
          → Away a c
          → Chain m k c
          → Ends
              (Cut query_val comparator m lst a x c
                (first_match query_val comparator c)
                (drop_match query_val comparator c))
              (remove_loop fuel m lst (some a) k query_val comparator)
          → Ends
              (λ r.
                ((clear_tail r).0 ≡ (if t then some x else first_match query_val comparator c))
                × IsLinked
                    ((clear_tail r).1)
                    ((clear_tail r).2)
                    (if t then c else (a, x) ∷ drop_match query_val comparator c))
              (if t
                then unlink m lst none a (node_of x k)
                else remove_loop fuel m lst (some a) k query_val comparator)
      go true k apart rest ih = unlink_head m lst a x k c v (omega arith) apart rest
      go false k apart rest (r, eq, cut) = (r, eq, kept r cut)

  -- list_remove on a list in memory of fewer than 2 ^ 32 values ends: it returns the first value for
  -- which the comparator answers 0, and leaves the list of the others, in order; or it returns NULL,
  -- and leaves a list of the same values, if there is none.
  pub list_remove-Taken :
      (m : Store A) (lst : LinkedList) (c : List (ℕ × A))
      → IsLinked m lst c
      → length c < 2 ^ 32
      → Ends (Taken c) (list_remove m lst query_val comparator)
  unfolding list_remove
  list_remove-Taken m lst c v most =
      let (r, eq, taken) = remove_head (lst.size + 1) m lst c v most (omega (arith, v.count)) in
      Ends-live m lst c v _ _ (clear_tail r, ap (λ z. z >>= λ r. done (clear_tail r)) eq, taken)
