-- ===== src/Linked/Remove.antt =====
-- list_remove of kern/lib/list.c.
use cse.Base.{
  ℕ, zero, suc, ◌+◌, ◌-◌, ◌%◌, ◌^◌, Bool, false, Option, none, some, ◌==◌, if◌then◌else◌, Run, done,
  out_of_fuel, ◌>>=◌, ◌>>◌, ℤ, is_zero_ℤ,
}
use cse.Linked.{Listnode, LinkedList, Store, kassert_list, kassert_listnode, deref, set_next, kfree}

-- `t == p` on pointers
abbrev pub is_pointer : Option ℕ → ℕ → Bool
is_pointer none p = false
is_pointer (some t) p = t == p

module _ {ℓ} {A : Type ℓ} where
  -- The node behind `q`, or at the head, is now `next`.
  unfoldable pub bypass : Store A → LinkedList → Option ℕ → Option ℕ → Run (Store A × LinkedList)
  unfolding set_next
  bypass m lst none next = done (m, record lst { head = next })
  bypass m lst (some q) next = set_next m (some q) next >>= λ m'. done (m', lst)

  -- The body of the loop at the node `n`, at `p` and behind `q`, that is removed.
  unfoldable pub unlink :
      Store A → LinkedList → Option ℕ → ℕ → Listnode A → Run (Option A × Store A × LinkedList)
  unfolding bypass kfree
  unlink m lst q p n = do
    (m', lst') ← bypass m lst q n.next
    let tail = if is_pointer lst'.tail p then q else lst'.tail
    done (
      some n.val,
      kfree m' p,
      record lst' { tail = tail; size = (lst'.size + (2 ^ 32 - 1)) % 2 ^ 32 },
    )

  unfoldable pub remove_loop :
      ℕ
      → Store A
      → LinkedList
      → Option ℕ
      → Option ℕ
      → A
      → (A → A → ℤ)
      → Run (Option A × Store A × LinkedList)
  unfolding deref unlink
  remove_loop zero m lst q p query_val comparator = out_of_fuel
  remove_loop (suc fuel) m lst q none query_val comparator = done (none, m, lst)
  remove_loop (suc fuel) m lst q (some p) query_val comparator = do
    n ← deref m (some p)
    kassert_listnode n
    let rest = remove_loop fuel m lst (some p) n.next query_val comparator
    if is_zero_ℤ (comparator n.val query_val) then unlink m lst q p n else rest

  -- What the code behind the loop does.
  abbrev pub clear_tail : Option A × Store A × LinkedList → Option A × Store A × LinkedList
  clear_tail (res, m, lst) =
      (res, m, record lst { tail = if lst.size == 0 then none else lst.tail })

  unfoldable pub list_remove :
      Store A → LinkedList → A → (A → A → ℤ) → Run (Option A × Store A × LinkedList)
  unfolding remove_loop
  list_remove m lst query_val comparator =
      kassert_list lst
      >> (remove_loop (lst.size + 1) m lst none lst.head query_val comparator >>= λ r.
          done (clear_tail r))
