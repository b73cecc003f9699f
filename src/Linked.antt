-- ===== src/Linked.antt =====
-- kern/lib/list.c: the singly linked list, over a memory of nodes. A list value is a pointer that is
-- not NULL; NULL as a value or as a pointer to a node is `none`.
pub mod Chain
pub mod Tail
pub mod Ends
pub mod Find
pub mod Remove
pub mod Cut
pub mod Taken
mod Tests
use cse.Base.{
  ℕ, zero, suc, ◌+◌, ◌-◌, ◌%◌, ◌^◌, Bool, true, false, Option, none, some, ◌==◌, if◌then◌else◌,
  Status, success, enomem, Run, done, panic, fault, out_of_fuel, kassert, ◌>>=◌, ◌>>◌, update, ℤ,
  is_zero_ℤ,
}

-- LISTTYPE
abbrev pub list_type : ℕ
list_type = 1111

-- LISTNODETYPE
abbrev pub listnode_type : ℕ
listnode_type = 1112

pub record Listnode {ℓ} (A : Type ℓ) : Type ℓ where
  pub datatype : ℕ
  pub val : A
  pub next : Option ℕ

-- `struct list`: the pointers are addresses of nodes.
pub record LinkedList : Type 0 where
  pub datatype : ℕ
  pub head : Option ℕ
  pub tail : Option ℕ
  pub size : ℕ

-- The nodes at their addresses; `none` is memory that is not allocated.
abbrev pub Store {ℓ} : Type ℓ → Type ℓ
Store A = ℕ → Option (Listnode A)

-- kmalloc for a node: an address, or NULL.
abbrev pub NodeAlloc {ℓ} : Type ℓ → Type ℓ
NodeAlloc A = Store A → Option ℕ

-- KASSERT_LIST
abbrev pub kassert_list : LinkedList → Run (Unit {0})
kassert_list lst = kassert (lst.datatype == list_type)

module _ {ℓ} {A : Type ℓ} where
  -- KASSERT_LISTNODE
  abbrev pub kassert_listnode : Listnode A → Run (Unit {0})
  kassert_listnode n = kassert (n.datatype == listnode_type)

  -- A read through a pointer: at NULL and in freed memory it is a fault.
  unfoldable pub deref : Store A → Option ℕ → Run (Listnode A)
  deref m none = fault
  deref m (some p) = elim (m p) [ none ↦ fault | some n ↦ done n ]

  -- `p->next = next`
  unfoldable pub set_next : Store A → Option ℕ → Option ℕ → Run (Store A)
  unfolding deref
  set_next m none next = fault
  set_next m (some p) next = do
    n ← deref m (some p)
    done (update m p (some (record n { next = next })))

  unfoldable pub kfree : Store A → ℕ → Store A
  kfree m p = update m p none

  unfoldable pub listnode_create : NodeAlloc A → Store A → A → Option ℕ × Store A
  listnode_create kmalloc m newval = elim (kmalloc m) [
    | none ↦ (none, m)
    | some p ↦
        (some p, update m p (some (record { datatype = listnode_type; val = newval; next = none })))
  ]

  -- The link to the new node from the last one.
  unfoldable pub link_behind : Store A → LinkedList → Option ℕ → Run (Store A × LinkedList)
  unfolding deref set_next
  link_behind m lst newnode = do
    t ← deref m lst.tail
    kassert_listnode t
    m' ← set_next m lst.tail newnode
    done (m', lst)

  -- The link to the new node: from the head of an empty list, or from its tail.
  unfoldable pub link : Store A → LinkedList → Option ℕ → Run (Store A × LinkedList)
  unfolding link_behind
  link m lst newnode =
      let behind = link_behind m lst newnode in
      if lst.size == 0 then done (m, record lst { head = newnode }) else behind

  -- The part of list_push_back behind the call of listnode_create.
  unfoldable pub push_node : Option ℕ × Store A → LinkedList → Run (Status × Store A × LinkedList)
  unfolding link deref
  push_node (none, m) lst = done (enomem, m, lst)
  push_node (some p, m) lst = do
    n ← deref m (some p)
    kassert_listnode n
    (m', lst') ← link m lst (some p)
    done (success, m', record lst' { tail = some p; size = (lst'.size + 1) % 2 ^ 32 })

  unfoldable pub list_push_back :
      NodeAlloc A → Store A → LinkedList → A → Run (Status × Store A × LinkedList)
  unfolding listnode_create push_node
  list_push_back kmalloc m lst newval =
      kassert_list lst >> push_node (listnode_create kmalloc m newval) lst

  -- The part of list_pop_front for a list that is not empty.
  unfoldable pub pop_head : Store A → LinkedList → Option ℕ → Run (Store A × LinkedList)
  unfolding deref kfree
  pop_head m lst none = fault
  pop_head m lst (some old_head) = do
    n ← deref m (some old_head)
    kassert_listnode n
    let size = lst.size - 1
    done (
      kfree m old_head,
      record lst { head = n.next; tail = if size == 0 then none else lst.tail; size = size },
    )

  unfoldable pub list_pop_front : Store A → LinkedList → Run (Store A × LinkedList)
  unfolding pop_head
  list_pop_front m lst =
      let pop = pop_head m lst lst.head in
      kassert_list lst >> (if lst.size == 0 then done (m, lst) else pop)

  -- The part of list_front for a list that is not empty.
  unfoldable pub front_value : Store A → Option ℕ → Run (Option A)
  unfolding deref
  front_value m none = panic
  front_value m (some head) = do n ← deref m (some head); kassert_listnode n; done (some n.val)

  unfoldable pub list_front : Store A → LinkedList → Run (Option A)
  unfolding front_value
  list_front m lst =
      let look = front_value m lst.head in
      kassert_list lst >> (if lst.size == 0 then done none else look)

  -- The loop of list_find, from the node at `p`.
  unfoldable pub find_loop : ℕ → Store A → Option ℕ → A → (A → A → ℤ) → Run (Option A)
  unfolding deref
  find_loop zero m p query_val comparator = out_of_fuel
  find_loop (suc fuel) m none query_val comparator = done none
  find_loop (suc fuel) m (some p) query_val comparator = do
    n ← deref m (some p)
    kassert_listnode n
    let rest = find_loop fuel m n.next query_val comparator
    if is_zero_ℤ (comparator n.val query_val) then done (some n.val) else rest

  unfoldable pub list_find : Store A → LinkedList → A → (A → A → ℤ) → Run (Option A)
  unfolding find_loop
  list_find m lst query_val comparator =
      kassert_list lst >> find_loop (lst.size + 1) m lst.head query_val comparator

-- NULL if the allocation fails.
unfoldable pub list_create : Bool → Option LinkedList
list_create mem =
    if mem then some (record { datatype = list_type; head = none; tail = none; size = 0 }) else none

unfoldable pub list_isempty : LinkedList → Run Bool
list_isempty lst = kassert_list lst >> done (lst.size == 0)

unfoldable pub list_getsize : LinkedList → Run ℕ
list_getsize lst = kassert_list lst >> done lst.size
