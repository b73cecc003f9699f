-- ===== src/Hashtable.antt =====
-- kern/lib/hashtable.c: a hash table with a linked list in each slot. A chain is the sequence of the
-- items of its list, as Linked has it: list_find is `first_of`, list_remove is `without`,
-- list_push_back appends and list_front and list_pop_front take the first item. A table is a pointer
-- that is not NULL. An item in a chain is not freed, so its canary is not modelled.
pub mod Keys
pub mod Item
pub mod Chain
pub mod Valid
pub mod Put
pub mod Rehash
pub mod Add
pub mod Find
pub mod Remove
pub mod Lifecycle
pub mod Memory
pub mod Bytes
mod Tests
use cse.Base.{
  ℕ, zero, suc, ◌+◌, ◌-◌, ◌*◌, ◌/◌, ◌%◌, ◌^◌, Bool, true, false, ◌&&◌, Option, none, some, List, [],
  ◌∷◌, ◌++◌, length, ltb, ◌==◌, if◌then◌else◌, first_of, without, update, Status, success, enomem,
  enospc, Run, done, out_of_fuel, kassert, ◌>>=◌, ◌>>◌,
}
use cse.Hashtable.Keys.{Key, hash}
use cse.Hashtable.Item.{KvPair, is_item, value_of}

-- HASHTABLETYPE
abbrev pub hashtable_type : ℕ
hashtable_type = 4444

abbrev pub lf_multiple : ℕ
lf_multiple = 2

abbrev pub min_size : ℕ
min_size = 8

-- `struct hashtable`: the chains of the slots below `arraysize`. Nothing reads init_size.
pub record Hashtable {ℓ} (V : Type ℓ) : Type ℓ where
  pub datatype : ℕ
  pub size : ℕ
  pub arraysize : ℕ
  pub vals : ℕ → List (KvPair V)

-- KASSERT_HASHTABLE
abbrev pub kassert_hashtable {ℓ} : {V : Type ℓ} → Hashtable V → Run (Unit {0})
kassert_hashtable h = kassert (h.datatype == hashtable_type)

-- `--n` on an unsigned int
abbrev pub decrement : ℕ → ℕ
decrement n = (n + (2 ^ 32 - 1)) % 2 ^ 32

-- `mem n` answers the n-th request to kmalloc; the functions count the requests.
module _ (mem : ℕ → Bool) where
  -- init_array_with_lists for `n` slots. The lists of an array that is not filled are freed.
  unfoldable pub init_array_with_lists : ℕ → ℕ → Status × ℕ
  init_array_with_lists zero t = (success, t)
  init_array_with_lists (suc n) t =
      let rest = init_array_with_lists n (t + 1) in if mem t then rest else (enomem, t + 1)

  -- The array that grow and shrink allocate, with its lists.
  unfoldable pub new_array : ℕ → ℕ → Status × ℕ
  unfolding init_array_with_lists
  new_array n t = if mem t then init_array_with_lists n (t + 1) else (enomem, t + 1)

module _ {ℓ} {V : Type ℓ} (mem : ℕ → Bool) where
  unfoldable pub hashtable_create : ℕ → Option (Hashtable V) × ℕ
  unfolding init_array_with_lists
  hashtable_create t =
      let h : Hashtable V = record {
        datatype = hashtable_type;
        size = 0;
        arraysize = min_size;
        vals = λ i. [];
      } in
      let (err, t') = init_array_with_lists mem min_size (t + 2) in
      if mem t
      then (if mem (t + 1)
          then elim err as (λ _. Option (Hashtable V) × ℕ) [
            | success ↦ (some h, t')
            | _ ↦ (none, t')
          ]
          else (none, t + 2))
      else (none, t + 1)

module _ {ℓ} {V : Type ℓ} where
  -- rehash on one chain of the old array: every item goes through hashtable_add, `add`, whose result
  -- is not read, and is taken off the chain.
  unfoldable pub rehash_chain :
      (ℕ → Hashtable V → KvPair V → Run (Status × ℕ × Hashtable V))
      → List (KvPair V)
      → ℕ
      → Hashtable V
      → Run (ℕ × Hashtable V)
  rehash_chain add [] t h = done (t, h)
  rehash_chain add (item ∷ chain) t h =
      add t h item >>= λ (err, t', h'). rehash_chain add chain t' h'

  -- The loop of rehash over the old array from `i`, with `n` slots left.
  unfoldable pub rehash :
      (ℕ → Hashtable V → KvPair V → Run (Status × ℕ × Hashtable V))
      → ℕ
      → ℕ
      → (ℕ → List (KvPair V))
      → ℕ
      → Hashtable V
      → Run (ℕ × Hashtable V)
  unfolding rehash_chain
  rehash add zero i source t h = done (t, h)
  rehash add (suc n) i source t h =
      rehash_chain add (source i) t h >>= λ (t', h'). rehash add n (i + 1) source t' h'

  -- The common part of grow and shrink behind the allocation of an array of `n` slots: the items move
  -- there. The old chains are empty then, as cleanup_array_with_lists asserts.
  unfoldable pub into_array :
      (ℕ → Hashtable V → KvPair V → Run (Status × ℕ × Hashtable V))
      → ℕ
      → Status × ℕ
      → Hashtable V
      → Run (Status × ℕ × Hashtable V)
  unfolding rehash
  into_array add n (success, t) h =
      rehash add h.arraysize 0 h.vals t (record h { vals = λ i. []; size = 0; arraysize = n })
      >>= λ (t', h'). done (success, t', h')
  into_array add n (enomem, t) h = done (enomem, t, h)
  into_array add n (enospc, t) h = done (enospc, t, h)

module _ {ℓ} {V : Type ℓ} (mem : ℕ → Bool) where
  unfoldable pub replace_array :
      (ℕ → Hashtable V → KvPair V → Run (Status × ℕ × Hashtable V))
      → ℕ
      → ℕ
      → Hashtable V
      → Run (Status × ℕ × Hashtable V)
  unfolding into_array
  replace_array add n t h = into_array add n (new_array mem n t) h

  unfoldable pub grow :
      (ℕ → Hashtable V → KvPair V → Run (Status × ℕ × Hashtable V))
      → ℕ
      → Hashtable V
      → Run (Status × ℕ × Hashtable V)
  unfolding replace_array
  grow add t h = kassert_hashtable h >> replace_array add (h.arraysize * 2 % 2 ^ 32) t h

  unfoldable pub shrink :
      (ℕ → Hashtable V → KvPair V → Run (Status × ℕ × Hashtable V))
      → ℕ
      → Hashtable V
      → Run (Status × ℕ × Hashtable V)
  unfolding replace_array
  shrink add t h = kassert_hashtable h >> replace_array add (h.arraysize / 2) t h

  -- The part of hashtable_add behind the call of grow: an old item of the key is removed, and the new
  -- one appended. kv_create and list_push_back ask for memory.
  unfoldable pub put_item : ℕ → Hashtable V → KvPair V → Status × ℕ × Hashtable V
  put_item t h item =
      let index = hash item.key % h.arraysize in
      let chain = h.vals index in
      let removed = first_of (is_item item.key) chain in
      let rest = without (is_item item.key) chain in
      let short = record h { vals = update h.vals index rest } in
      let full = record h {
        vals = update h.vals index (rest ++ (item ∷ []));
        size = elim removed [ none ↦ (h.size + 1) % 2 ^ 32 | some old ↦ h.size ];
      } in
      if mem t
      then (if mem (t + 1) then (success, t + 2, full) else (enomem, t + 2, short))
      else (enomem, t + 1, short)

  -- hashtable_add calls grow, which calls it again through rehash: the first argument bounds the depth.
  unfoldable pub hashtable_add : ℕ → ℕ → Hashtable V → KvPair V → Run (Status × ℕ × Hashtable V)
  unfolding grow put_item
  hashtable_add zero t h item = out_of_fuel
  hashtable_add (suc depth) t h item =
      let grown = grow (hashtable_add depth) t h >>= λ (err, t', h'). done (put_item t' h' item) in
      let kept = done (put_item t h item) in
      kassert_hashtable h
      >> (if ltb h.arraysize ((h.size + 1) * lf_multiple % 2 ^ 32) then grown else kept)

  -- The part of hashtable_remove behind the removal of an item.
  unfoldable pub after_remove : ℕ → ℕ → Hashtable V → Run (ℕ × Hashtable V)
  unfolding shrink hashtable_add
  after_remove depth t h =
      let smaller = shrink (hashtable_add depth) t h >>= λ (err, t', h'). done (t', h') in
      if ltb min_size h.arraysize && ltb (decrement h.size * lf_multiple % 2 ^ 32) h.arraysize
      then smaller
      else done (t, h)

  -- `kfree_key` is the call of kfree on the key of the item that was removed. The key is the string that
  -- the caller of hashtable_add passed, and kfree may fail its KASSERT on a string that is not from kmalloc.
  unfoldable pub hashtable_remove :
      (KvPair V → Run (Unit {0})) → ℕ → ℕ → Hashtable V → Key → Run (Option V × ℕ × Hashtable V)
  unfolding after_remove
  hashtable_remove kfree_key depth t h k =
      let index = hash k % h.arraysize in
      let chain = h.vals index in
      let h' = record h {
        vals = update h.vals index (without (is_item k) chain);
        size = decrement h.size;
      } in
      kassert_hashtable h
      >> elim (first_of (is_item k) chain) as (λ _. Run (Option V × ℕ × Hashtable V)) [
        | none ↦ done (none, t, h)
        | some item ↦
            (after_remove depth t h' >>= λ (t', h'').
            kfree_key item >> done (some item.val, t', h''))
      ]

unfoldable pub hashtable_find {ℓ} : {V : Type ℓ} → Hashtable V → Key → Run (Option V)
hashtable_find h k =
    kassert_hashtable h >> done (value_of (first_of (is_item k) (h.vals (hash k % h.arraysize))))

-- cleanup_array_with_lists from slot `i`, with `n` slots left.
unfoldable pub cleanup_array_with_lists {ℓ} :
    {V : Type ℓ} → ℕ → ℕ → (ℕ → List (KvPair V)) → Run (Unit {0})
cleanup_array_with_lists zero i vals = done tt
cleanup_array_with_lists (suc n) i vals =
    kassert (length (vals i) == 0) >> cleanup_array_with_lists n (i + 1) vals

unfoldable pub hashtable_destroy {ℓ} : {V : Type ℓ} → Hashtable V → Run (Unit {0})
unfolding cleanup_array_with_lists
hashtable_destroy h = kassert_hashtable h >> cleanup_array_with_lists h.arraysize 0 h.vals

unfoldable pub hashtable_isempty {ℓ} : {V : Type ℓ} → Hashtable V → Run Bool
hashtable_isempty h = kassert_hashtable h >> done (h.size == 0)

unfoldable pub hashtable_getsize {ℓ} : {V : Type ℓ} → Hashtable V → Run ℕ
hashtable_getsize h = kassert_hashtable h >> done h.size
