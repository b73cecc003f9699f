-- ===== src/Hashtable/Item.antt =====
-- The items of kern/lib/hashtable.c.
use cse.Base.{Bool, Option, none, some}
use cse.Hashtable.Keys.{Key, matches}

-- `struct kv_pair`: `key` holds the key and its length.
pub record KvPair {ℓ} (V : Type ℓ) : Type ℓ where
  pub key : Key
  pub val : V

-- Does the item have the key? The test of list_find and list_remove with key_comparator.
abbrev pub is_item {ℓ} : {V : Type ℓ} → Key → KvPair V → Bool
is_item k e = matches k e.key

-- The value that an answer of list_find or list_remove points to, or NULL.
abbrev pub value_of {ℓ} : {V : Type ℓ} → Option (KvPair V) → Option V
value_of none = none
value_of (some item) = some item.val
