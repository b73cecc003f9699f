-- ===== src/Hashtable/Valid.antt =====
-- Well-formed hash tables, and the map that one stands for.
use cse.Base.{
  ℕ, ◌+◌, ◌*◌, ◌%◌, ◌^◌, ◌<◌, ◌≤◌, ◌≡◌, ap, ◌∙◌, Option, some, List, length, first_of, total, Run,
  kassert, ◌==◌, ◌>>◌, Ends, if◌then◌else◌,
}
use cse.Hashtable.{Hashtable, hashtable_type, kassert_hashtable}
use cse.Hashtable.Keys.{Key, hash, matches}
use cse.Hashtable.Item.{KvPair, is_item, value_of}
use cse.Hashtable.Chain.{Distinct, Placed, found}

module _ {ℓ} {V : Type ℓ} where
  abbrev pub chain_of : Hashtable V → Key → List (KvPair V)
  chain_of h k = h.vals (hash k % h.arraysize)

  -- The map that a table stands for.
  abbrev pub lookup : Hashtable V → Key → Option V
  lookup h k = value_of (first_of (is_item k) (chain_of h k))

  -- Every item stands once, in the slot of its hash, and is counted.
  pub record IsShaped (h : Hashtable V) : Type ℓ where
    pub live : h.datatype ≡ hashtable_type
    pub wide : 2 ≤ h.arraysize
    pub distinct : (i : ℕ) → i < h.arraysize → Distinct (h.vals i)
    pub placed : (i : ℕ) → i < h.arraysize → Placed h.arraysize i (h.vals i)
    pub count : h.size ≡ total length h.arraysize h.vals

  -- Between calls at most half of the slots' number is stored.
  pub record IsValid (h : Hashtable V) : Type ℓ where
    pub shaped : IsShaped h
    pub small : h.arraysize ≤ 2 ^ 30
    pub sparse : h.size * 2 ≤ h.arraysize

  -- `h'` is `h` with the value of the item under its key.
  pub record Put (h : Hashtable V) (item : KvPair V) (h' : Hashtable V) : Type ℓ where
    pub size : h'.size + found (lookup h item.key) ≡ h.size + 1
    pub reads : (q : Key) → lookup h' q ≡ (if matches item.key q then some item.val else lookup h q)

-- The canary is whole.
pub Ends-live {ℓ κ κ'} :
    {V : Type ℓ} {B : Type κ} {Q : B → Type κ'} (h : Hashtable V) (k : Run B)
    → h.datatype ≡ hashtable_type
    → Ends Q k
    → Ends Q (kassert_hashtable h >> k)
Ends-live h k live (b, e, q) = (b, ap (λ d. kassert (d == hashtable_type) >> k) live ∙ e, q)
