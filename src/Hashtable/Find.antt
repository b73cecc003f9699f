-- ===== src/Hashtable/Find.antt =====
-- hashtable_find beside a search of the whole table that does not use the hash.
use cse.Base.{
  ℕ, zero, suc, ◌%◌, ◌≤◌, ◌≡◌, refl, true, false, sym, ap, Option, none, List, first_of, arith, ltb,
  if◌then◌else◌, ℕ_discrete, done, kassert, ◌==◌, ◌>>◌,
}
use cse.Hashtable.{Hashtable, hashtable_type, hashtable_find}
use cse.Hashtable.Keys.{Key, hash}
use cse.Hashtable.Item.{KvPair, is_item, value_of}
use cse.Hashtable.Chain.{first_of-Placed}
use cse.Hashtable.Valid.{IsValid, lookup}
use cse.Hashtable.Rehash.{or_else, or_else-none}

module _ {ℓ} {V : Type ℓ} where
  -- The first value for the key in any of the first `n` slots, from the last of them down.
  abbrev pub scan : ℕ → (ℕ → List (KvPair V)) → Key → Option V
  scan zero vals k = none
  scan (suc n) vals k = or_else (value_of (first_of (is_item k) (vals n))) (scan n vals k)

  module _ (h : Hashtable V) (v : IsValid h) (k : Key) where
    -- No slot but that of the hash has the key.
    scan-lookup :
        (n : ℕ)
        → n ≤ h.arraysize
        → scan n h.vals k ≡ (if ltb (hash k % h.arraysize) n then lookup h k else none)
    scan-lookup zero le = ground arith
    scan-lookup (suc n) le = elim (ℕ_discrete (hash k % h.arraysize) n) [
      | yes here ↦
          let below : ltb (hash k % h.arraysize) n ≡ false = ground arith in
          let inside : ltb (hash k % h.arraysize) (suc n) ≡ true = ground arith in
          rw (scan-lookup n (omega arith), below, inside, sym here) (or_else-none (lookup h k))
      | no other ↦
          let alone =
            first_of-Placed h.arraysize n k (h.vals n) (v.shaped.placed n (omega arith)) other in
          let same : ltb (hash k % h.arraysize) (suc n) ≡ ltb (hash k % h.arraysize) n =
            ground arith in
          rw (alone, scan-lookup n (omega arith), same) refl
    ]

    -- hashtable_find on a well-formed table returns the value that a search through all slots of the
    -- table, without the hash of the key, finds for the key, or NULL where that finds none.
    pub hashtable_find-scan : hashtable_find h k ≡ done (scan h.arraysize h.vals k)
    unfolding hashtable_find
    hashtable_find-scan =
        let inside : ltb (hash k % h.arraysize) h.arraysize ≡ true =
          ground (arith, v.shaped.wide) in
        rw (scan-lookup h.arraysize (omega arith), inside)
          (ap (λ d. kassert (d == hashtable_type) >> done (lookup h k)) v.shaped.live)
