-- ===== src/Hashtable/Memory.antt =====
-- hashtable_add where memory runs out.
use cse.Base.{
  ℕ, suc, ◌+◌, ◌*◌, ◌%◌, ◌^◌, ◌<◌, ◌≤◌, ◌≡◌, refl, ap, Bool, false, none, some, length, first_of,
  without, total-update, arith, ltb, Status, enomem, Ends, Ends-test,
}
use cse.Hashtable.{Hashtable, put_item, hashtable_add}
use cse.Hashtable.Keys.{Key, hash}
use cse.Hashtable.Item.{KvPair, is_item, value_of}
use cse.Hashtable.Chain.{found, first_of-Absent, Distinct-without, length-without}
use cse.Hashtable.Valid.{chain_of, lookup, IsShaped, IsValid, Ends-live}
use cse.Hashtable.Put.{slot_in}

module _ {ℓ} {V : Type ℓ} where
  -- What is left of the table.
  pub record Lost (h : Hashtable V) (k : Key) (r : Status × ℕ × Hashtable V) : Type ℓ where
    pub result : r.0 ≡ enomem
    pub gone : lookup (r.2) k ≡ none
    pub size : (r.2).size ≡ h.size
    pub miscounted : ¬ (IsShaped (r.2))

  -- Where a well-formed table with room for one more item has a value for the key, and kmalloc
  -- refuses the request of kv_create, hashtable_add returns ENOMEM, but the old value is gone, and
  -- the table is not well-formed: it counts an item that it does not have.
  pub hashtable_add-Lost :
      (mem : ℕ → Bool) (t depth : ℕ) (h : Hashtable V) (item : KvPair V) (old : KvPair V)
      → IsValid h
      → (h.size + 1) * 2 ≤ h.arraysize
      → first_of (is_item item.key) (chain_of h item.key) ≡ some old
      → mem t ≡ false
      → Ends (Lost h item.key) (hashtable_add mem (suc depth) t h item)
  unfolding hashtable_add put_item
  hashtable_add-Lost mem t depth h item old v room hit refused =
      let k = item.key in
      let slot = hash k % h.arraysize in
      let chain = h.vals slot in
      let inside : slot < h.arraysize = slot_in h v.shaped k in
      Ends-live h _ v.shaped.live (
        Ends-test _ (ltb h.arraysize ((h.size + 1) * 2 % 2 ^ 32)) _ _
          (λ e. absurd (ground (arith, e, v.small)))
          (λ e. rw refused (
            _,
            refl,
            record {
              result = refl;
              gone =
                  let none_left = ap value_of (
                    first_of-Absent k _
                      ((Distinct-without k chain (v.shaped.distinct slot inside)).1)) in
                  ground (arith, none_left);
              size = refl;
              miscounted = λ s. omega (
                arith,
                s.count,
                v.shaped.count,
                ap found hit,
                length-without k chain,
                total-update length h.arraysize h.vals slot (without (is_item k) chain) inside,
              );
            },
          )))
