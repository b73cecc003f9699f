-- ===== src/Hashtable/Remove.antt =====
-- hashtable_remove on a well-formed table, with memory at hand.
use cse.Base.{
  ℕ, suc, ◌+◌, ◌*◌, ◌/◌, ◌%◌, ◌^◌, ◌<◌, ◌≤◌, ◌≡◌, refl, sym, ap, ◌∙◌, Bool, true, ◌&&◌, Option,
  none, some, first_of, without, update, arith, ltb, if◌then◌else◌, Bool-cases, inl, inr, Run, done,
  ◌>>=◌, Ends, Ends-seq, Ends-test, List, [], ◌∷◌, ◌>>◌,
}
use cse.Hashtable.{
  Hashtable, min_size, decrement, shrink, hashtable_add, after_remove, hashtable_remove,
}
use cse.Hashtable.Keys.{Key, hash, matches, matches_eq}
use cse.Hashtable.Item.{KvPair, is_item, value_of}
use cse.Hashtable.Chain.{found}
use cse.Hashtable.Valid.{chain_of, lookup, IsValid, Ends-live}
use cse.Hashtable.Put.{removed-IsShaped}
use cse.Hashtable.Add.{Bounded, replace_array-Moved, hashtable_add-Bounded}

first_of-holds {ℓ} :
    {A : Type ℓ} (test : A → Bool) (c : List A) (e : A) → first_of test c ≡ some e → test e ≡ true
first_of-holds test [] e h = cc
first_of-holds test (x ∷ c) e h = elim (Bool-cases (test x)) [
  | inl pass ↦ ground arith
  | inr other ↦ first_of-holds test c e (rw other at h)
]

module _ {ℓ} {V : Type ℓ} where
  -- `r` is the result of a removal of the key `k` from `h`.
  pub record Removed (h : Hashtable V) (k : Key) (r : Option V × ℕ × Hashtable V) : Type ℓ where
    pub result : r.0 ≡ lookup h k
    pub valid : IsValid (r.2)
    pub size : (r.2).size + found (lookup h k) ≡ h.size
    pub reads : (q : Key) → lookup (r.2) q ≡ (if matches k q then none else lookup h q)

  -- The table before shrink and behind it.
  record Same (h : Hashtable V) (r : ℕ × Hashtable V) : Type ℓ where
    valid : IsValid (r.1)
    size : (r.1).size ≡ h.size
    reads : (q : Key) → lookup (r.1) q ≡ lookup h q

  module _ (mem : ℕ → Bool) (plenty : (n : ℕ) → mem n ≡ true) where
    after_remove-Same :
        (depth t : ℕ) (h : Hashtable V)
        → IsValid h
        → h.size ≤ 2 ^ 28
        → Ends (Same h) (after_remove mem (suc (suc depth)) t h)
    unfolding after_remove shrink
    after_remove-Same depth t h v few =
        Ends-test _ (ltb min_size h.arraysize && ltb (decrement h.size * 2 % 2 ^ 32) h.arraysize) _
          _
          (λ e.
            let large : 8 < h.arraysize = ground (arith, e) in
            Ends-seq _ _ _ _
              (Ends-live h _ v.shaped.live (
                replace_array-Moved mem plenty (Bounded mem plenty)
                  (hashtable_add mem (suc (suc depth))) (hashtable_add-Bounded mem plenty depth) 0
                  (h.arraysize / 2) t h v.shaped (omega arith) (omega (arith, v.small))
                  (omega arith)))
              (λ r m.
                ((r.1, r.2), refl, record { valid = m.valid; size = m.size; reads = m.reads })))
          (λ e. ((t, h), refl, record { valid = v; size = refl; reads = λ q. refl }))

    -- With memory at hand, and where kfree returns for the key of an item that is removed, as it does for
    -- a string from kmalloc, hashtable_remove on a well-formed table of at most 2 ^ 28 items returns the
    -- value that the table has for the key, or NULL. The table behind it, shrunk or not, is
    -- well-formed, answers NULL for the key and what it did for every other, and counts one item less
    -- if the key was there.
    pub hashtable_remove-Removed :
        (kfree_key : KvPair V → Run (Unit {0})) (t depth : ℕ) (h : Hashtable V) (k : Key)
        → ((e : KvPair V) → is_item k e ≡ true → kfree_key e ≡ done tt)
        → IsValid h
        → h.size ≤ 2 ^ 28
        → Ends (Removed h k) (hashtable_remove mem kfree_key (suc (suc depth)) t h k)
    unfolding hashtable_remove
    hashtable_remove-Removed kfree_key t depth h k frees v few =
        Ends-live h _ v.shaped.live (go (first_of (is_item k) (chain_of h k)) refl)
      where
        h' : Hashtable V
        h' = record h {
          vals = update h.vals (hash k % h.arraysize) (without (is_item k) (chain_of h k));
          size = decrement h.size;
        }

        absent :
            first_of (is_item k) (chain_of h k) ≡ none
            → (q : Key) → lookup h q ≡ (if matches k q then none else lookup h q)
        absent miss q = elim (Bool-cases (matches k q)) [
          | inl m ↦ rw (m, matches_eq k q m) (ap value_of miss)
          | inr m ↦ rw m refl
        ]

        go :
            (o : Option (KvPair V))
            → first_of (is_item k) (chain_of h k) ≡ o
            → Ends (Removed h k) (elim o as (λ _. Run (Option V × ℕ × Hashtable V)) [
              | none ↦ done (none, t, h)
              | some item ↦
                  (after_remove mem (suc (suc depth)) t h' >>= λ r.
                  kfree_key item >> done (some item.val, r.0, r.1))
            ])
        go none miss = (
          (none, t, h),
          refl,
          record {
            result = ap value_of (sym miss);
            valid = v;
            size = omega (arith, ap found (ap value_of miss));
            reads = λ q. absent miss q;
          },
        )
        go (some item) hit =
            let (shaped, size, reads) = removed-IsShaped h k item v.shaped (omega arith) hit in
            let v' : IsValid h' = record {
              shaped = shaped;
              small = v.small;
              sparse = omega (arith, size, v.sparse);
            } in
            Ends-seq _ _ _ _ (after_remove-Same depth t h' v' (omega (arith, size))) (λ r same.
              rw (frees item (first_of-holds (is_item k) (chain_of h k) item hit)) (
                _,
                refl,
                record {
                  result = ap value_of (sym hit);
                  valid = same.valid;
                  size = omega (arith, same.size, size, ap found (ap value_of hit));
                  reads = λ q. same.reads q ∙ reads q;
                },
              ))
