-- ===== src/Hashtable/Add.antt =====
-- grow and hashtable_add on a well-formed table, with memory at hand.
use cse.Base.{
  ℕ, zero, suc, ◌+◌, ◌*◌, ◌%◌, ◌^◌, ◌<◌, ◌≤◌, ◌≡◌, refl, sym, ap, ◌∙◌, Bool, true, false, some, [],
  length, total, total-zero, arith, ltb, if◌then◌else◌, Status, success, Run, done, ◌>>=◌, Ends,
  Ends-seq, Ends-test,
}
use cse.Hashtable.{
  Hashtable, init_array_with_lists, new_array, into_array, replace_array, grow, put_item,
  hashtable_add,
}
use cse.Hashtable.Keys.{Key, matches}
use cse.Hashtable.Item.{KvPair}
use cse.Hashtable.Chain.{found}
use cse.Hashtable.Valid.{lookup, IsShaped, IsValid, Put, Ends-live}
use cse.Hashtable.Put.{put_item-Put}
use cse.Hashtable.Rehash.{Adds, remaining, rehash-Grown, remaining-total, fresh-IsValid}

module _ (mem : ℕ → Bool) (plenty : (n : ℕ) → mem n ≡ true) where
  pub init_lem : (n t : ℕ) → (t' : ℕ) × (init_array_with_lists mem n t ≡ (success, t'))
  unfolding init_array_with_lists
  init_lem zero t = (t, refl)
  init_lem (suc n) t = rw (plenty t) (init_lem n (t + 1))

module _ {ℓ} {V : Type ℓ} (mem : ℕ → Bool) (plenty : (n : ℕ) → mem n ≡ true) where
  -- The result of replace_array: the same items in another array.
  pub record Moved (Pre : ℕ → Hashtable V → Type 0) (left : ℕ) (h : Hashtable V)
      (r : Status × ℕ × Hashtable V) : Type ℓ where
    pub ok : r.0 ≡ success
    pub valid : IsValid (r.2)
    pub size : (r.2).size ≡ h.size
    pub reads : (q : Key) → lookup (r.2) q ≡ lookup h q
    pub pre : Pre left (r.2)

  pub replace_array-Moved :
      (Pre : ℕ → Hashtable V → Type 0)
      (add : ℕ → Hashtable V → KvPair V → Run (Status × ℕ × Hashtable V))
      → Adds Pre add
      → (left n t : ℕ) (h : Hashtable V) → IsShaped h
      → 2 ≤ n
      → n ≤ 2 ^ 30
      → Pre (h.size + left) (record h { vals = λ i. []; size = 0; arraysize = n })
      → Ends (Moved Pre left h) (replace_array mem add n t h)
  unfolding replace_array into_array new_array
  replace_array-Moved Pre add adds left n t h v wide small pre =
      let (t', e) = init_lem mem plenty n (t + 1) in
      let pos : 0 < h.arraysize = omega (arith, v.wide) in
      let all : remaining Pre add adds h.arraysize pos h.vals v.distinct v.placed left h.arraysize 0
          ≡ h.size + left =
        let z : 0 + h.arraysize ≡ h.arraysize = omega arith in
        omega (
          arith,
          remaining-total Pre add adds h.arraysize pos h.vals v.distinct v.placed left h.arraysize
              0,
          total-zero length h.vals,
          ap (λ j. total length j h.vals) z,
          v.count,
        ) in
      let (r, eq, (valid, size, reads, pre')) =
        rehash-Grown Pre add adds h.arraysize pos h.vals v.distinct v.placed left h.arraysize 0 t' _
          (omega arith) (fresh-IsValid h n v.live wide small) (sym (total-zero length h.vals))
          (λ q. ground arith) (rw all pre) in
      (
        (success, r.0, r.1),
        ap (λ z. into_array add n z h) (array t t' e)
            ∙ ap (λ z. z >>= λ r. done (success, r.0, r.1)) eq,
        record {
          ok = refl;
          valid = valid;
          size = size ∙ sym v.count;
          reads = λ q. reads q ∙ ground (arith, pos);
          pre = pre';
        },
      )
    where
      array :
          (t t' : ℕ)
          → init_array_with_lists mem n (t + 1) ≡ (success, t')
          → new_array mem n t ≡ (success, t')
      array t t' e = rw (plenty t) e

  -- Room for `n` items more without growing, and in all.
  abbrev pub Loose : ℕ → Hashtable V → Type 0
  Loose n h = (h.size + n) * 2 ≤ h.arraysize

  abbrev pub Bounded : ℕ → Hashtable V → Type 0
  Bounded n h = h.size + n ≤ 2 ^ 28

  Put-size : (h h' : Hashtable V) (item : KvPair V) → Put h item h' → h'.size ≤ h.size + 1
  Put-size h h' item p = omega (arith, p.size)

  -- put_item where there is room for one more.
  put_item-IsValid :
      (t : ℕ) (h : Hashtable V) (item : KvPair V)
      → IsValid h
      → Loose 1 h
      → (h' : Hashtable V) × (put_item mem t h item ≡ (success, t + 2, h'))
        × IsValid h'
        × Put h item h'
        × (h'.arraysize ≡ h.arraysize)
        × (h'.size ≤ h.size + 1)
  put_item-IsValid t h item v room =
      let (h', eq, shaped, put, same) =
        put_item-Put mem t h item plenty v.shaped (omega (arith, v.small)) in
      let size : h'.size ≤ h.size + 1 = Put-size h h' item put in
      (
        h',
        eq,
        record {
          shaped = shaped;
          small = omega (arith, same, v.small);
          sparse = omega (arith, same, size);
        },
        put,
        same,
        size,
      )

  -- Where the table grows, or not.
  grows : (h : Hashtable V) → Bool
  grows h = ltb h.arraysize ((h.size + 1) * 2 % 2 ^ 32)

  grows-false : (h : Hashtable V) → IsValid h → Loose 1 h → grows h ≡ false
  unfolding grows
  grows-false h v room = ground (arith, v.small)

  -- What hashtable_add does where it does not grow.
  hashtable_add-Loose : (depth : ℕ) → Adds Loose (hashtable_add mem (suc depth))
  unfolding hashtable_add grows
  hashtable_add-Loose depth n t h item v room =
      let (h', eq, valid, put, same, size) = put_item-IsValid t h item v (omega arith) in
      let fits = grows-false h v (omega arith) in
      Ends-live h _ v.shaped.live (
        Ends-test _ (grows h) _ _ (λ e. absurd (cc (sym fits ∙ e)))
          (λ e. ((success, t + 2, h'), ap done eq, (refl, valid, put, omega (arith, same)))))

  Put-lookup :
      (h h1 h' : Hashtable V) (item : KvPair V)
      → h1.size ≡ h.size
      → ((q : Key) → lookup h1 q ≡ lookup h q)
      → Put h1 item h'
      → Put h item h'
  Put-lookup h h1 h' item size reads put = record {
    size = omega (arith, put.size, size, ap found (reads item.key));
    reads = λ q. put.reads q ∙ ap (λ o. if matches item.key q then some item.val else o) (reads q);
  }

  -- hashtable_add on any table of fewer than 2 ^ 28 items: it grows first, if need be.
  pub hashtable_add-Bounded : (depth : ℕ) → Adds Bounded (hashtable_add mem (suc (suc depth)))
  unfolding hashtable_add grows grow
  hashtable_add-Bounded depth n t h item v room = Ends-live h _ v.shaped.live (
      Ends-test _ (grows h) _ _
        (λ e.
          let tight : h.arraysize < (h.size + 1) * 2 = ground (arith, e) in
          Ends-seq _ _ _ _
            (Ends-live h _ v.shaped.live (
              replace_array-Moved Loose (hashtable_add mem (suc depth)) (hashtable_add-Loose depth)
                1 (h.arraysize * 2 % 2 ^ 32) t h v.shaped (omega (arith, v.shaped.wide))
                (omega arith) (omega (arith, v.sparse, v.shaped.wide))))
            (λ r m. after r m))
        (λ e.
          let loose : Loose 1 h = ground (arith, e) in
          let (h', eq, valid, put, same, size) = put_item-IsValid t h item v loose in
          ((success, t + 2, h'), ap done eq, (refl, valid, put, omega arith))))
    where
      after :
          (r : Status × ℕ × Hashtable V)
          → Moved Loose 1 h r
          → Ends
              (λ r. (r.0 ≡ success) × IsValid (r.2) × Put h item (r.2) × Bounded n (r.2))
              (done (put_item mem (r.1) (r.2) item))
      after r m =
          let (h', eq, valid, put, same, size) = put_item-IsValid (r.1) (r.2) item m.valid m.pre in
          (
            (success, r.1 + 2, h'),
            ap done eq,
            (refl, valid, Put-lookup h (r.2) h' item m.size m.reads put, omega (arith, m.size)),
          )

  -- With memory at hand, hashtable_add on a well-formed table of fewer than 2 ^ 28 items returns 0
  -- at a depth of two calls of itself: the table is well-formed, answers the value for the item's key
  -- and what it did for every other, and counts one item more if the key is new.
  pub hashtable_add-Put :
      (t depth : ℕ) (h : Hashtable V) (item : KvPair V)
      → IsValid h
      → h.size < 2 ^ 28
      → Ends
          (λ r. (r.0 ≡ success) × IsValid (r.2) × Put h item (r.2))
          (hashtable_add mem (suc (suc depth)) t h item)
  hashtable_add-Put t depth h item v few =
      let (r, eq, (ok, valid, put, _)) = hashtable_add-Bounded depth 0 t h item v (omega arith) in
      (r, eq, (ok, valid, put))
