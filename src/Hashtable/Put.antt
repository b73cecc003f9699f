-- ===== src/Hashtable/Put.antt =====
-- put_item, and the removal of an item, on a well-formed table.
use cse.Base.{
  ℕ, ◌+◌, ◌%◌, ◌^◌, ◌<◌, ◌≡◌, ◌≢◌, refl, sym, ap, ◌∙◌, Bool, true, Option, none, some, List, [],
  ◌∷◌, ◌++◌, length, length-append, first_of, without, total-update, update, arith, if◌then◌else◌,
  Bool-cases, inl, inr, ℕ_discrete, success,
}
use cse.Hashtable.{Hashtable, put_item, decrement}
use cse.Hashtable.Keys.{Key, hash, matches, matches_eq, matches_self}
use cse.Hashtable.Item.{KvPair, is_item, value_of}
use cse.Hashtable.Chain.{
  Absent, Distinct, Placed, found, first_of-Absent, first_of-without, Distinct-without,
  Placed-without, length-without, first_of-append, first_of-last, Distinct-append, Placed-append,
}
use cse.Hashtable.Valid.{chain_of, lookup, IsShaped, Put}

found-value {ℓ} : {V : Type ℓ} (o : Option (KvPair V)) → found (value_of o) ≡ found o
found-value none = refl
found-value (some e) = refl

module _ {ℓ} {V : Type ℓ} (h : Hashtable V) (v : IsShaped h) (k : Key) where
  abbrev slot : ℕ
  slot = hash k % h.arraysize

  pub slot_in : slot < h.arraysize
  slot_in = omega (arith, v.wide)

  abbrev chain : List (KvPair V)
  chain = h.vals slot

  abbrev rest : List (KvPair V)
  rest = without (is_item k) chain

  -- A new chain `c` in the key's slot.
  module _ (c : List (KvPair V)) (size : ℕ) (d : Distinct c) (p : Placed h.arraysize slot c)
      (n : size + length chain ≡ h.size + length c) where
    abbrev h' : Hashtable V
    h' = record h { vals = update h.vals slot c; size = size }

    set-IsShaped : IsShaped h'
    set-IsShaped = record {
      live = v.live;
      wide = v.wide;
      distinct = λ i b. elim (ℕ_discrete slot i) [
        | yes same ↦ ground (arith, d)
        | no other ↦ ground (arith, v.distinct i b)
      ];
      placed = λ i b. elim (ℕ_discrete slot i) [
        | yes same ↦ ground (arith, p, same)
        | no other ↦ ground (arith, v.placed i b)
      ];
      count = omega (arith, n, v.count, total-update length h.arraysize h.vals slot c slot_in);
    }

    -- A read of the new table, from those of the chains.
    set_read :
        (q : Key) (o : Option V)
        → (hash q % h.arraysize ≡ slot → value_of (first_of (is_item q) c) ≡ o)
        → (hash q % h.arraysize ≢ slot → lookup h q ≡ o)
        → lookup h' q ≡ o
    set_read q o here away = elim (ℕ_discrete slot (hash q % h.arraysize)) [
      | yes same ↦ ground (arith, here (sym same))
      | no other ↦ ground (arith, away (λ e. other (sym e)))
    ]

  -- A key of another slot is another key.
  other :
      (x : V) (q : Key)
      → hash q % h.arraysize ≢ slot
      → lookup h q ≡ (if matches k q then some x else lookup h q)
  other x q ne = elim (Bool-cases (matches k q)) [
    | inl m ↦ absurd (ne (ap (λ j. hash j % h.arraysize) (matches_eq k q m)))
    | inr m ↦ rw m refl
  ]

  rest_read :
      (q : Key)
      → hash q % h.arraysize ≡ slot
      → value_of (first_of (is_item q) rest) ≡ (if matches k q then none else lookup h q)
  rest_read q same = elim (Bool-cases (matches k q)) [
    | inl m ↦
        rw (m, matches_eq k q m)
          (ap value_of
            (first_of-Absent k rest ((Distinct-without k chain (v.distinct slot slot_in)).1)))
    | inr m ↦ rw m (
        ap value_of (first_of-without k q chain (λ e. ground (arith, m, matches_self k, e)))
        ∙ ap (λ j. value_of (first_of (is_item q) (h.vals j))) (sym same))
  ]

  -- A key of another slot, where the key is taken out.
  other_rest :
      (q : Key)
      → hash q % h.arraysize ≢ slot
      → lookup h q ≡ (if matches k q then none else lookup h q)
  other_rest q ne = elim (Bool-cases (matches k q)) [
    | inl m ↦ absurd (ne (ap (λ j. hash j % h.arraysize) (matches_eq k q m)))
    | inr m ↦ rw m refl
  ]

  -- The chain without the key, and the item of the key behind it.
  module _ (item : KvPair V) (mine : item.key ≡ k) where
    rest-Absent : Absent item.key rest
    rest-Absent = rw mine ((Distinct-without k chain (v.distinct slot slot_in)).1)

    new-Distinct : Distinct (rest ++ (item ∷ []))
    new-Distinct =
        Distinct-append rest item ((Distinct-without k chain (v.distinct slot slot_in)).0)
          rest-Absent

    new-Placed : Placed h.arraysize slot (rest ++ (item ∷ []))
    new-Placed =
        Placed-append h.arraysize slot rest item
          (Placed-without h.arraysize slot k chain (v.placed slot slot_in))
          (ap (λ j. hash j % h.arraysize) mine)

    new_length : length (rest ++ (item ∷ [])) + found (lookup h k) ≡ length chain + 1
    new_length = omega (
      arith,
      length-append rest (item ∷ []),
      length-without k chain,
      found-value (first_of (is_item k) chain),
    )

    new_read :
        (q : Key)
        → hash q % h.arraysize ≡ slot
        → value_of (first_of (is_item q) (rest ++ (item ∷ [])))
          ≡ (if matches k q then some item.val else lookup h q)
    new_read q same = elim (Bool-cases (matches k q)) [
      | inl m ↦
          let e : q ≡ item.key = matches_eq k q m ∙ sym mine in
          rw (m, e) (ap value_of (first_of-last rest item rest-Absent))
      | inr m ↦
          let ne : q ≢ k = λ e. ground (arith, m, matches_self k, e) in
          rw m (
            ap value_of
              (first_of-append q rest item (λ e. ne (sym e ∙ mine)) ∙ first_of-without k q chain ne)
            ∙ ap (λ j. value_of (first_of (is_item q) (h.vals j))) (sym same))
    ]

-- The size that hashtable_add sets.
new_size {ℓ} :
    {A : Type ℓ} (o : Option A) (n : ℕ)
    → n + 1 < 2 ^ 32
    → (elim o as (λ _. ℕ) [ none ↦ (n + 1) % 2 ^ 32 | some old ↦ n ]) + found o ≡ n + 1
new_size none n h = omega arith
new_size (some old) n h = refl

-- With memory at hand put_item stores the item.
pub put_item-Put {ℓ} :
    {V : Type ℓ} (mem : ℕ → Bool) (t : ℕ) (h : Hashtable V) (item : KvPair V)
    → ((n : ℕ) → mem n ≡ true)
    → IsShaped h
    → h.size + 1 < 2 ^ 32
    → (h' : Hashtable V) × (put_item mem t h item ≡ (success, t + 2, h'))
      × IsShaped h'
      × Put h item h'
      × (h'.arraysize ≡ h.arraysize)
unfolding put_item
put_item-Put mem t h item plenty v room =
    let k = item.key in
    let o = first_of (is_item k) (chain_of h k) in
    let size = new_size o h.size room in
    let len = new_length h v k item refl in
    let d = new-Distinct h v k item refl in
    let p = new-Placed h v k item refl in
    let c = without (is_item k) (chain_of h k) ++ (item ∷ []) in
    let s : ℕ = elim o as (λ _. ℕ) [ none ↦ (h.size + 1) % 2 ^ 32 | some old ↦ h.size ] in
    let n : s + length (chain_of h k) ≡ h.size + length c =
      omega (arith, size, len, found-value o) in
    rw (plenty t, plenty (t + 1))
      (
        _,
        refl,
        set-IsShaped h v k c s d p n,
        record {
          size = omega (arith, size, found-value o);
          reads = λ q.
              set_read h v k c s d p n q _ (new_read h v k item refl q) (other h v k item.val q);
        },
        refl,
      )

-- The table without the item of a key that it has.
pub removed-IsShaped {ℓ} :
    {V : Type ℓ} (h : Hashtable V) (k : Key) (old : KvPair V)
    → IsShaped h
    → h.size < 2 ^ 32
    → first_of (is_item k) (chain_of h k) ≡ some old
    → let h' = record h {
      vals = update h.vals (hash k % h.arraysize) (without (is_item k) (chain_of h k));
      size = decrement h.size;
    } in
      IsShaped h'
      × (h'.size + 1 ≡ h.size)
      × ((q : Key) → lookup h' q ≡ (if matches k q then none else lookup h q))
removed-IsShaped h k old v small hit =
    let c = without (is_item k) (chain_of h k) in
    let len = length-without k (chain_of h k) in
    let one : length c + 1 ≡ length (chain_of h k) = omega (arith, len, ap found hit) in
    let slot = slot_in h v k in
    let filled : 0 < h.size = omega (
      arith,
      v.count,
      one,
      total-update length h.arraysize h.vals (hash k % h.arraysize) [] slot,
    ) in
    let size : decrement h.size + 1 ≡ h.size = omega arith in
    let d = (Distinct-without k (chain_of h k) (v.distinct (hash k % h.arraysize) slot)).0 in
    let p =
      Placed-without h.arraysize (hash k % h.arraysize) k (chain_of h k)
        (v.placed (hash k % h.arraysize) slot) in
    let n : decrement h.size + length (chain_of h k) ≡ h.size + length c =
      omega (arith, size, one) in
    (
      set-IsShaped h v k c (decrement h.size) d p n,
      size,
      λ q. set_read h v k c (decrement h.size) d p n q _ (rest_read h v k q) (other_rest h v k q),
    )
