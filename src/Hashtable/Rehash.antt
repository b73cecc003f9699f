-- ===== src/Hashtable/Rehash.antt =====
-- rehash and replace_array: the items of the old array reach the new one.
use cse.Base.{
  ℕ, zero, suc, ◌+◌, ◌%◌, ◌^◌, ◌<◌, ◌≤◌, ◌≡◌, refl, sym, ap, ◌∙◌, true, false, Option, none, some,
  List, [], ◌∷◌, length, first_of, total, total-zero, total-suc, arith, ltb, ◌==◌, if◌then◌else◌,
  Bool-cases, inl, inr, Status, success, Run, Ends, Ends-seq,
}
use cse.Hashtable.{Hashtable, hashtable_type, rehash_chain, rehash}
use cse.Hashtable.Keys.{Key, hash, matches, matches_eq, matches_self}
use cse.Hashtable.Item.{KvPair, is_item, value_of}
use cse.Hashtable.Chain.{
  Absent, Distinct, Placed, found, no_match, first_of-Absent, first_of-Placed,
}
use cse.Hashtable.Valid.{lookup, IsValid, Put}

-- The first of two answers.
abbrev pub or_else {ℓ} : {V : Type ℓ} → Option V → Option V → Option V
or_else none b = b
or_else (some a) b = some a

pub or_else-none {ℓ} : {V : Type ℓ} (o : Option V) → or_else o none ≡ o
or_else-none none = refl
or_else-none (some a) = refl

-- A function for hashtable_add, and what holds before it with a number of items still to come.
abbrev pub Adds {ℓ} :
    {V : Type ℓ}
    → (ℕ → Hashtable V → Type 0)
    → (ℕ → Hashtable V → KvPair V → Run (Status × ℕ × Hashtable V))
    → Type ℓ
Adds {V = V} Pre add =
    (n t : ℕ) (h : Hashtable V) (item : KvPair V)
    → IsValid h
    → Pre (suc n) h
    → Ends (λ r. (r.0 ≡ success) × IsValid (r.2) × Put h item (r.2) × Pre n (r.2)) (add t h item)

module _ {ℓ} {V : Type ℓ} (Pre : ℕ → Hashtable V → Type 0)
    (add : ℕ → Hashtable V → KvPair V → Run (Status × ℕ × Hashtable V)) (adds : Adds Pre add) where
  -- The table has `n` items more, and answers `f`.
  record Grown (h : Hashtable V) (n left : ℕ) (f : Key → Option V) (r : ℕ × Hashtable V)
      : Type ℓ where
    pub valid : IsValid (r.1)
    pub size : (r.1).size ≡ h.size + n
    pub reads : (q : Key) → lookup (r.1) q ≡ f q
    pub pre : Pre left (r.1)

  -- No item of the chain is in the table.
  abbrev New : Hashtable V → List (KvPair V) → Type ℓ
  New h [] = Unit
  New h (e ∷ c) = (lookup h e.key ≡ none) × New h c

  New-Put :
      (h h' : Hashtable V) (item : KvPair V) (c : List (KvPair V))
      → Put h item h'
      → Absent item.key c
      → New h c
      → New h' c
  New-Put h h' item [] p a w = tt
  New-Put h h' item (e ∷ c) p (ne, a) (w, rest) =
      (p.reads e.key ∙ rw (no_match item.key e.key ne) w, New-Put h h' item c p a rest)

  read_step :
      (h h' : Hashtable V) (e : KvPair V) (c : List (KvPair V))
      → Absent e.key c
      → Put h e h'
      → (q : Key)
      → or_else (value_of (first_of (is_item q) c)) (lookup h' q)
        ≡ or_else (value_of (first_of (is_item q) (e ∷ c))) (lookup h q)
  read_step h h' e c apart put q = elim (Bool-cases (matches q e.key)) [
    | inl m ↦
        let same : e.key ≡ q = matches_eq q e.key m in
        let gone = first_of-Absent q c (rw same at apart) in
        let mine : matches e.key q ≡ true = rw same (matches_self q) in
        rw (m, gone) (put.reads q ∙ rw mine refl)
    | inr m ↦
        let other : matches e.key q ≡ false =
          no_match e.key q (λ same. ground (arith, m, matches_self q, same)) in
        rw m (ap (or_else (value_of (first_of (is_item q) c))) (put.reads q ∙ rw other refl))
  ]

  rehash_chain-Grown :
      (c : List (KvPair V)) (n t : ℕ) (h : Hashtable V)
      → IsValid h
      → Distinct c
      → New h c
      → Pre (length c + n) h
      → Ends
          (Grown h (length c) n (λ q. or_else (value_of (first_of (is_item q) c)) (lookup h q)))
          (rehash_chain add c t h)
  unfolding rehash_chain
  rehash_chain-Grown [] n t h v d w pre = (
    _,
    refl,
    record {
      valid = v;
      size = omega arith;
      reads = λ q. refl;
      pre = let e : 0 + n ≡ n = omega arith in rw e at pre;
    },
  )
  rehash_chain-Grown (e ∷ c) n t h v (apart, d) (w, new) pre =
      let next : suc (length c) + n ≡ suc (length c + n) = omega arith in
      Ends-seq _ _ (add t h e) _ (adds (length c + n) t h e v (rw next at pre))
        (λ r (ok, v', put, pre').
          let (r', eq, g) =
            rehash_chain-Grown c n (r.1) (r.2) v' d (New-Put h (r.2) e c put apart new) pre' in
          (r', eq, step (r.2) put r' g))
    where
      step :
          (h' : Hashtable V)
          → Put h e h'
          → (r : ℕ × Hashtable V)
          → Grown h' (length c) n (λ q. or_else (value_of (first_of (is_item q) c)) (lookup h' q)) r
          → Grown h
              (suc (length c))
              n
              (λ q. or_else (value_of (first_of (is_item q) (e ∷ c))) (lookup h q))
              r
      step h' put r g = record {
        valid = g.valid;
        size =
            let s = put.size in
            let s' : h'.size ≡ h.size + 1 = omega (arith, s, ap found w) in
            omega (arith, g.size, s');
        reads = λ q. g.reads q ∙ read_step h h' e c apart put q;
        pre = g.pre;
      }

  -- What the slots below `i` of the old array answer.
  abbrev pub part {κ} : {W : Type κ} → ℕ → (ℕ → List (KvPair W)) → ℕ → Key → Option W
  part n source i q =
      if ltb (hash q % n) i then value_of (first_of (is_item q) (source (hash q % n))) else none

  module _ (width : ℕ) (pos : 0 < width) (source : ℕ → List (KvPair V))
      (distinct : (i : ℕ) → i < width → Distinct (source i))
      (placed : (i : ℕ) → i < width → Placed width i (source i)) where
    New-part :
        (h : Hashtable V) (i : ℕ) (c : List (KvPair V))
        → ((q : Key) → lookup h q ≡ part width source i q)
        → Placed width i c
        → New h c
    New-part h i [] reads p = tt
    New-part h i (e ∷ c) reads (p, ps) = (reads e.key ∙ ground arith, New-part h i c reads ps)

    part_step :
        (i : ℕ)
        → i < width
        → (q : Key)
        → or_else (value_of (first_of (is_item q) (source i))) (part width source i q)
          ≡ part width source (i + 1) q
    part_step i h q = elim (Bool-cases (hash q % width == i)) [
      | inl same ↦
          let e : hash q % width ≡ i = ground arith in
          rw e (ground (arith, or_else-none (value_of (first_of (is_item q) (source i)))))
      | inr other ↦
          rw (first_of-Placed width i q (source i) (placed i h) (ground arith)) (ground arith)
    ]

    -- The items of the slots from `i`, with `n` of them left, and `left` more.
    abbrev pub remaining : ℕ → ℕ → ℕ → ℕ
    remaining left zero i = left
    remaining left (suc n) i = length (source i) + remaining left n (i + 1)

    pub rehash-Grown :
        (left n i t : ℕ) (h : Hashtable V)
        → i + n ≡ width
        → IsValid h
        → h.size ≡ total length i source
        → ((q : Key) → lookup h q ≡ part width source i q)
        → Pre (remaining left n i) h
        → Ends
            (λ r.
              IsValid (r.1)
              × ((r.1).size ≡ total length width source)
              × ((q : Key) → lookup (r.1) q ≡ part width source width q)
              × Pre left (r.1))
            (rehash add n i source t h)
    unfolding rehash
    rehash-Grown left zero i t h e v size reads pre =
        let same : i ≡ width = omega arith in
        (_, refl, (v, rw same at size, (λ q. rw same at (reads q)), pre))
    rehash-Grown left (suc n) i t h e v size reads pre =
        let inside : i < width = omega arith in
        Ends-seq _ _ (rehash_chain add (source i) t h) _
          (rehash_chain-Grown (source i) (remaining left n (i + 1)) t h v (distinct i inside)
            (New-part h i (source i) reads (placed i inside)) pre)
          (λ r g.
            rehash-Grown left n (i + 1) (r.0) (r.1) (omega arith) g.valid
              (omega (arith, g.size, size, total-suc length i source, next i))
              (λ q.
                g.reads q
                ∙ ap (or_else (value_of (first_of (is_item q) (source i)))) (reads q)
                ∙ part_step i inside q)
              g.pre)
      where
        next : (i : ℕ) → total length (i + 1) source ≡ total length (suc i) source
        next i = let e : i + 1 ≡ suc i = omega arith in ap (λ j. total length j source) e

    pub remaining-total :
        (left n i : ℕ)
        → total length i source + remaining left n i ≡ total length (i + n) source + left
    remaining-total left zero i = let e : i + 0 ≡ i = omega arith in rw e (omega arith)
    remaining-total left (suc n) i =
        let e : i + suc n ≡ suc i + n = omega arith in
        let e' : i + 1 ≡ suc i = omega arith in
        rw (e, e') (omega (arith, remaining-total left n (suc i), total-suc length i source))

-- The empty table that rehash starts with.
pub fresh-IsValid {ℓ} :
    {V : Type ℓ} (h : Hashtable V) (n : ℕ)
    → h.datatype ≡ hashtable_type
    → 2 ≤ n
    → n ≤ 2 ^ 30
    → IsValid (record h { vals = λ i. []; size = 0; arraysize = n })
fresh-IsValid {V = V} h n live wide small = record {
  shaped = record {
    live = live;
    wide = wide;
    distinct = λ i b. tt;
    placed = λ i b. tt;
    count = sym (no_items n);
  };
  small = small;
  sparse = omega arith;
}
  where
    no_items : (n : ℕ) → total (length {A = KvPair V}) n (λ i. []) ≡ 0
    no_items zero = total-zero length (λ i. [])
    no_items (suc n) = omega (arith, total-suc (length {A = KvPair V}) n (λ i. []), no_items n)
