-- ===== src/Hashtable/Chain.antt =====
-- A chain of a hash table: the items of distinct keys.
use cse.Base.{
  ℕ, ◌+◌, ◌%◌, ◌≡◌, ◌≢◌, refl, sym, ap, ◌∙◌, false, Option, none, some, List, [], ◌∷◌, ◌++◌, length,
  first_of, without, arith, if◌then◌else◌, Bool-cases, inl, inr,
}
use cse.Hashtable.Keys.{Key, hash, matches, matches_eq, matches_self}
use cse.Hashtable.Item.{KvPair, is_item}

abbrev pub found {κ} : {B : Type κ} → Option B → ℕ
found none = 0
found (some e) = 1

pub no_match : (k l : Key) → l ≢ k → matches k l ≡ false
no_match k l ne = elim (Bool-cases (matches k l)) [
  | inl e ↦ absurd (ne (matches_eq k l e))
  | inr e ↦ e
]

module _ {ℓ} {V : Type ℓ} where
  -- No item of the chain has the key.
  abbrev pub Absent : Key → List (KvPair V) → Type 0
  Absent k [] = Unit
  Absent k (e ∷ c) = (e.key ≢ k) × Absent k c

  abbrev pub Distinct : List (KvPair V) → Type 0
  Distinct [] = Unit
  Distinct (e ∷ c) = Absent e.key c × Distinct c

  -- The keys hash to slot `i` of `n`.
  abbrev pub Placed : ℕ → ℕ → List (KvPair V) → Type 0
  Placed n i [] = Unit
  Placed n i (e ∷ c) = (hash e.key % n ≡ i) × Placed n i c

  pub first_of-Absent : (k : Key) (c : List (KvPair V)) → Absent k c → first_of (is_item k) c ≡ none
  first_of-Absent k [] h = refl
  first_of-Absent k (e ∷ c) (ne, h) = rw (no_match k e.key ne) (first_of-Absent k c h)

  -- An item of slot `i` is of no other slot.
  pub first_of-Placed :
      (n i : ℕ) (k : Key) (c : List (KvPair V))
      → Placed n i c
      → hash k % n ≢ i
      → first_of (is_item k) c ≡ none
  first_of-Placed n i k [] p ne = refl
  first_of-Placed n i k (e ∷ c) (p, ps) ne =
      rw (no_match k e.key (λ same. ne (ap (λ l. hash l % n) (sym same) ∙ p)))
        (first_of-Placed n i k c ps ne)

  pub Absent-none : (k : Key) (c : List (KvPair V)) → first_of (is_item k) c ≡ none → Absent k c
  Absent-none k [] h = tt
  Absent-none k (e ∷ c) h = elim (Bool-cases (matches k e.key)) [
    | inl m ↦ ground (arith, m, h)
    | inr m ↦
        ((λ same. ground (arith, m, matches_self k, same)), Absent-none k c (ground (arith, m, h)))
  ]

  pub first_of-without :
      (k q : Key) (c : List (KvPair V))
      → q ≢ k
      → first_of (is_item q) (without (is_item k) c) ≡ first_of (is_item q) c
  first_of-without k q [] ne = refl
  first_of-without k q (e ∷ c) ne = elim (Bool-cases (matches k e.key)) [
    | inl m ↦
        let same = matches_eq k e.key m in rw (m, no_match q e.key (λ h. ne (sym h ∙ same))) refl
    | inr m ↦ rw m (ap (λ o. if matches q e.key then some e else o) (first_of-without k q c ne))
  ]

  pub Absent-without :
      (k q : Key) (c : List (KvPair V)) → Absent q c → Absent q (without (is_item k) c)
  Absent-without k q [] h = tt
  Absent-without k q (e ∷ c) (ne, h) = elim (Bool-cases (matches k e.key)) [
    | inl m ↦ rw m h
    | inr m ↦ rw m (ne, Absent-without k q c h)
  ]

  pub Distinct-without :
      (k : Key) (c : List (KvPair V))
      → Distinct c
      → Distinct (without (is_item k) c) × Absent k (without (is_item k) c)
  Distinct-without k [] h = (tt, tt)
  Distinct-without k (e ∷ c) (apart, h) = elim (Bool-cases (matches k e.key)) [
    | inl m ↦ rw m (h, rw (matches_eq k e.key m) at apart)
    | inr m ↦
        let (d, a) = Distinct-without k c h in
        rw m (
          (Absent-without k e.key c apart, d),
          ((λ same. ground (arith, m, matches_self k, same)), a),
        )
  ]

  pub Placed-without :
      (n i : ℕ) (k : Key) (c : List (KvPair V)) → Placed n i c → Placed n i (without (is_item k) c)
  Placed-without n i k [] h = tt
  Placed-without n i k (e ∷ c) (p, h) = elim (Bool-cases (matches k e.key)) [
    | inl m ↦ rw m h
    | inr m ↦ rw m (p, Placed-without n i k c h)
  ]

  pub length-without :
      (k : Key) (c : List (KvPair V))
      → length (without (is_item k) c) + found (first_of (is_item k) c) ≡ length c
  length-without k [] = refl
  length-without k (e ∷ c) = elim (Bool-cases (matches k e.key)) [
    | inl m ↦ rw m (omega arith)
    | inr m ↦ rw m (omega (arith, length-without k c))
  ]

  -- An item of another key at the end changes no answer; one of the key gives it.
  pub first_of-append :
      (q : Key) (c : List (KvPair V)) (e : KvPair V)
      → e.key ≢ q
      → first_of (is_item q) (c ++ (e ∷ [])) ≡ first_of (is_item q) c
  first_of-append q [] e ne = rw (no_match q e.key ne) refl
  first_of-append q (d ∷ c) e ne =
      ap (λ o. if matches q d.key then some d else o) (first_of-append q c e ne)

  pub first_of-last :
      (c : List (KvPair V)) (e : KvPair V)
      → Absent e.key c
      → first_of (is_item e.key) (c ++ (e ∷ [])) ≡ some e
  first_of-last [] e h = rw (matches_self e.key) refl
  first_of-last (d ∷ c) e (ne, h) = rw (no_match e.key d.key ne) (first_of-last c e h)

  pub Absent-append :
      (q : Key) (c : List (KvPair V)) (e : KvPair V)
      → Absent q c
      → e.key ≢ q
      → Absent q (c ++ (e ∷ []))
  Absent-append q [] e h ne = (ne, tt)
  Absent-append q (d ∷ c) e (nd, h) ne = (nd, Absent-append q c e h ne)

  pub Distinct-append :
      (c : List (KvPair V)) (e : KvPair V) → Distinct c → Absent e.key c → Distinct (c ++ (e ∷ []))
  Distinct-append [] e h a = (tt, tt)
  Distinct-append (d ∷ c) e (apart, h) (nd, a) =
      (Absent-append d.key c e apart (λ same. nd (sym same)), Distinct-append c e h a)

  pub Placed-append :
      (n i : ℕ) (c : List (KvPair V)) (e : KvPair V)
      → Placed n i c
      → hash e.key % n ≡ i
      → Placed n i (c ++ (e ∷ []))
  Placed-append n i [] e h p = (p, tt)
  Placed-append n i (d ∷ c) e (pd, h) p = (pd, Placed-append n i c e h p)
