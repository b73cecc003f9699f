-- ===== src/Hashtable/Lifecycle.antt =====
-- The first and the last call on a hash table.
use cse.Base.{
  ℕ, zero, suc, ◌+◌, ◌<◌, ◌≤◌, ◌≡◌, refl, sym, ap, ◌∙◌, Bool, true, none, some, List, [], length,
  total, total-suc, total-zero, arith, ◌==◌, if◌then◌else◌, ==_ne, ℕ_discrete, dec_lt, done, panic,
  kassert, ◌>>◌,
}
use cse.Hashtable.{
  Hashtable, hashtable_type, min_size, hashtable_create, cleanup_array_with_lists,
  hashtable_destroy,
}
use cse.Hashtable.Keys.{Key}
use cse.Hashtable.Item.{KvPair}
use cse.Hashtable.Valid.{lookup, IsValid}
use cse.Hashtable.Rehash.{fresh-IsValid}
use cse.Hashtable.Add.{init_lem}

module _ {ℓ} {V : Type ℓ} where
  abbrev empty : Hashtable V
  empty = record { datatype = hashtable_type; size = 0; arraysize = min_size; vals = λ i. [] }

  -- With memory at hand, hashtable_create gives a well-formed table that has no item and answers NULL
  -- for every key.
  pub hashtable_create-IsValid :
      (mem : ℕ → Bool) (t : ℕ)
      → ((n : ℕ) → mem n ≡ true)
      → (h : Hashtable V) × ((hashtable_create {V = V} mem t).0 ≡ some h)
        × IsValid h
        × (h.size ≡ 0)
        × ((q : Key) → lookup h q ≡ none)
  unfolding hashtable_create
  hashtable_create-IsValid mem t plenty =
      let (t', e) = init_lem mem plenty 8 (t + 2) in
      (
        empty,
        rw (plenty t, plenty (t + 1), e) refl,
        fresh-IsValid empty 8 refl (omega arith) (omega arith),
        refl,
        λ q. refl,
      )

  total-eq-zero :
      (n j : ℕ) (f : ℕ → List (KvPair V)) → total length n f ≡ 0 → j < n → length (f j) ≡ 0
  total-eq-zero zero j f e h = absurd (omega arith)
  total-eq-zero (suc n) j f e h = elim (ℕ_discrete j n) [
    | yes same ↦ rw same (omega (arith, total-suc length n f))
    | no other ↦ total-eq-zero n j f (omega (arith, total-suc length n f)) (omega arith)
  ]

  total-some :
      (n : ℕ) (f : ℕ → List (KvPair V))
      → 0 < total length n f
      → (j : ℕ) × (j < n) × (0 < length (f j))
  total-some zero f h = absurd (omega (arith, total-zero length f))
  total-some (suc n) f h = elim (dec_lt 0 (length (f n))) [
    | yes p ↦ (n, omega arith, p)
    | no p ↦
        let (j, b, q) = total-some n f (omega (arith, total-suc length n f)) in (j, omega arith, q)
  ]

  cleanup_empty :
      (n i : ℕ) (vals : ℕ → List (KvPair V))
      → ((j : ℕ) → j < i + n → length (vals j) ≡ 0)
      → cleanup_array_with_lists n i vals ≡ done tt
  unfolding cleanup_array_with_lists
  cleanup_empty zero i vals none_left = refl
  cleanup_empty (suc n) i vals none_left =
      rw (none_left i (omega arith))
        (cleanup_empty n (i + 1) vals (λ j h. none_left j (omega arith)))

  cleanup_full :
      (n i j : ℕ) (vals : ℕ → List (KvPair V))
      → i ≤ j
      → j < i + n
      → 0 < length (vals j)
      → cleanup_array_with_lists n i vals ≡ panic
  unfolding cleanup_array_with_lists
  cleanup_full zero i j vals b h p = absurd (omega arith)
  cleanup_full (suc n) i j vals b h p = elim (dec_lt 0 (length (vals i))) [
    | yes q ↦ rw (==_ne (length (vals i)) 0 (omega arith)) refl
    | no q ↦
        let e : length (vals i) ≡ 0 = omega arith in
        rw e (cleanup_full n (i + 1) j vals (later q) (omega arith) p)
  ]
    where
      later : ¬ (0 < length (vals i)) → i + 1 ≤ j
      later q = elim (ℕ_discrete i j) [ yes same ↦ absurd (q (rw same p)) | no other ↦ omega arith ]

  -- hashtable_destroy returns on a well-formed table with no item, and fails a KASSERT on one with
  -- items.
  pub hashtable_destroy_lem :
      (h : Hashtable V) → IsValid h → hashtable_destroy h ≡ (if h.size == 0 then done tt else panic)
  unfolding hashtable_destroy
  hashtable_destroy_lem h v =
      ap (λ d. kassert (d == hashtable_type) >> cleanup_array_with_lists h.arraysize 0 h.vals)
        v.shaped.live
      ∙ (elim (ℕ_discrete h.size 0) [
        | yes e ↦
            cleanup_empty h.arraysize 0 h.vals (λ j b.
              total-eq-zero h.arraysize j h.vals (omega (arith, v.shaped.count)) (omega arith))
            ∙ ap (λ n. if n == 0 then done tt else panic) (sym e)
        | no e ↦
            let (j, b, p) = total-some h.arraysize h.vals (omega (arith, v.shaped.count)) in
            cleanup_full h.arraysize 0 j h.vals (omega arith) (omega arith) p
            ∙ ap (λ t. if t then done tt else panic) (sym (==_ne h.size 0 e))
      ])
