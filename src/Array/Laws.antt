-- ===== src/Array/Laws.antt =====
-- The array's well-formedness and the behaviour of its operations.
use cse.Base.{
  update, ℕ, ◌+◌, ◌*◌, ◌^◌, ◌≤◌, ◌<◌, ◌≡◌, refl, ◌⊎◌, inl, inr, none, some, arith, ltb, Ends-test,
  Option-cases, Status, success, enomem, done, Ends, Ends-seq,
}
use cse.Array.{
  adopt, closed_up, Array, Block, Kmalloc, u32, word_size, store, array_get, array_set, reallocate,
  array_preallocate, set_num, array_setsize, put_last, array_add, array_remove,
}
use cse.Array.Grow.{Fits, grow_from}

-- `num` is within `max`, and the block has room for `max` pointers.
pub record IsValid {ℓ} {A : Type ℓ} (a : Array A) : Type 0 where
  pub num_in : a.num ≤ a.max
  pub room : word_size * a.max ≤ a.v.bytes

-- kmalloc gives blocks at least as large as it is asked for.
pub record IsKmalloc {ℓ} {A : Type ℓ} (kmalloc : Kmalloc A) : Type ℓ where
  pub large : (n : ℕ) (b : Block A) → kmalloc n ≡ some b → n ≤ b.bytes

-- `b` holds the first `n` elements of `a`.
abbrev pub Keeps {ℓ} : {A : Type ℓ} → ℕ → Array A → Array A → Type ℓ
Keeps n a b = (i : ℕ) → i < n → b.v.mem i ≡ a.v.mem i

module _ {ℓ} {A : Type ℓ} (a : Array A) (valid : IsValid a) where
  pub array_get-done : (i : ℕ) → i < a.num → array_get a i ≡ done (a.v.mem i)
  unfolding array_get
  array_get-done i h = ground (arith, valid)

  pub array_set-done :
      (i : ℕ) (x : A)
      → i < a.num
      → array_set a i x ≡ done (record a { v = record (a.v) { mem = update a.v.mem i x } })
  unfolding array_set
  array_set-done i x h = ground (arith, valid)

-- A request that kmalloc refuses.
abbrev pub Refusal {ℓ} : {A : Type ℓ} → Kmalloc A → Type ℓ
Refusal kmalloc = (n : ℕ) × (kmalloc n ≡ none)

-- What array_preallocate and array_setsize leave: the old array on
-- ENOMEM, which only a refused request gives, and on success a valid
-- array of `num` elements with room for `wanted`, the first `a.num` of them kept.
abbrev pub Resized {ℓ} : {A : Type ℓ} → Kmalloc A → Array A → ℕ → ℕ → Status × Array A → Type ℓ
Resized kmalloc a num wanted (code, b) =
    (code ≡ enomem) × (b ≡ a) × Refusal kmalloc
    ⊎ (code ≡ success) × IsValid b × (b.num ≡ num) × (wanted ≤ b.max) × Keeps a.num a b

-- What array_add leaves: the old array on ENOMEM, which only a refused request
-- gives, and on success one more element at the end.
abbrev pub Added {ℓ} : {A : Type ℓ} → Kmalloc A → Array A → A → Status × ℕ × Array A → Type ℓ
Added kmalloc a x (code, index, b) =
    (code ≡ enomem) × (b ≡ a) × Refusal kmalloc
    ⊎ (code ≡ success)
      × (index ≡ a.num)
      × IsValid b
      × (b.num ≡ a.num + 1)
      × (b.v.mem a.num ≡ x)
      × Keeps a.num a b

module _ {ℓ} {A : Type ℓ} (kmalloc : Kmalloc A) (large : IsKmalloc kmalloc) (a : Array A)
    (valid : IsValid a) where
  reallocate-Resized :
      (wanted m : ℕ)
      → wanted ≤ 2 ^ 28
      → a.max < wanted
      → Fits wanted m
      → Ends (Resized kmalloc a a.num wanted) (reallocate kmalloc a m)
  unfolding reallocate adopt
  reallocate-Resized wanted m small more fits =
      elim (Option-cases (kmalloc (u32 (m * word_size)))) [
        | inl failed ↦ ((enomem, a), rw (failed, reallocate), inl (refl, refl, (_, failed)))
        | inr (b, got) ↦
            let size : m * word_size ≤ b.bytes = omega (arith, large.large _ b got) in
            (
              (success, adopt a b m),
              rw (got, reallocate),
              inr (
                refl,
                record { num_in = omega (arith, valid.num_in); room = omega arith },
                refl,
                omega arith,
                λ i h. ground arith,
              ),
            )
      ]

  -- array_preallocate never panics, and makes room or changes nothing.
  pub array_preallocate-Resized :
      (wanted : ℕ)
      → wanted ≤ 2 ^ 28
      → Ends (Resized kmalloc a a.num wanted) (array_preallocate kmalloc a wanted)
  unfolding array_preallocate
  array_preallocate-Resized wanted small =
      Ends-test _ (ltb a.max wanted) _ _
        (λ more.
          Ends-seq (Fits wanted) _ _ _ (grow_from wanted a.max (omega arith) (ground arith))
            λ m fits. reallocate-Resized wanted m small (ground arith) fits)
        (λ enough. ((success, a), refl, inr (refl, valid, refl, ground arith, λ i h. refl)))

  -- array_setsize sets `num` as well, on success only.
  pub array_setsize-Resized :
      (wanted : ℕ)
      → a.num ≤ wanted
      → wanted ≤ 2 ^ 28
      → Ends (Resized kmalloc a wanted wanted) (array_setsize kmalloc a wanted)
  unfolding array_setsize set_num
  array_setsize-Resized wanted grows small =
      Ends-seq (Resized kmalloc a a.num wanted) _ _ _ (array_preallocate-Resized wanted small)
        λ r p. finish r p
    where
      finish :
          (r : Status × Array A)
          → Resized kmalloc a a.num wanted r
          → Ends (Resized kmalloc a wanted wanted) (set_num wanted r)
      finish (code, b) (inl (e, same, no_memory)) =
          rw e ((enomem, b), refl, inl (refl, same, no_memory))
      finish (code, b) (inr (e, v, n, fits, keeps)) = rw e (
        (success, record b { num = wanted }),
        refl,
        inr (refl, record { num_in = fits; room = v.room }, refl, fits, keeps),
      )

  -- array_add on a valid array never panics or writes outside its block: it appends the element
  -- and returns its index, or returns ENOMEM and changes nothing.
  pub array_add-Added : (x : A) → a.num < 2 ^ 28 → Ends (Added kmalloc a x) (array_add kmalloc a x)
  unfolding array_add put_last store
  array_add-Added x small =
      let index : u32 (a.num + 1) ≡ a.num + 1 = omega arith in
      rw index (
        Ends-seq (Resized kmalloc a (a.num + 1) (a.num + 1)) _ _ _
          (array_setsize-Resized (a.num + 1) (omega arith) (omega arith)) λ r p. finish r p)
    where
      finish :
          (r : Status × Array A)
          → Resized kmalloc a (a.num + 1) (a.num + 1) r
          → Ends (Added kmalloc a x) (put_last a.num x r)
      finish (code, b) (inl (e, same, no_memory)) =
          rw e ((enomem, a.num, b), refl, inl (refl, same, no_memory))
      finish (code, b) (inr (e, v, n, fits, keeps)) = rw e (
        (success, a.num, record b { v = record (b.v) { mem = update b.v.mem a.num x } }),
        ground (arith, v),
        inr (
          refl,
          refl,
          record { num_in = v.num_in; room = v.room },
          n,
          ground arith,
          λ i h. ground (arith, keeps i h),
        ),
      )

-- array_remove takes element `index` out, and moves each later one down by one.
pub array_remove_lem {ℓ} :
    {A : Type ℓ} (a : Array A) (index : ℕ)
    → IsValid a
    → index < a.num
    → Ends
        (λ b.
          IsValid b
          × (b.num + 1 ≡ a.num)
          × Keeps index a b
          × ((i : ℕ) → index ≤ i → i < b.num → b.v.mem i ≡ a.v.mem (i + 1)))
        (array_remove a index)
unfolding array_remove closed_up
array_remove_lem a index valid h = (
  closed_up a index,
  ground (arith, valid),
  (
    record { num_in = omega (arith, valid.num_in); room = valid.room },
    omega arith,
    λ i p. ground arith,
    λ i p q. ground arith,
  ),
)
