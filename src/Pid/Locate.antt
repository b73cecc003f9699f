-- ===== src/Pid/Locate.antt =====
-- Where the scan of a node whose pids are in order ends.
use cse.Base.{
  ℕ, zero, suc, ◌+◌, ◌≤◌, ◌<◌, ◌≡◌, refl, false, Option, none, some, ◌⊎◌, inl, inr, arith, ltb,
  ◌==◌, if◌then◌else◌, Bool-cases, ℕ_discrete, dec_lt, ap,
}
use cse.Pid.Tree.{Tree, Spot, here, under, nowhere, before, locate, is_null}

-- The pids of the slots increase.
abbrev pub Sorted : (ℕ → Option ℕ) → Type 0
Sorted pids = (i j a b : ℕ) → i < j → j < 8 → pids i ≡ some a → pids j ≡ some b → a < b

-- `r` lies between the pid of slot `i` and that of the next one.
abbrev pub Between : (ℕ → Option ℕ) → ℕ → ℕ → Type 0
Between pids i r =
    (a : ℕ) × (pids i ≡ some a)
    × (a < r)
    × ((i ≡ 7) ⊎ ((b : ℕ) × (pids (i + 1) ≡ some b) × (r < b)))

-- A subtree stands between two pids, or behind the last one.
abbrev pub Hung : {P : Type 0} → (ℕ → Option ℕ) → (ℕ → Tree P) → Type 0
Hung pids subs =
    (i : ℕ)
    → i < 8
    → is_null (subs i) ≡ false
    → (a : ℕ) × (pids i ≡ some a) × ((i ≡ 7) ⊎ ((b : ℕ) × (pids (i + 1) ≡ some b)))

-- What the scan of the slots finds.
abbrev pub Located : (ℕ → Option ℕ) → ℕ → Spot → Type 0
Located pids r (here j) = (j < 8) × (pids j ≡ some r)
Located pids r (under j) =
    (j < 8)
    × ((m p : ℕ) → m ≤ j → pids m ≡ some p → p < r)
    × ((m p : ℕ) → j < m → m < 8 → pids m ≡ some p → r < p)
Located pids r nowhere = (m p : ℕ) → m < 8 → pids m ≡ some p → r < p

module _ (pids : ℕ → Option ℕ) (sorted : Sorted pids) (r : ℕ) where
  -- The slot `i` has a larger pid, and those before it smaller ones.
  before-Located :
      (i p : ℕ)
      → i < 8
      → pids i ≡ some p
      → r < p
      → ((m q : ℕ) → m < i → pids m ≡ some q → q < r)
      → Located pids r (before i)
  before-Located zero p h e lt smaller = λ m q hm eq.
      elim m as (λ m. m < 8 → pids m ≡ some q → r < q) [
        | zero ↦ λ _ eq. ground arith
        | suc m ↦ λ hm eq. ground (arith, sorted 0 (suc m) p q (omega arith) hm e eq)
      ]
        hm eq
  before-Located (suc i) p h e lt smaller = (
    omega arith,
    λ m q hm eq. smaller m q (omega arith) eq,
    λ m q hm h8 eq. elim (Bool-cases (ltb (suc i) m)) [
      | inl later ↦ ground (arith, sorted (suc i) m p q (ground arith) h8 e eq)
      | inr same ↦ ground arith
    ],
  )

  pub locate-Located :
      (n i : ℕ)
      → i + n ≡ 8
      → ((m q : ℕ) → m < i → pids m ≡ some q → q < r)
      → Located pids r (locate n i pids r)
  unfolding locate
  locate-Located zero i e smaller = (
    omega arith,
    (λ m q hm eq. smaller m q (omega arith) eq),
    λ m q hm h8 eq. absurd (omega arith),
  )
  locate-Located (suc n) i e smaller = at (locate-Located n (i + 1) (omega arith)) (pids i) refl
    where
      onward : ((q : ℕ) → pids i ≡ some q → q < r) → (m q : ℕ) → m < i + 1 → pids m ≡ some q → q < r
      onward last m q hm eq = elim (ℕ_discrete m i) [
        | yes same ↦ last q (rw same at eq)
        | no other ↦ smaller m q (omega arith) eq
      ]

      Next : Type 0
      Next =
          ((m q : ℕ) → m < i + 1 → pids m ≡ some q → q < r)
          → Located pids r (locate n (i + 1) pids r)

      test :
          Next
          → (p : ℕ) → pids i ≡ some p
          → Located pids r
              (if r == p then here i else if ltb r p then before i else locate n (i + 1) pids r)
      test next p at = elim (Bool-cases (r == p)) [
        | inl same ↦ rw same (omega arith, ground arith)
        | inr other ↦ elim (Bool-cases (ltb r p)) [
          | inl less ↦ rw (other, less) (before-Located i p (omega arith) at (ground arith) smaller)
          | inr more ↦ rw (other, more) (next (onward (λ q eq. ground arith)))
        ]
      ]

      at :
          Next
          → (o : Option ℕ) → pids i ≡ o
          → Located pids r (elim o [
            | none ↦ locate n (i + 1) pids r
            | some p ↦
                (if r == p then here i else if ltb r p then before i else locate n (i + 1) pids r)
          ])
      at next none e = next (onward (λ q eq. cc))
      at next (some p) e = test next p e

-- The scan goes to the subtree around the pid.
pub locate-Between :
    (pids : ℕ → Option ℕ)
    → Sorted pids
    → (r i : ℕ) → i < 8
    → Between pids i r
    → locate 8 0 pids r ≡ under i
locate-Between pids sorted r i h (a, ea, la, top) =
    go (locate 8 0 pids r)
      (locate-Located pids sorted r 8 0 (omega arith) (λ m q hm. absurd (omega arith)))
  where
    past : (j : ℕ) → i < j → j < 8 → (m : ℕ) → pids j ≡ some m → r < m
    past j p hj m em = elim top [
      | inl last ↦ absurd (omega arith)
      | inr (b, eb, lb) ↦ elim (ℕ_discrete j (i + 1)) [
        | yes same ↦ ground (arith, same)
        | no other ↦ ground (arith, sorted (i + 1) j b m (omega arith) hj eb em)
      ]
    ]

    go : (s : Spot) → Located pids r s → s ≡ under i
    go (here j) (hj, ej) = elim (dec_lt i j) [
      | yes p ↦ absurd (ground (arith, past j p hj r ej))
      | no p ↦ elim (ℕ_discrete j i) [
        | yes same ↦ absurd (ground (arith, same))
        | no other ↦ absurd (ground (arith, sorted j i r a (omega arith) h ej ea))
      ]
    ]
    go (under j) (hj, low, high) = elim (dec_lt j i) [
      | yes p ↦ absurd (ground (arith, high i a p h ea))
      | no p ↦ elim (ℕ_discrete j i) [
        | yes same ↦ ap under same
        | no other ↦ elim top [
          | inl last ↦ absurd (omega arith)
          | inr (b, eb, lb) ↦ absurd (ground (arith, low (i + 1) b (omega arith) eb))
        ]
      ]
    ]
    go nowhere all = absurd (ground (arith, all i a h ea))
