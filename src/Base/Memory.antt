-- ===== src/Base/Memory.antt =====
-- Memory as a function from addresses or slots: writes, and weighted sums over a range.
use Prim.Native.Nat.{ℕ, zero, suc, ◌+◌, ◌<◌}
use mathlib.Core.Path.{◌≡◌, refl}
use native.Mathlib.Decide.{ℕ_discrete}
use mathlib.Core.Logic.{◌≢◌}
use native.Mathlib.Omega.{arith}
use cse.Base.Tests.{◌==◌, if◌then◌else◌}

abbrev pub update {ℓ} : {A : Type ℓ} → (ℕ → A) → ℕ → A → ℕ → A
update f i a j = if i == j then a else f j

module _ {ℓ} {A : Type ℓ} (w : A → ℕ) where
  -- `w (f 0) + … + w (f (n - 1))`
  unfoldable pub total : ℕ → (ℕ → A) → ℕ
  total n f = elim n [ zero ↦ 0 | suc (k → below) ↦ below + w (f k) ]

  pub total-ext : (n : ℕ) (f g : ℕ → A) → ((i : ℕ) → i < n → f i ≡ g i) → total n f ≡ total n g
  unfolding total
  total-ext zero f g h = refl
  total-ext (suc n) f g h =
      ground (arith, total-ext n f g (λ i p. h i (omega arith)), h n (omega arith))

  pub total-zero : (f : ℕ → A) → total 0 f ≡ 0
  unfolding total
  total-zero f = refl

  pub total-suc : (n : ℕ) (f : ℕ → A) → total (suc n) f ≡ total n f + w (f n)
  unfolding total
  total-suc n f = refl

  -- Two families that differ at `i` at most: the sums differ by the weights there.
  pub total-differ :
      (n i : ℕ) (f g : ℕ → A)
      → i < n
      → ((j : ℕ) → j < n → j ≢ i → g j ≡ f j)
      → total n g + w (f i) ≡ total n f + w (g i)
  total-differ zero i f g inside same = elim inside [ ]
  total-differ (suc n) i f g inside same = elim (ℕ_discrete i n) [
    | yes last ↦
        let below = total-ext n g f (λ j p. same j (omega arith) (omega arith)) in
        ground (arith, total-suc n f, total-suc n g, below)
    | no earlier ↦
        let rest = total-differ n i f g (omega arith) (λ j p ne. same j (omega arith) ne) in
        ground (arith, total-suc n f, total-suc n g, rest, same n (omega arith))
  ]

  -- A write inside the range trades the old weight for the new one.
  pub total-update :
      (n : ℕ) (f : ℕ → A) (i : ℕ) (a : A)
      → i < n
      → total n f + w a ≡ total n (update f i a) + w (f i)
  total-update n f i a inside =
      ground (arith, total-differ n i f (update f i a) inside (λ j p ne. ground arith))
