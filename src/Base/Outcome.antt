-- ===== src/Base/Outcome.antt =====
-- How a call into the kernel ends, and the rules for calls that return.
use mathlib.Core.Path.{◌≡◌, refl, ap, ◌∙◌}
use mathlib.Core.Bool.{Bool, true, false}
use cse.Base.Tests.{if◌then◌else◌}

-- The codes of kern/include/kern/errno.h that the modelled functions return; `success` is 0.
pub data Status : Type 0 where
  success enomem enospc : Status

-- The call returns a value, fails a KASSERT, touches memory outside a block, or the model's fuel
-- runs out.
pub data Run {ℓ} (A : Type ℓ) : Type ℓ where
  done : A → Run A
  panic fault out_of_fuel : Run A

infixl 5 ◌>>=◌ ◌>>◌
abbrev pub ◌>>=◌ {ℓ κ} : {A : Type ℓ} {B : Type κ} → Run A → (A → Run B) → Run B
done a >>= f = f a
panic >>= f = panic
fault >>= f = fault
out_of_fuel >>= f = out_of_fuel

abbrev pub ◌>>◌ {ℓ} : {B : Type ℓ} → Run (Unit {0}) → Run B → Run B
m >> k = m >>= λ _. k

-- `KASSERT(b)`
abbrev pub kassert : Bool → Run (Unit {0})
kassert true = done tt
kassert false = panic

-- The call ends normally, in a value that satisfies `P`.
abbrev pub Ends {ℓ κ} : {A : Type ℓ} → (A → Type κ) → Run A → Type (ℓ ⊔ κ)
Ends {A} P r = (a : A) × (r ≡ done a) × P a

-- The rules for sequence, consequence and a two-way test.
pub Ends-seq {ℓ κ ℓ' κ'} :
    {A : Type ℓ} {B : Type ℓ'} (P : A → Type κ) (Q : B → Type κ') (r : Run A) (f : A → Run B)
    → Ends P r
    → ((a : A) → P a → Ends Q (f a))
    → Ends Q (r >>= f)
Ends-seq P Q r f (a, e, p) next = let (b, e', q) = next a p in (b, ap (λ m. m >>= f) e ∙ e', q)

pub Ends-weaken {ℓ κ κ'} :
    {A : Type ℓ} (P : A → Type κ) (Q : A → Type κ') (r : Run A)
    → Ends P r
    → ((a : A) → P a → Q a)
    → Ends Q r
Ends-weaken P Q r (a, e, p) imp = (a, e, imp a p)

pub Ends-test {ℓ κ} :
    {A : Type ℓ} (P : A → Type κ) (b : Bool) (x y : Run A)
    → (b ≡ true → Ends P x)
    → (b ≡ false → Ends P y)
    → Ends P (if b then x else y)
Ends-test P true x y p q = p refl
Ends-test P false x y p q = q refl
