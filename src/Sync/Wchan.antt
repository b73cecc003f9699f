-- ===== src/Sync/Wchan.antt =====
-- Wait channels of kern/thread/thread.c as lists of thread numbers, the first to be woken first.
-- A section that a spinlock protects is one step: a thread that sleeps is put on the channel before
-- the spinlock is released (thread_switch).
use cse.Base.{
  ℕ, zero, suc, ◌<◌, ◌≡◌, refl, Bool, true, false, ◌||◌, Option, none, some, List, [], ◌∷◌, ◌++◌,
  arith, update, total, total-zero, total-suc, ◌==◌, if◌then◌else◌, dec_lt,
}

-- What a step of a thread can end in: a spinlock that is taken, a failed KASSERT, or a new state.
pub data Outcome (S : Type 0) : Type 0 where
  blocked panics : Outcome S
  next : S → Outcome S

-- If the step is taken, the new state satisfies `P`.
abbrev pub Ensures : {S : Type 0} → (S → Type 0) → Outcome S → Type 0
Ensures P blocked = Unit
Ensures P panics = Unit
Ensures P (next s) = P s

pub Ensures-test :
    {S : Type 0} (P : S → Type 0) (b : Bool) (x y : Outcome S)
    → (b ≡ true → Ensures P x)
    → (b ≡ false → Ensures P y)
    → Ensures P (if b then x else y)
Ensures-test P true x y p q = p refl
Ensures-test P false x y p q = q refl

pub Ensures-next :
    {S : Type 0} (P : S → Type 0) (o : Outcome S) (t : S) → Ensures P o → o ≡ next t → P t
Ensures-next P o t h e = rw e at h

abbrev pub Wchan : Type 0
Wchan = List ℕ

-- thread_switch adds a sleeping thread at the tail of the channel.
unfoldable pub wchan_sleep : ℕ → Wchan → Wchan
wchan_sleep i q = q ++ i ∷ []

-- wchan_wakeone takes the thread at the head, if there is one.
unfoldable pub wchan_wakeone : Wchan → Option ℕ × Wchan
wchan_wakeone [] = (none, [])
wchan_wakeone (i ∷ q) = (some i, q)

-- thread_make_runnable, for the thread that was taken from the channel
abbrev pub make_runnable {ℓ} : {A : Type ℓ} → A → Option ℕ → (ℕ → A) → ℕ → A
make_runnable waking none pc = pc
make_runnable waking (some i) pc = update pc i waking

-- Is the thread on the channel?
pub queued : ℕ → Wchan → Bool
queued i [] = false
queued i (j ∷ q) = j == i || queued i q

-- No thread is on the channel twice.
abbrev pub Distinct : Wchan → Type 0
Distinct [] = Unit {0}
Distinct (i ∷ q) = (queued i q ≡ false) × Distinct q

pub queued-nil : (i : ℕ) → queued i [] ≡ false
unfolding queued
queued-nil i = refl

pub queued-cons : (i j : ℕ) (q : Wchan) → queued i (j ∷ q) ≡ (j == i || queued i q)
unfolding queued
queued-cons i j q = refl

pub queued-append : (i j : ℕ) (q : Wchan) → queued i (q ++ j ∷ []) ≡ (queued i q || j == i)
unfolding queued
queued-append i j [] = ground arith
queued-append i j (k ∷ q) = ground (arith, queued-append i j q)

pub append-Distinct : (j : ℕ) (q : Wchan) → queued j q ≡ false → Distinct q → Distinct (q ++ j ∷ [])
unfolding queued
append-Distinct j [] h d = (refl, tt)
append-Distinct j (k ∷ q) h d =
    (ground (arith, queued-append k j q, d.0), append-Distinct j q (ground arith) d.1)

-- A sum that is positive has a positive term.
pub total-pos {ℓ} :
    {A : Type ℓ} (w : A → ℕ) (n : ℕ) (f : ℕ → A)
    → 0 < total w n f
    → (i : ℕ) × (i < n) × (0 < w (f i))
total-pos w zero f h = absurd (omega (arith, total-zero w f))
total-pos w (suc n) f h = elim (dec_lt 0 (w (f n))) [
  | yes p ↦ (n, omega arith, p)
  | no p ↦
      let (i, inside, found) = total-pos w n f (omega (arith, total-suc w n f)) in
      (i, omega arith, found)
]
