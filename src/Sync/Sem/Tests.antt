-- ===== src/Sync/Sem/Tests.antt =====
-- A semaphore at a concrete schedule: from 0, threads 0 and 1 wait, and thread 2 gives once.
use cse.Base.{
  ℕ, ◌+◌, ◌≤◌, ◌<◌, ◌≡◌, refl, Bool, true, false, List, [], ◌∷◌, ◌⊎◌, arith, total, dec_lt,
}
use cse.Sync.Wchan.{Outcome, blocked, panics, next}
use cse.Sync.Sem.{Sem, testing, waking, sem_create, act, pick, Reach, start, later}
use cse.Sync.Sem.Invariant.{awake}
use cse.Sync.Sem.Safety.{sem_conserved, no_lost_wakeup}

-- The state after the steps of a schedule, and that it is reached. A step that is not possible is
-- passed over.
advance :
    (n : ℕ) (s : Sem) (i : ℕ) (call : Bool) (o : Outcome Sem)
    → Reach n 0 s
    → i < n
    → act call s i (s.pc i) ≡ o
    → (t : Sem) × Reach n 0 t
advance n s i call blocked r lt e = (s, r)
advance n s i call panics r lt e = (s, r)
advance n s i call (next t) r lt e = (t, later r (pick i call lt e))

replay : (n : ℕ) → List (ℕ × Bool) → (s : Sem) → Reach n 0 s → (t : Sem) × Reach n 0 t
unfolding advance
replay n [] s r = (s, r)
replay n ((i, call) ∷ rest) s r = elim (dec_lt i n) [
  | yes lt ↦
      let (t, r') = advance n s i call (act call s i (s.pc i)) r lt refl in replay n rest t r'
  | no _ ↦ (s, r)
]

abbrev script : List (ℕ × Bool)
script =
    (0, true)
    ∷ (0, true)
    ∷ (0, true)
    ∷ (1, true)
    ∷ (1, true)
    ∷ (1, true)
    ∷ (2, false)
    ∷ (2, true)
    ∷ (2, true)
    ∷ []

abbrev given_once : (t : Sem) × Reach 3 0 t
given_once = replay 3 script (sem_create 0) start

sem_conserved_example :
    (given_once.0.sem_count + given_once.0.taken ≡ 0 + given_once.0.given)
    × (given_once.0.taken ≤ 0 + given_once.0.given)
sem_conserved_example = sem_conserved given_once.1

-- Thread 0 has been woken, and thread 1 sleeps.
no_lost_wakeup_example :
    (given_once.0.sem_count ≤ total awake 3 given_once.0.pc)
    × ((j : ℕ) × (j < 3) × ((given_once.0.pc j ≡ testing) ⊎ (given_once.0.pc j ≡ waking)))
unfolding replay act dec_lt
no_lost_wakeup_example = no_lost_wakeup given_once.1 1 refl (omega arith)
