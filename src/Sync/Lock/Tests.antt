-- ===== src/Sync/Lock/Tests.antt =====
-- Locks at a concrete schedule: thread 0 takes the lock, 1 and 2 wait for it, 0 releases it.
use cse.Base.{ℕ, ◌<◌, ◌≡◌, refl, Bool, true, false, List, [], ◌∷◌, ◌⊎◌, dec_lt}
use cse.Sync.Wchan.{Outcome, blocked, panics, next}
use cse.Sync.Lock.{Lock, idle, testing, waking, owning, lock_create, act, pick, Reach, start, later}
use cse.Sync.Lock.Safety.{mutual_exclusion, release_check_lem, free_lock_is_wanted}

-- The state after the steps of a schedule, and that it is reached. A step that is not possible is
-- passed over.
advance :
    (n : ℕ) (s : Lock) (i : ℕ) (call : Bool) (o : Outcome Lock)
    → Reach n s
    → i < n
    → act call s i (s.pc i) ≡ o
    → (t : Lock) × Reach n t
advance n s i call blocked r lt e = (s, r)
advance n s i call panics r lt e = (s, r)
advance n s i call (next t) r lt e = (t, later r (pick i call lt e))

replay : (n : ℕ) → List (ℕ × Bool) → (s : Lock) → Reach n s → (t : Lock) × Reach n t
unfolding advance
replay n [] s r = (s, r)
replay n ((i, call) ∷ rest) s r = elim (dec_lt i n) [
  | yes lt ↦
      let (t, r') = advance n s i call (act call s i (s.pc i)) r lt refl in replay n rest t r'
  | no _ ↦ (s, r)
]

abbrev waiting : List (ℕ × Bool)
waiting =
    (0, true)
    ∷ (0, true)
    ∷ (0, true)
    ∷ (1, true)
    ∷ (1, true)
    ∷ (1, true)
    ∷ (2, true)
    ∷ (2, true)
    ∷ (2, true)
    ∷ []

abbrev released : List (ℕ × Bool)
released = (0, true) ∷ (0, true) ∷ (0, true) ∷ []

abbrev busy : (t : Lock) × Reach 3 t
busy = replay 3 waiting lock_create start

abbrev freed : (t : Lock) × Reach 3 t
freed = replay 3 released busy.0 busy.1

mutual_exclusion_example : ◌≡◌ {A = ℕ} 0 0
unfolding replay act dec_lt
mutual_exclusion_example = mutual_exclusion busy.1 0 0 refl refl

release_check_lem_example :
    (busy.0.pc 0 ≡ owning → (t : Lock) × (act true busy.0 0 owning ≡ next t))
    × (busy.0.pc 0 ≡ idle → act false busy.0 0 idle ≡ panics)
release_check_lem_example = release_check_lem busy.1 0

-- Thread 1 has been woken, and thread 2 sleeps.
free_lock_is_wanted_example :
    (j : ℕ) × (j < 3) × ((freed.0.pc j ≡ testing) ⊎ (freed.0.pc j ≡ waking))
unfolding replay act dec_lt
free_lock_is_wanted_example = free_lock_is_wanted freed.1 2 refl refl
