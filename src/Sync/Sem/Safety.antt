-- ===== src/Sync/Sem/Safety.antt =====
-- What a semaphore promises, in every state that its threads reach.
use cse.Base.{ℕ, ◌+◌, ◌≤◌, ◌<◌, ◌≡◌, ◌≢◌, refl, true, false, [], arith, total, ◌⊎◌, inl, inr}
use cse.Sync.Wchan.{Wchan, total-pos, queued, queued-nil}
use cse.Sync.Sem.{Sem, Pc, sleeping, testing, waking, Reach}
use cse.Sync.Sem.Invariant.{spins, awake, Reach-Inv}

-- Counting: the finished P never outnumber the initial count and the finished V, and the count is
-- exactly the difference.
pub sem_conserved :
    {n k : ℕ} {s : Sem}
    → Reach n k s
    → (s.sem_count + s.taken ≡ k + s.given) × (s.taken ≤ k + s.given)
sem_conserved r = omega (arith, (Reach-Inv r).counted)

-- No lost wakeup: while the count is positive and a thread sleeps on the channel, some thread of the
-- `n` is awake in the loop of P and will test the count; there are at least `sem_count` of them.
pub no_lost_wakeup :
    {n k : ℕ} {s : Sem}
    → Reach n k s
    → (i : ℕ) → s.pc i ≡ sleeping
    → 0 < s.sem_count
    → (s.sem_count ≤ total awake n s.pc)
      × ((j : ℕ) × (j < n) × ((s.pc j ≡ testing) ⊎ (s.pc j ≡ waking)))
no_lost_wakeup {n} {k} {s} r i at more =
    let inv = Reach-Inv r in
    let someone : s.sem_wchan ≢ [] =
      λ e. ground (arith, inv.slept i, queued_nowhere i s.sem_wchan e) in
    let enough = inv.woken someone in
    let (j, lt, up) = total-pos awake n s.pc (omega arith) in
    (enough, (j, lt, awake-inv (s.pc j) up))
  where
    queued_nowhere : (i : ℕ) (q : Wchan) → q ≡ [] → queued i q ≡ false
    queued_nowhere i q e = rw e (queued-nil i)

    awake-inv : (p : Pc) → 0 < awake p → (p ≡ testing) ⊎ (p ≡ waking)
    awake-inv testing h = inl refl
    awake-inv waking h = inr refl
    awake-inv p h = ground arith

-- Mutual exclusion of the sections: at most one thread holds the spinlock.
pub one_section :
    {n k : ℕ} {s : Sem}
    → Reach n k s
    → (i j : ℕ) → spins (s.pc i) ≡ true
    → spins (s.pc j) ≡ true
    → i ≡ j
one_section r i j hi hj = ground (arith, (Reach-Inv r).spun i, (Reach-Inv r).spun j)
