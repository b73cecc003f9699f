-- ===== src/Sync/Lock/Safety.antt =====
-- What a lock promises, in every state that its threads reach.
use cse.Base.{ℕ, ◌<◌, ◌≡◌, ◌≢◌, refl, true, false, [], arith, update, ◌⊎◌, inl, inr}
use cse.Sync.Wchan.{Wchan, total-pos, queued, queued-nil, next, panics}
use cse.Sync.Lock.{
  Lock, Pc, idle, testing, sleeping, waking, owning, want_release, lock_do_i_hold, act,
  release_check, Reach,
}
use cse.Sync.Lock.Invariant.{owns, awake, Reach-Inv}

-- Mutual exclusion: of two threads that have the lock each is the other.
pub mutual_exclusion :
    {n : ℕ} {s : Lock} → Reach n s → (i j : ℕ) → owns (s.pc i) ≡ true → owns (s.pc j) ≡ true → i ≡ j
mutual_exclusion r i j hi hj = ground (arith, (Reach-Inv r).owner i, (Reach-Inv r).owner j)

-- lock_do_i_hold answers true to exactly the threads that have the lock.
pub lock_do_i_hold_iff :
    {n : ℕ} {s : Lock} → Reach n s → (i : ℕ) → lock_do_i_hold s i ≡ owns (s.pc i)
unfolding lock_do_i_hold
lock_do_i_hold_iff {s = s} r i =
    ground (arith, (Reach-Inv r).owner i, (Reach-Inv r).held i, (Reach-Inv r).free)

-- The KASSERT of lock_release passes for the thread that has the lock, and fails for an idle one.
pub release_check_lem :
    {n : ℕ} {s : Lock}
    → Reach n s
    → (i : ℕ)
    → (s.pc i ≡ owning → (t : Lock) × (act true s i owning ≡ next t))
      × (s.pc i ≡ idle → act false s i idle ≡ panics)
unfolding act release_check
release_check_lem {s = s} r i = (
  λ at.
      let mine : lock_do_i_hold s i ≡ true = ground (arith, lock_do_i_hold_iff r i) in
      (record s { pc = update s.pc i want_release }, rw mine),
  λ at. let other : lock_do_i_hold s i ≡ false = ground (arith, lock_do_i_hold_iff r i) in rw other,
)

-- No lost wakeup: while the lock is free and a thread sleeps on its channel, some thread is awake in
-- the loop of lock_acquire and will test the lock.
pub free_lock_is_wanted :
    {n : ℕ} {s : Lock}
    → Reach n s
    → (i : ℕ) → s.pc i ≡ sleeping
    → s.is_locked ≡ false
    → (j : ℕ) × (j < n) × ((s.pc j ≡ testing) ⊎ (s.pc j ≡ waking))
free_lock_is_wanted {n} {s} r i at open_lock =
    let inv = Reach-Inv r in
    let someone : s.lock_wchan ≢ [] =
      λ e. ground (arith, inv.slept i, queued_nowhere s.lock_wchan e) in
    let (j, lt, up) = total-pos awake n s.pc (inv.woken open_lock someone) in
    (j, lt, awake-inv (s.pc j) up)
  where
    queued_nowhere : (q : Wchan) → q ≡ [] → queued i q ≡ false
    queued_nowhere q e = rw e (queued-nil i)

    awake-inv : (p : Pc) → 0 < awake p → (p ≡ testing) ⊎ (p ≡ waking)
    awake-inv testing h = inl refl
    awake-inv waking h = inr refl
    awake-inv p h = ground arith
