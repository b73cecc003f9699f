-- ===== src/Sync/Lock.antt =====
-- Sleep locks: lock_acquire, lock_release and lock_do_i_hold of kern/thread/synch.c, by `n` threads
-- that interleave in any order. A thread that has acquired the lock releases it next; any other may
-- try to release it.
pub mod Invariant
pub mod Safety
mod Tests
use cse.Base.{
  ℕ, ◌<◌, ◌≡◌, Bool, true, false, ◌&&◌, Option, none, some, List, [], update, ◌==◌, if◌then◌else◌,
}
use cse.Sync.Wchan.{
  Outcome, blocked, panics, next, Wchan, wchan_sleep, wchan_wakeone, make_runnable,
}

-- Where a thread stands.
pub data Pc : Type 0 where
  idle : Pc  -- outside, without the lock
  want : Pc  -- lock_acquire, before spinlock_acquire
  testing : Pc  -- at the test of the while loop, with the spinlock
  sleeping : Pc  -- on the wait channel
  waking : Pc  -- woken, before the spinlock_acquire that ends wchan_sleep
  owning : Pc  -- lock_acquire has returned
  want_release : Pc  -- lock_release, behind its KASSERTs
  releasing : Pc  -- lock_release, with the spinlock

-- `struct lock` with the threads around it
pub record Lock : Type 0 where
  pub is_locked : Bool
  pub lock_holder : Option ℕ
  pub lock_spinlock : Option ℕ
  pub lock_wchan : Wchan
  pub pc : ℕ → Pc

-- lock_create, with every thread outside
abbrev pub lock_create : Lock
lock_create = record {
  is_locked = false;
  lock_holder = none;
  lock_spinlock = none;
  lock_wchan = [];
  pc = λ i. idle;
}

-- `lock->lock_holder == curthread`
abbrev pub is_thread : Option ℕ → ℕ → Bool
is_thread none i = false
is_thread (some j) i = j == i

pub lock_do_i_hold : Lock → ℕ → Bool
lock_do_i_hold s i = is_thread s.lock_holder i && s.is_locked

-- spinlock_acquire waits until the spinlock is free.
pub grab : Option ℕ → Lock → ℕ → Pc → Outcome Lock
grab none s i p = next (record s { lock_spinlock = some i; pc = update s.pc i p })
grab (some j) s i p = blocked

-- One turn of the loop of lock_acquire: sleep while the lock is held, or take it and return.
pub acquire_section : Lock → ℕ → Outcome Lock
unfolding wchan_sleep
acquire_section s i =
    if s.is_locked
    then next (record s {
      lock_spinlock = none;
      lock_wchan = wchan_sleep i s.lock_wchan;
      pc = update s.pc i sleeping;
    })
    else next (record s {
      is_locked = true;
      lock_holder = some i;
      lock_spinlock = none;
      pc = update s.pc i owning;
    })

-- The KASSERT of lock_release, before it takes the spinlock.
pub release_check : Lock → ℕ → Outcome Lock
unfolding lock_do_i_hold
release_check s i =
    if lock_do_i_hold s i then next (record s { pc = update s.pc i want_release }) else panics

pub release_section : Lock → ℕ → Outcome Lock
unfolding wchan_wakeone
release_section s i =
    let (woken, q) = wchan_wakeone s.lock_wchan in
    next (record s {
      is_locked = false;
      lock_holder = none;
      lock_spinlock = none;
      lock_wchan = q;
      pc = make_runnable waking woken (update s.pc i idle);
    })

-- The next step of thread `i`, which stands at `p`; an idle one calls lock_acquire or lock_release.
pub act : Bool → Lock → ℕ → Pc → Outcome Lock
unfolding grab acquire_section release_check release_section
act true s i idle = next (record s { pc = update s.pc i want })
act false s i idle = release_check s i
act call s i want = grab s.lock_spinlock s i testing
act call s i testing = acquire_section s i
act call s i sleeping = blocked
act call s i waking = grab s.lock_spinlock s i testing
act call s i owning = release_check s i
act call s i want_release = grab s.lock_spinlock s i releasing
act call s i releasing = release_section s i

pub data Step (n : ℕ) (s t : Lock) : Type 0 where
  pick : (i : ℕ) (call : Bool) → i < n → act call s i (s.pc i) ≡ next t → Step n s t

-- The states that `n` threads reach from a fresh lock.
pub data Reach (n : ℕ) : Lock → Type 0 where
  start : Reach n lock_create
  later : {s t : Lock} → Reach n s → Step n s t → Reach n t
