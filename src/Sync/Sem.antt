-- ===== src/Sync/Sem.antt =====
-- Semaphores: P and V of kern/thread/synch.c, by `n` threads that interleave in any order.
-- Each function of a section is what the code does while it holds `sem_lock`.
pub mod Invariant
pub mod Safety
mod Tests
use cse.Base.{
  ℕ, suc, ◌+◌, ◌-◌, ◌^◌, ◌<◌, ◌≡◌, Bool, true, false, Option, none, some, List, [], update, ltb,
  ◌==◌, if◌then◌else◌,
}
use cse.Sync.Wchan.{
  Outcome, blocked, panics, next, Wchan, wchan_sleep, wchan_wakeone, make_runnable,
}

-- Where a thread stands.
pub data Pc : Type 0 where
  idle : Pc  -- outside P and V
  want_p : Pc  -- P, before spinlock_acquire
  testing : Pc  -- P, at the test of the while loop, with the spinlock
  sleeping : Pc  -- on the wait channel
  waking : Pc  -- woken, before the spinlock_acquire that ends wchan_sleep
  want_v : Pc  -- V, before spinlock_acquire
  adding : Pc  -- V, with the spinlock

-- `struct semaphore` with the threads around it. `taken` and `given` count the finished P and V.
pub record Sem : Type 0 where
  pub sem_count : ℕ
  pub sem_lock : Option ℕ
  pub sem_wchan : Wchan
  pub pc : ℕ → Pc
  pub taken : ℕ
  pub given : ℕ

-- sem_create, with every thread outside
abbrev pub sem_create : ℕ → Sem
sem_create initial_count = record {
  sem_count = initial_count;
  sem_lock = none;
  sem_wchan = [];
  pc = λ i. idle;
  taken = 0;
  given = 0;
}

-- spinlock_acquire waits until the spinlock is free.
pub grab : Option ℕ → Sem → ℕ → Pc → Outcome Sem
grab none s i p = next (record s { sem_lock = some i; pc = update s.pc i p })
grab (some j) s i p = blocked

abbrev pub spin_acquire : Sem → ℕ → Pc → Outcome Sem
spin_acquire s i p = grab s.sem_lock s i p

-- One turn of the loop of P: sleep at a count of 0, or take one and return.
pub p_section : Sem → ℕ → Outcome Sem
unfolding wchan_sleep
p_section s i =
    if s.sem_count == 0
    then next (record s {
      sem_lock = none;
      sem_wchan = wchan_sleep i s.sem_wchan;
      pc = update s.pc i sleeping;
    })
    else next (record s {
      sem_count = s.sem_count - 1;
      sem_lock = none;
      pc = update s.pc i idle;
      taken = s.taken + 1;
    })

-- V counts up, asserts that the count did not wrap, and wakes one thread.
pub v_section : Sem → ℕ → Outcome Sem
unfolding wchan_wakeone
v_section s i =
    if ltb (s.sem_count + 1) (2 ^ 32)
    then (let (woken, q) = wchan_wakeone s.sem_wchan in
        next (record s {
          sem_count = s.sem_count + 1;
          sem_lock = none;
          sem_wchan = q;
          pc = make_runnable waking woken (update s.pc i idle);
          given = s.given + 1;
        }))
    else panics

-- The next step of thread `i`, which stands at `p`; an idle one calls P or V.
pub act : Bool → Sem → ℕ → Pc → Outcome Sem
unfolding grab p_section v_section
act true s i idle = next (record s { pc = update s.pc i want_p })
act false s i idle = next (record s { pc = update s.pc i want_v })
act call s i want_p = spin_acquire s i testing
act call s i testing = p_section s i
act call s i sleeping = blocked
act call s i waking = spin_acquire s i testing
act call s i want_v = spin_acquire s i adding
act call s i adding = v_section s i

pub data Step (n : ℕ) (s t : Sem) : Type 0 where
  pick : (i : ℕ) (call : Bool) → i < n → act call s i (s.pc i) ≡ next t → Step n s t

-- The states that `n` threads reach from a fresh semaphore.
pub data Reach (n initial_count : ℕ) : Sem → Type 0 where
  start : Reach n initial_count (sem_create initial_count)
  later : {s t : Sem} → Reach n initial_count s → Step n s t → Reach n initial_count t
