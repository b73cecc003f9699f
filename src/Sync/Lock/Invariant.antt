-- ===== src/Sync/Lock/Invariant.antt =====
-- What every step of lock_acquire and lock_release keeps.
use cse.Base.{
  ℕ, ◌≤◌, ◌<◌, ◌≡◌, ◌≢◌, refl, sym, Bool, true, false, Option, none, some, [], ◌∷◌, arith, update,
  total, total-update,
}
use cse.Sync.Wchan.{
  Wchan, wchan_wakeone, make_runnable, queued, Distinct, queued-nil, queued-cons, queued-append,
  append-Distinct, Ensures, Ensures-test, Ensures-next,
}
use cse.Sync.Lock.{
  Lock, Pc, idle, want, testing, sleeping, waking, owning, want_release, releasing, lock_create,
  lock_do_i_hold, grab, acquire_section, release_check, release_section, act, Step, pick, Reach,
  start, later,
}

-- The thread has the spinlock.
abbrev pub spins : Pc → Bool
spins testing = true
spins releasing = true
spins _ = false

abbrev pub asleep : Pc → Bool
asleep sleeping = true
asleep _ = false

-- The thread has the lock: lock_acquire has returned, and lock_release has not given it up.
abbrev pub owns : Pc → Bool
owns owning = true
owns want_release = true
owns releasing = true
owns _ = false

-- The thread is awake in the loop of lock_acquire, and will test the lock.
abbrev pub awake : Pc → ℕ
awake testing = 1
awake waking = 1
awake _ = 0

pub record Inv (n : ℕ) (s : Lock) : Type 0 where
  pub inside : (i : ℕ) → n ≤ i → s.pc i ≡ idle
  pub spun : (i : ℕ) → spins (s.pc i) ≡ true → s.lock_spinlock ≡ some i
  pub slept : (i : ℕ) → asleep (s.pc i) ≡ queued i s.lock_wchan
  pub distinct : Distinct s.lock_wchan
  pub owner : (i : ℕ) → owns (s.pc i) ≡ true → (s.lock_holder ≡ some i) × (s.is_locked ≡ true)
  pub held : (i : ℕ) → s.lock_holder ≡ some i → owns (s.pc i) ≡ true
  pub free : s.is_locked ≡ false → s.lock_holder ≡ none
  pub woken : s.is_locked ≡ false → s.lock_wchan ≢ [] → 0 < total awake n s.pc

module _ {n : ℕ} {s : Lock} (inv : Inv n s) (i : ℕ) (lt : i < n) where
  -- A move of thread `i` that leaves the lock and the channel alone.
  quiet-Inv :
      (p : Pc) (l : Option ℕ)
      → asleep (s.pc i) ≡ false
      → asleep p ≡ false
      → owns p ≡ owns (s.pc i)
      → awake (s.pc i) ≤ awake p
      → ((j : ℕ) → spins (update s.pc i p j) ≡ true → l ≡ some j)
      → Inv n (record s { lock_spinlock = l; pc = update s.pc i p })
  quiet-Inv p l up stays same more lock = record {
    inside = λ j h. ground (arith, inv.inside j);
    spun = lock;
    slept = λ j. ground (arith, inv.slept j);
    distinct = inv.distinct;
    owner = λ j h. ground (arith, inv.owner j);
    held = λ j h. ground (arith, inv.held j);
    free = inv.free;
    woken = λ u h. omega (arith, inv.woken u h, total-update awake n s.pc i p lt);
  }

  grab-Inv :
      (p : Pc) (l : Option ℕ)
      → s.lock_spinlock ≡ l
      → asleep (s.pc i) ≡ false
      → asleep p ≡ false
      → owns p ≡ owns (s.pc i)
      → awake (s.pc i) ≤ awake p
      → Ensures (Inv n) (grab l s i p)
  unfolding grab
  grab-Inv p none unheld up stays same more =
      quiet-Inv p (some i) up stays same more (λ j h. ground (arith, inv.spun j))
  grab-Inv p (some j) taken up stays same more = tt

  release_check-Inv :
      spins (s.pc i) ≡ false
      → asleep (s.pc i) ≡ false
      → awake (s.pc i) ≡ 0
      → Ensures (Inv n) (release_check s i)
  unfolding release_check lock_do_i_hold
  release_check-Inv still up out =
      Ensures-test (Inv n) (lock_do_i_hold s i) _ _
        (λ mine.
          quiet-Inv want_release s.lock_spinlock up refl (ground (arith, inv.held i)) (omega arith)
            (λ j h. ground (arith, inv.spun j)))
        (λ other. tt)

  module _ (spinning : s.lock_spinlock ≡ some i) where
    acquire_section-Inv : s.pc i ≡ testing → Ensures (Inv n) (acquire_section s i)
    unfolding acquire_section
    acquire_section-Inv at =
        Ensures-test (Inv n) s.is_locked _ _
          (λ busy. record {
            inside = λ j h. ground (arith, inv.inside j);
            spun = λ j h. ground (arith, inv.spun j);
            slept = λ j. ground (arith, inv.slept j, queued-append j i s.lock_wchan);
            distinct = append-Distinct i s.lock_wchan (ground (arith, inv.slept i)) inv.distinct;
            owner = λ j h. ground (arith, inv.owner j);
            held = λ j h. ground (arith, inv.held j);
            free = inv.free;
            woken = λ u h. cc;
          })
          (λ open_lock. record {
            inside = λ j h. ground (arith, inv.inside j);
            spun = λ j h. ground (arith, inv.spun j);
            slept = λ j. ground (arith, inv.slept j);
            distinct = inv.distinct;
            owner = λ j h. ground (arith, inv.owner j);
            held = λ j h. ground arith;
            free = λ u. cc;
            woken = λ u h. cc;
          })

    -- lock_release on a channel with the thread `j` at its head.
    release_wakes :
        (j : ℕ) (q : Wchan)
        → s.pc i ≡ releasing
        → s.lock_wchan ≡ j ∷ q
        → Inv n (record s {
          is_locked = false;
          lock_holder = none;
          lock_spinlock = none;
          lock_wchan = q;
          pc = update (update s.pc i idle) j waking;
        })
    release_wakes j q at e =
        let down : asleep (s.pc j) ≡ true = ground (arith, inv.slept j, queued-cons j j q) in
        let there : j < n = ground (arith, inv.inside j) in
        let apart : i ≢ j = ground arith in
        let d : Distinct (j ∷ q) = rw e at inv.distinct in
        record {
          inside = λ m h. ground (arith, inv.inside m);
          spun = λ m h. ground (arith, inv.spun m);
          slept = λ m. ground (arith, inv.slept m, queued-cons m j q, d.0);
          distinct = d.1;
          owner = λ m h. ground (arith, inv.owner m, inv.owner i);
          held = λ m h. cc;
          free = λ u. refl;
          woken = λ u h. ground (arith, total-update awake n (update s.pc i idle) j waking there);
        }

    release_wakeone :
        (q : Wchan)
        → s.pc i ≡ releasing
        → s.lock_wchan ≡ q
        → Inv n (record s {
          is_locked = false;
          lock_holder = none;
          lock_spinlock = none;
          lock_wchan = (wchan_wakeone q).1;
          pc = make_runnable waking (wchan_wakeone q).0 (update s.pc i idle);
        })
    unfolding wchan_wakeone
    release_wakeone [] at e = record {
      inside = λ m h. ground (arith, inv.inside m);
      spun = λ m h. ground (arith, inv.spun m);
      slept = λ m. ground (arith, inv.slept m, queued-nil m);
      distinct = tt;
      owner = λ m h. ground (arith, inv.owner m, inv.owner i);
      held = λ m h. cc;
      free = λ u. refl;
      woken = λ u h. absurd (h refl);
    }
    release_wakeone (j ∷ q) at e = release_wakes j q at e

    release_section-Inv : s.pc i ≡ releasing → Ensures (Inv n) (release_section s i)
    unfolding release_section
    release_section-Inv at = release_wakeone s.lock_wchan at refl

  act-Inv : (p : Pc) (call : Bool) → s.pc i ≡ p → Ensures (Inv n) (act call s i p)
  unfolding act
  act-Inv idle true at =
      quiet-Inv want s.lock_spinlock (ground arith) refl (ground arith) (ground arith)
        (λ j h. ground (arith, inv.spun j))
  act-Inv idle false at = release_check-Inv (ground arith) (ground arith) (ground arith)
  act-Inv want call at =
      grab-Inv testing s.lock_spinlock refl (ground arith) refl (ground arith) (ground arith)
  act-Inv testing call at = acquire_section-Inv (inv.spun i (ground arith)) at
  act-Inv sleeping call at = tt
  act-Inv waking call at =
      grab-Inv testing s.lock_spinlock refl (ground arith) refl (ground arith) (ground arith)
  act-Inv owning call at = release_check-Inv (ground arith) (ground arith) (ground arith)
  act-Inv want_release call at =
      grab-Inv releasing s.lock_spinlock refl (ground arith) refl (ground arith) (ground arith)
  act-Inv releasing call at = release_section-Inv (inv.spun i (ground arith)) at

Inv-create : (n : ℕ) → Inv n lock_create
Inv-create n = record {
  inside = λ i h. refl;
  spun = λ i h. cc;
  slept = λ i. sym (queued-nil i);
  distinct = tt;
  owner = λ i h. cc;
  held = λ i h. cc;
  free = λ u. refl;
  woken = λ u h. absurd (h refl);
}

-- Every step of a thread keeps the invariant.
pub Step-Inv : {n : ℕ} {s t : Lock} → Step n s t → Inv n s → Inv n t
Step-Inv {n} {s} {t} (pick i call lt e) inv =
    Ensures-next (Inv n) (act call s i (s.pc i)) t (act-Inv inv i lt (s.pc i) call refl) e

pub Reach-Inv : {n : ℕ} {s : Lock} → Reach n s → Inv n s
Reach-Inv {n} start = Inv-create n
Reach-Inv (later r st) = Step-Inv st (Reach-Inv r)
