-- ===== src/Process/Safety.antt =====
-- The invariant of the calls in every state that the processes reach.
use cse.Base.{
  ap, sym, ◌∙◌, Run, Option-cases, Option, none, some, Ends-seq, done, update, Ends-test, ◌==◌, ◌≢◌,
  ℤ, ℕ, ◌≡◌, refl, true, false, Option, none, some, arith, Ends, Bool-cases, inl, inr,
}
use cse.Process.Family.{ideal}
use cse.Process.{
  woken, retire, parent_proc, is_pid, gone, Pids, Proc, Pc, proc_exit, leave, proc_destroy, Proc,
  running, Kernel,
}
use cse.Process.Calls.{
  Step, Reach, forks, waiting, reaps, waits_on, reaps_later, exits, start, later, proc_create, boot,
  esrch, echild, Errno, einval, sys_waitpid, sys__exit, Call, refused, refused_locked, returned,
  waits, sys_fork, reap, wait_loop,
}
use cse.Process.Invariant.{update-holds, wait-Inv, fork-Inv, reap-Inv, sleep-Inv}
use cse.Process.Orphans.{without_parent, orphan_loop_lem}
use cse.Process.Leaving.{destroyed-Inv, zombie-Inv}
use cse.Sync.Wchan.{queued-nil, Distinct}
use cse.Process.Family.{children_of, parent_of, waitpid_of, lives, Inv}

-- The kernel behind a call, if there is one, satisfies `P`.
abbrev pub Leads : (Kernel → Type 0) → Call → Type 0
Leads P (refused e) = Unit
Leads P (refused_locked e) = Unit
Leads P (returned v t) = P t
Leads P (waits t) = P t

-- A live process has a record.
pub record_of : (o : Option Proc) → lives o ≡ true → (x : Proc) × (o ≡ some x) × (x.exited ≡ false)
record_of none h = cc
record_of (some x) h = (x, refl, ground arith)

pub child_of :
    (o : Option Proc) (q : ℕ)
    → parent_of o ≡ some q
    → (x : Proc) × (o ≡ some x) × (x.parent ≡ some q)
child_of none q h = cc
child_of (some x) q h = (x, refl, h)

module _ {k : Kernel} (inv : Inv k) where
  pub sys_fork-Inv :
      (p c : ℕ) → k.pc p ≡ running → k.pids c ≡ none → Ends (Leads Inv) (sys_fork (some c) k p)
  unfolding sys_fork
  sys_fork-Inv p c run free =
      let (parent, here, live) = record_of (k.pids p) (ground (arith, inv.threads p)) in
      rw (here, sys_fork) (_, refl, fork-Inv inv p c parent here live free)

  wait_loop-Inv :
      (p c : ℕ)
      → lives (k.pids p) ≡ true
      → parent_of (k.pids c) ≡ some p
      → waitpid_of (k.pids p) ≡ some c
      → Ends (Leads Inv) (wait_loop ideal k p c)
  unfolding wait_loop reap
  wait_loop-Inv p c live up for =
      let (cur, here, on) = record_of (k.pids p) live in
      let (child, there, mine) = child_of (k.pids c) p up in
      rw (here, there, wait_loop)
        (elim (Bool-cases child.exited) [
          | inl e ↦ rw e (_, refl, reap-Inv inv p c cur child here there mine on e)
          | inr e ↦ rw e (_, refl, sleep-Inv inv p c live (ground arith) up for)
        ])

module _ {k : Kernel} (inv : Inv k) where
  pub sys_waitpid-Inv :
      (p c options : ℕ) (copied : Option Errno)
      → k.pc p ≡ running
      → Ends (Leads Inv) (sys_waitpid ideal k p c options copied)
  unfolding sys_waitpid
  sys_waitpid-Inv p c options (some e) run =
      Ends-test _ (options == 0) _ _ (λ h. (refused e, refl, tt)) (λ h. (refused einval, refl, tt))
  sys_waitpid-Inv p c options none run =
      Ends-test _ (options == 0) _ _
        (λ h. elim (Option-cases (k.pids c)) [
          | inl missing ↦ rw missing (refused esrch, refl, tt)
          | inr (child, there) ↦ rw there (
              Ends-test _ (is_pid child.parent p) _ _
                (λ mine.
                  let (cur, here, live) = record_of (k.pids p) (ground (arith, inv.threads p)) in
                  let up : parent_of (k.pids c) ≡ some p = ground arith in
                  rw here (
                    wait_loop-Inv (wait-Inv inv p c cur here run up) p c (ground arith)
                      (ground (arith, inv.apart p)) (ground arith)))
                (λ other. (refused echild, refl, tt)))
        ])
        (λ h. (refused einval, refl, tt))

  pub woken-Inv : (p c : ℕ) → k.pc p ≡ woken c → Ends (Leads Inv) (wait_loop ideal k p c)
  woken-Inv p c at =
      let for = inv.waited p c (ground arith) in
      wait_loop-Inv inv p c (ground (arith, inv.threads p)) for.0 for.1

  -- The state behind proc_exit, once the thread is gone.
  module _ (p : ℕ) (run : k.pc p ≡ running) where
    abbrev pub Left : Pids × (ℕ → Pc) → Type 0
    Left r = Inv (record { pids = r.0; pc = update r.1 p gone })

    pub leave-Left :
        (proc : Proc) (after : Pids) (exitcode : ℤ)
        → k.pids p ≡ some proc
        → ((x : ℕ) → after x ≡ without_parent proc.children k.pids x)
        → Left (leave ideal after k.pc proc exitcode)
    unfolding leave retire proc_destroy
    leave-Left proc after exitcode here read =
        let named : proc.pid ≡ p = ground (arith, inv.own p) in
        elim (Option-cases proc.parent) [
          | inl up ↦ rw (up, named) (destroyed-Inv inv p proc after here run read up)
          | inr (q, up) ↦ elim (Option-cases (after q)) [
            | inl lost ↦ absurd (ground (arith, inv.linked p q, read q))
            | inr (parent, there) ↦
                let found : parent_proc after proc.parent ≡ some parent = ground arith in
                rw (found, leave)
                  (zombie-Inv inv p proc after here run read q parent exitcode up there)
          ]
        ]

    -- What proc_exit has computed when it ends.
    pub record Exit (exitcode : ℤ) (r : Pids × (ℕ → Pc)) : Type 0 where
      pub proc : Proc
      pub after : Pids
      pub here : k.pids p ≡ some proc
      pub read : (x : ℕ) → after x ≡ without_parent proc.children k.pids x
      pub result : r ≡ leave ideal after k.pc proc exitcode

    pub proc_exit-Exit :
        (exitcode : ℤ) → p ≢ 0 → Ends (Exit exitcode) (proc_exit ideal k.pids k.pc p exitcode)
    unfolding proc_exit
    proc_exit-Exit exitcode user =
        let (proc, here, live) = record_of (k.pids p) (ground (arith, inv.threads p)) in
        let nonzero : (p == 0) ≡ false = ground arith in
        rw (here, nonzero, proc_exit)
          (Ends-seq _ _ _ _ (orphan_loop_lem proc.children k.pids inv.own) (λ after read.
            let kept : after p ≡ some proc = ground (arith, read p, inv.listed p p, inv.apart p) in
            rw kept (
              _,
              refl,
              record { proc = proc; after = after; here = here; read = read; result = refl },
            )))

    pub sys__exit-Inv : (exitcode : ℤ) → p ≢ 0 → Ends Inv (sys__exit ideal k p exitcode)
    unfolding sys__exit
    sys__exit-Inv exitcode user =
        Ends-seq _ _ _ _ (proc_exit-Exit exitcode user)
          (λ r e. (_, refl, rw (e.result) (leave-Left e.proc e.after exitcode e.here e.read)))

abbrev unwrap : {A : Type 0} → A → Run A → A
unwrap a (done b) = b
unwrap a _ = a

-- A run that ends has one result.
pub Ends-result : {A : Type 0} (P : A → Type 0) (r : Run A) (a : A) → Ends P r → r ≡ done a → P a
Ends-result P r a (b, e, h) f = let same : b ≡ a = ap (unwrap b) (sym e ∙ f) in rw same at h

boot-Inv : Inv boot
boot-Inv = record {
  own = λ x. ground arith;
  linked = λ x q h. ground arith;
  listed = λ q x h. ground (arith, queued-nil x);
  distinct = λ q.
      update-holds (λ o. Distinct (children_of o)) (λ p. none) 0 (some (proc_create 0)) q (tt {0})
        (tt {0});
  apart = λ x h. ground arith;
  undead = λ x h. ground arith;
  threads = λ x. ground arith;
  waited = λ x y h. ground arith;
  unslept = λ x y h. ground arith;
}

Step-Inv : {s t : Kernel} → Step ideal s t → Inv s → Inv t
Step-Inv {s} {t} (forks p c r run free e) inv = Ends-result _ _ _ (sys_fork-Inv inv p c run free) e
Step-Inv (waiting p c options run e) inv =
    Ends-result _ _ _ (sys_waitpid-Inv inv p c options none run) e
Step-Inv (reaps p c options v run e) inv =
    Ends-result _ _ _ (sys_waitpid-Inv inv p c options none run) e
Step-Inv (waits_on p c at e) inv = Ends-result _ _ _ (woken-Inv inv p c at) e
Step-Inv (reaps_later p c v at e) inv = Ends-result _ _ _ (woken-Inv inv p c at) e
Step-Inv (exits p v run user e) inv = Ends-result _ _ _ (sys__exit-Inv inv p run v user) e

pub Reach-Inv : {k : Kernel} → Reach ideal k → Inv k
Reach-Inv start = boot-Inv
Reach-Inv (later r st) = Step-Inv st (Reach-Inv r)
