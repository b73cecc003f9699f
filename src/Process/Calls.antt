-- ===== src/Process/Calls.antt =====
-- The calls of kern/syscall/process_syscalls.c on processes, the runs they make up, and proc_create and
-- proc_create_fork of kern/proc/proc.c.
use cse.Base.{
  ℕ, false, Option, none, some, [], ◌∷◌, ◌++◌, ◌≡◌, ◌≢◌, ◌==◌, if◌then◌else◌, update, Run, done,
  fault, ◌>>=◌, ℤ, pos,
}
use cse.Process.{
  Services, Proc, Pids, running, gone, sleeping, woken, Kernel, proc_remlist, proc_destroy, is_pid,
  proc_exit,
}

-- The codes of errno.h that the calls return.
pub data Errno : Type 0 where
  einval efault esrch echild enproc : Errno

-- What a call ends in: an error, with the lock released or still held; a return to user code; or
-- a wait.
pub data Call : Type 0 where
  refused refused_locked : Errno → Call
  returned : ℤ → Kernel → Call
  waits : Kernel → Call

-- proc_create, with the pid that pid_allocate gave.
abbrev pub proc_create : ℕ → Proc
proc_create c = record {
  pid = c;
  parent = none;
  waitpid = none;
  children = [];
  exit_val = pos 0;
  exited = false;
}

-- The last part of proc_create_fork, which links the new process and its parent.
unfoldable pub proc_create_fork : Pids → Proc → ℕ → Pids
proc_create_fork pids parent c =
    update (update pids c (some (record (proc_create c) { parent = some parent.pid }))) parent.pid
      (some (record parent { children = parent.children ++ c ∷ [] }))

-- sys_fork by the process `p`, where `allocated` is the answer of pid_allocate. An error returns
-- before the lock is released.
unfoldable pub sys_fork : Option ℕ → Kernel → ℕ → Run Call
unfolding proc_create_fork
sys_fork none k p = done (refused_locked enproc)
sys_fork (some c) k p = elim (k.pids p) [
  | none ↦ fault
  | some parent ↦ done (
      returned (pos c)
        (record { pids = proc_create_fork k.pids parent c; pc = update k.pc c running }))
]

-- The end of sys_waitpid by `p`, behind its loop: the child is destroyed and its exit value is
-- returned.
unfoldable pub reap : Services → Kernel → ℕ → Proc → ℕ → Proc → Call
unfolding proc_remlist proc_destroy
reap env k p cur pid child = returned child.exit_val (record {
  pids =
      update (proc_destroy env k.pids child) p
        (some (record cur { waitpid = none; children = proc_remlist cur.children pid }));
  pc = update k.pc p running;
})

-- The loop of sys_waitpid by `p`, from its test to cv_wait or to the end of the call.
unfoldable pub wait_loop : Services → Kernel → ℕ → ℕ → Run Call
unfolding reap
wait_loop env k p pid = elim (k.pids p) [
  | none ↦ fault
  | some cur ↦ elim (k.pids pid) [
    | none ↦ fault
    | some child ↦ done (
        if child.exited
        then reap env k p cur pid child
        else waits (record k { pc = update k.pc p (sleeping pid) }))
  ]
]

-- sys_waitpid by `p`, where `copied` is the error that copyin has for the status pointer, if any.
unfoldable pub sys_waitpid : Services → Kernel → ℕ → ℕ → ℕ → Option Errno → Run Call
unfolding wait_loop
sys_waitpid env k p pid options copied =
    if options == 0
    then elim copied as (λ _. Run Call) [
      | some err ↦ done (refused err)
      | none ↦ elim (k.pids pid) as (λ _. Run Call) [
        | none ↦ done (refused esrch)
        | some child ↦
            if is_pid child.parent p
            then elim (k.pids p) as (λ _. Run Call) [
              | none ↦ fault
              | some cur ↦
                  wait_loop env
                    (record k { pids = update k.pids p (some (record cur { waitpid = some pid })) })
                    p pid
            ]
            else done (refused echild)
      ]
    ]
    else done (refused einval)

-- sys__exit by `p`; the thread is gone behind it.
unfoldable pub sys__exit : Services → Kernel → ℕ → ℤ → Run Kernel
unfolding proc_exit
sys__exit env k p exitcode = proc_exit env k.pids k.pc p exitcode >>= λ r.
    done (record { pids = r.0; pc = update r.1 p gone })

-- A step of some process: a call out of user code, or the rest of waitpid behind cv_wait. pid_allocate
-- gives a pid without a process. The kernel's process does not exit.
pub data Step (env : Services) (s t : Kernel) : Type 0 where
  forks :
      (p c : ℕ) (r : ℤ)
      → s.pc p ≡ running
      → s.pids c ≡ none
      → sys_fork (some c) s p ≡ done (returned r t)
      → Step env s t
  waiting :
      (p c options : ℕ)
      → s.pc p ≡ running
      → sys_waitpid env s p c options none ≡ done (waits t)
      → Step env s t
  reaps :
      (p c options : ℕ) (v : ℤ)
      → s.pc p ≡ running
      → sys_waitpid env s p c options none ≡ done (returned v t)
      → Step env s t
  waits_on : (p c : ℕ) → s.pc p ≡ woken c → wait_loop env s p c ≡ done (waits t) → Step env s t
  reaps_later :
      (p c : ℕ) (v : ℤ)
      → s.pc p ≡ woken c
      → wait_loop env s p c ≡ done (returned v t)
      → Step env s t
  exits : (p : ℕ) (v : ℤ) → s.pc p ≡ running → p ≢ 0 → sys__exit env s p v ≡ done t → Step env s t

-- The kernel with its own process alone, as proc_bootstrap makes it.
abbrev pub boot : Kernel
boot = record {
  pids = update (λ p. none) 0 (some (proc_create 0));
  pc = update (λ p. gone) 0 running;
}

pub data Reach (env : Services) : Kernel → Type 0 where
  start : Reach env boot
  later : {s t : Kernel} → Reach env s → Step env s t → Reach env t
