-- ===== src/Process.antt =====
-- The life of a process: the records of kern/proc/proc.c with proc_remlist, proc_destroy and
-- proc_exit, in this file; fork, waitpid and _exit of kern/syscall/process_syscalls.c in Process/Calls.
-- Each runs under the lock of the pid directory, so a section between two waits is one step. A process
-- has one thread. Its name, address space and current directory are not modelled, and kmalloc
-- finds memory. The services that the end of a process calls are a parameter.
pub mod Calls
pub mod Children
pub mod Family
pub mod Orphans
pub mod Invariant
pub mod Leaving
pub mod Safety
pub mod Delivery
mod Tests
use cse.Base.{
  ℕ, Bool, true, false, not, Option, none, some, List, [], ◌∷◌, ◌++◌, ◌==◌, if◌then◌else◌, update,
  Run, done, panic, fault, kassert, ◌>>=◌, ◌>>◌, ℤ,
}

-- `struct proc`; a pid of -1 is `none`.
pub record Proc : Type 0 where
  pub pid : ℕ
  pub parent : Option ℕ
  pub waitpid : Option ℕ
  pub children : List ℕ
  pub exit_val : ℤ
  pub exited : Bool

-- The directory as the map that pid_get_proc reads.
abbrev pub Pids : Type 0
Pids = ℕ → Option Proc

-- Where a process's thread stands: in user code, asleep in the cv_wait of waitpid for a child, woken
-- there and about to test the child again, or nowhere.
pub data Pc : Type 0 where
  running gone : Pc
  sleeping woken : ℕ → Pc

pub record Kernel : Type 0 where
  pub pids : Pids
  pub pc : ℕ → Pc

-- The loop of proc_remlist. The elements seen are at the back of the list, behind `first`; the loop
-- ends in front of a value equal to it.
unfoldable pub rotate : ℕ → ℕ → List ℕ → List ℕ → List ℕ
rotate first val seen [] = seen
rotate first val seen (cur ∷ rest) =
    if cur == first
    then cur ∷ rest ++ seen
    else if cur == val
    then rest ++ seen
    else rotate first val (seen ++ cur ∷ []) rest

unfoldable pub proc_remlist : List ℕ → ℕ → List ℕ
unfolding rotate
proc_remlist [] val = []
proc_remlist (first ∷ []) val = []
proc_remlist (first ∷ second ∷ rest) val =
    if first == val then second ∷ rest else rotate first val (first ∷ []) (second ∷ rest)

-- What the end of a process calls: pid_remove_proc of kern/proc/pid.c, as the map that pid_get_proc
-- reads behind it, and the part of proc_exit on what a process owns: it closes the files, and destroys
-- their table and the condition variable.
pub record Services : Type 0 where
  pub remove_proc : Pids → ℕ → Pids
  pub close : ℕ → Run (Unit {0})

-- The process leaves the directory.
unfoldable pub proc_destroy : Services → Pids → Proc → Pids
proc_destroy env pids proc = env.remove_proc pids proc.pid

-- What the loop of proc_exit does with one of the children: if it has exited it is destroyed, and if
-- not it is orphaned.
unfoldable pub orphan_child : Services → Pids → ℕ → Option Proc → Run Pids
unfolding proc_destroy
orphan_child env pids childpid none = done pids
orphan_child env pids childpid (some child) =
    kassert (child.pid == childpid)
    >> done (
        if child.exited
        then proc_destroy env pids child
        else update pids childpid (some (record child { parent = none })))

unfoldable pub orphan_loop : Services → List ℕ → Pids → Run Pids
unfolding orphan_child
orphan_loop env [] pids = done pids
orphan_loop env (childpid ∷ rest) pids =
    orphan_child env pids childpid (pids childpid) >>= λ after. orphan_loop env rest after

-- cv_broadcast on the condition variable of a process; nobody else waits there.
unfoldable pub wake : Pc → Pc
wake (sleeping c) = woken c
wake running = running
wake gone = gone
wake (woken c) = woken c

-- `p == pid`, where `p` may be -1
abbrev pub is_pid : Option ℕ → ℕ → Bool
is_pid none pid = false
is_pid (some p) pid = p == pid

-- The end of proc_exit, where `found` is the record of the parent, if the process has one: without it
-- the process is destroyed, and else it stays behind with its exit value.
unfoldable pub retire : Services → Pids → (ℕ → Pc) → Proc → ℤ → Option Proc → Pids × (ℕ → Pc)
unfolding wake proc_destroy
retire env pids pc proc exitcode none = (proc_destroy env pids proc, pc)
retire env pids pc proc exitcode (some parent) = (
  update pids proc.pid (some (record proc { children = []; exited = true; exit_val = exitcode })),
  if is_pid parent.waitpid proc.pid then update pc parent.pid (wake (pc parent.pid)) else pc,
)

-- pid_get_proc on the field of a parent
abbrev pub parent_proc : Pids → Option ℕ → Option Proc
parent_proc pids none = none
parent_proc pids (some q) = pids q

unfoldable pub leave : Services → Pids → (ℕ → Pc) → Proc → ℤ → Pids × (ℕ → Pc)
unfolding retire
leave env pids pc proc exitcode = retire env pids pc proc exitcode (parent_proc pids proc.parent)

-- proc_exit on the process `p`; 0 is the kernel's.
unfoldable pub proc_exit : Services → Pids → (ℕ → Pc) → ℕ → ℤ → Run (Pids × (ℕ → Pc))
unfolding leave orphan_loop
proc_exit env pids pc p exitcode = elim (pids p) [
  | none ↦ fault
  | some proc ↦
      (kassert (not (p == 0))
        >> (orphan_loop env proc.children pids >>= λ after.
            env.close p >> elim (after p) as (λ _. Run (Pids × (ℕ → Pc))) [
              | none ↦ fault
              | some proc' ↦ done (leave env after pc proc' exitcode)
            ]))
]
