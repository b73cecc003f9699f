-- ===== src/Process/Orphans.antt =====
-- What the loop of proc_exit does to the directory.
use cse.Base.{
  ℕ, ◌≡◌, refl, true, Option, none, some, List, [], ◌∷◌, ◌==◌, if◌then◌else◌, arith, update, Ends,
  Ends-seq, Ends-weaken,
}
use cse.Sync.Wchan.{queued, queued-nil, queued-cons}
use cse.Process.Family.{pid_of}
use cse.Process.Family.{ideal}
use cse.Process.{Proc, Pids, proc_destroy, orphan_child, orphan_loop}

-- A child behind its parent's exit.
abbrev pub orphaned : Option Proc → Option Proc
orphaned none = none
orphaned (some x) = if x.exited then none else some (record x { parent = none })

orphaned-twice : (o : Option Proc) → orphaned (orphaned o) ≡ orphaned o
orphaned-twice none = refl
orphaned-twice (some x) = ground arith

-- The directory with the processes of a list orphaned.
abbrev pub without_parent : List ℕ → Pids → ℕ → Option Proc
without_parent cs pids x = if queued x cs then orphaned (pids x) else pids x

orphaned-pid : (p : ℕ) (o : Option Proc) → pid_of p o ≡ p → pid_of p (orphaned o) ≡ p
orphaned-pid p none h = h
orphaned-pid p (some x) h = ground arith

abbrev pub Own : Pids → Type 0
Own pids = (p : ℕ) → pid_of p (pids p) ≡ p

orphan_child_lem :
    (pids : Pids) (c : ℕ) (o : Option Proc)
    → Own pids
    → pids c ≡ o
    → Ends (λ after. (x : ℕ) → after x ≡ update pids c (orphaned o) x) (orphan_child ideal pids c o)
unfolding orphan_child proc_destroy
orphan_child_lem pids c none own here = (pids, refl, λ x. ground arith)
orphan_child_lem pids c (some child) own here =
    let mine : child.pid ≡ c = ground (arith, own c) in
    let named : (child.pid == c) ≡ true = ground arith in
    rw named (
      (if child.exited
          then update pids child.pid none
          else update pids c (some (record child { parent = none }))),
      refl,
      λ x. ground arith,
    )

-- Where every record is found under its own pid, the loop of proc_exit ends, and each listed child is
-- orphaned, or destroyed if it has exited.
pub orphan_loop_lem :
    (cs : List ℕ) (pids : Pids)
    → Own pids
    → Ends (λ after. (x : ℕ) → after x ≡ without_parent cs pids x) (orphan_loop ideal cs pids)
unfolding orphan_loop
orphan_loop_lem [] pids own = (pids, refl, λ x. ground (arith, queued-nil x))
orphan_loop_lem (c ∷ cs) pids own =
    Ends-seq _ _ _ _ (orphan_child_lem pids c (pids c) own refl) (λ after read.
      Ends-weaken _ _ _
        (orphan_loop_lem cs after (λ p. ground (arith, read p, own p, orphaned-pid p (pids p))))
        (λ last h x. ground (arith, h x, read x, queued-cons x c cs, orphaned-twice (pids x))))
