-- ===== src/Pid/Create.antt =====
-- pid_create_tree, as kern/proc/proc.c calls it for the directory.
use cse.Base.{ℕ, ◌≡◌, ◌≢◌, refl, true, Option, none, some, inl, inr, arith, pos, update, ℕ_discrete}
use cse.Pid.Tree.{Tree, null, pid_create_tree, pid_get_proc}
use cse.Pid.Search.{get_here, get_nowhere}
use cse.Pid.Order.{IsNode, WellFormed, node-Sorted}
use cse.Pid.Room.{HasRoom}

module _ {P : Type 0} (kproc : P) where
  abbrev pids : ℕ → Option ℕ
  pids = update (λ i. none) 0 (some 0)

  abbrev procs : ℕ → Option P
  procs = update (λ i. none) 0 (some kproc)

  abbrev subs : ℕ → Tree P
  subs i = null

  root-IsNode : IsNode 0 2 32767 pids procs subs
  root-IsNode = record {
    wide = omega arith;
    based = omega arith;
    placed = λ i p h e. elim (ℕ_discrete i 0) [
      | yes z ↦ inr (z, ground arith)
      | no other ↦ absurd (ground arith)
    ];
    named = λ i h e. ground arith;
    hung = λ i h e. absurd (ground arith);
  }

  -- The directory that is created for the kernel's process is well-formed and has room, and
  -- pid_get_proc finds that process under the pid 0, and nothing under any other.
  pub pid_create_tree-WellFormed :
      WellFormed 3 0 2 32767 (pid_create_tree true (some kproc))
      × HasRoom 3 (pid_create_tree true (some kproc))
      × (pid_get_proc (pid_create_tree true (some kproc)) 0 ≡ some kproc)
      × ((r : ℕ) → r ≢ 0 → pid_get_proc (pid_create_tree true (some kproc)) r ≡ none)
  unfolding pid_create_tree
  pid_create_tree-WellFormed = (
    (root-IsNode, λ i h. tt),
    inr (λ i h. tt),
    get_here pids procs (λ i. pos 0) subs (node-Sorted root-IsNode) root-IsNode.hung 0 0
        (omega arith) refl,
    λ r ne.
        get_nowhere pids procs (λ i. pos 0) subs (node-Sorted root-IsNode) root-IsNode.hung r
          (λ i h e. ground arith)
          (λ i h (a, ea, la, top). elim top [
            | inl last ↦ ground arith
            | inr (b, eb, lb) ↦ ground arith
          ]),
  )
