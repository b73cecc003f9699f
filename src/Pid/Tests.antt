-- ===== src/Pid/Tests.antt =====
-- The directory of processes at concrete inputs; a process is a number.
use cse.Base.{
  ◌==◌, if◌then◌else◌, ℕ, ◌+◌, ◌<◌, ◌≡◌, refl, true, Option, none, some, inl, inr, arith, ℤ, pos,
  update, ℕ_discrete,
}
use cse.Pid.Tree.{Tree, null, node, pid_get_proc}
use cse.Pid.Insert.{pid_allocate}
use cse.Pid.Remove.{pid_remove_proc}
use cse.Pid.Exact.{pid_remove_proc-Exact}
use cse.Pid.Locate.{Sorted, Between}
use cse.Pid.Charge.{charged, remove_charges, remove_miscounts}
use cse.Pid.Order.{IsNode, place, node-Sorted}
use cse.Pid.Room.{Allocated}
use cse.Pid.Allocate.{pid_allocate-Allocated}
use cse.Pid.Destroy.{Destroyed, pid_destroy_tree, pid_destroy_tree-Destroyed}

-- A directory whose eight slots have the processes 10 to 17: the kernel's has the pid 0.
abbrev pids : ℕ → Option ℕ
pids = update (λ i. some (place 2 32767 i)) 0 (some 0)

abbrev procs : ℕ → Option ℕ
procs i = some (i + 10)

abbrev sizes : ℕ → ℤ
sizes i = pos 0

abbrev subs : ℕ → Tree ℕ
subs i = null

full-IsNode : IsNode 0 2 32767 pids procs subs
full-IsNode = record {
  wide = omega arith;
  based = omega arith;
  placed = λ i p h e. elim (ℕ_discrete i 0) [
    | yes z ↦ inr (z, ground arith)
    | no other ↦ inl (ground arith)
  ];
  named = λ i h e. absurd (ground arith);
  hung = λ i h e. absurd (ground arith);
}

-- The next process goes to a new node in front of the second slot.
pid_allocate-Allocated_example :
    Allocated 3 0 2 32767
      (node pids procs sizes subs)
      99
      (pid_allocate true (node pids procs sizes subs) 99)
pid_allocate-Allocated_example =
    pid_allocate-Allocated pids procs sizes subs 99 (full-IsNode, λ i h. tt) (inr (λ i h. tt))

-- The process of the fourth slot leaves a directory of eight.
pid_remove_proc-Exact_example :
    ((pid_remove_proc (node pids procs sizes subs) (place 2 32767 3)).found ≡ true)
    × ((pid_remove_proc (node pids procs sizes subs) (place 2 32767 3)).proc ≡ some 13)
    × ((q : ℕ)
        → pid_get_proc (pid_remove_proc (node pids procs sizes subs) (place 2 32767 3)).tree q
          ≡ (if q == place 2 32767 3 then none else pid_get_proc (node pids procs sizes subs) q))
pid_remove_proc-Exact_example =
    pid_remove_proc-Exact pids procs sizes subs (node-Sorted full-IsNode)
      (λ j h e. absurd (ground arith)) (λ j h e. refl) 3 (place 2 32767 3) (omega arith) refl

pid_destroy_tree-Destroyed_example :
    Destroyed (node pids procs sizes subs) (pid_destroy_tree (node pids procs sizes subs))
pid_destroy_tree-Destroyed_example = pid_destroy_tree-Destroyed (node pids procs sizes subs) refl

-- A process with the pid 2 below the first slot.
abbrev child : Tree ℕ
child = node (update (λ i. none) 0 (some 2)) (update (λ i. none) 0 (some 99)) sizes (λ i. null)

abbrev one_below : ℕ → Tree ℕ
one_below = update (λ i. null) 0 child

abbrev one_count : ℕ → ℤ
one_count = update (λ i. pos 0) 0 (pos 1)

child_found : (pid_remove_proc child 2).found ≡ true
unfolding pid_remove_proc
child_found = refl

pids-Sorted : Sorted pids
pids-Sorted = node-Sorted full-IsNode

pids-Between : Between pids 0 2
pids-Between = (0, refl, omega arith, inr (place 2 32767 1, refl, omega arith))

remove_charges_example :
    ((pid_remove_proc (node pids procs one_count one_below) 2).proc
      ≡ (pid_remove_proc child 2).proc)
    × ((pid_remove_proc (node pids procs one_count one_below) 2).tree
        ≡ charged pids procs one_count 0 (update one_below 0 ((pid_remove_proc child 2).tree)))
remove_charges_example =
    remove_charges pids procs one_count one_below pids-Sorted 2 0 (omega arith) pids-Between
      child_found (λ m p k e. ground arith)

-- The process of the last slot has gone, and its pid with it.
abbrev fewer : ℕ → Option ℕ
fewer = update pids 7 none

fewer-Sorted : Sorted fewer
fewer-Sorted i j a b p h ea eb = pids-Sorted i j a b p h (ground arith) (ground arith)

fewer-Between : Between fewer 0 2
fewer-Between = (0, refl, omega arith, inr (place 2 32767 1, refl, omega arith))

remove_miscounts_example :
    (0 < 7)
    × ((pid_remove_proc (node fewer procs one_count one_below) 2).proc
        ≡ (pid_remove_proc child 2).proc)
    × ((pid_remove_proc (node fewer procs one_count one_below) 2).tree
        ≡ charged fewer procs one_count 7 (update one_below 0 ((pid_remove_proc child 2).tree)))
remove_miscounts_example =
    remove_miscounts fewer procs one_count one_below fewer-Sorted 2 0 (omega arith) fewer-Between
      child_found refl

abbrev kernel : ℕ
kernel = 7
