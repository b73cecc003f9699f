-- ===== src/Pid/Tree.antt =====
-- The nodes of kern/proc/pid.c and the search in them: pid_create_tree and pid_get_proc.
-- Pids are not negative; the int -1 of an unassigned slot, and of a failed call, is `none`.
use cse.Base.{
  ℕ, zero, suc, ◌+◌, ◌-◌, Bool, true, false, Option, none, some, update, ltb, ◌==◌, if◌then◌else◌,
  ℤ, pos,
}

abbrev pub pid_dir_size : ℕ
pid_dir_size = 8

abbrev pub pid_min : ℕ
pid_min = 2

abbrev pub pid_max : ℕ
pid_max = 32767

-- A pointer to `struct pid_tree`: NULL, or the arrays local_pids, local_procs, subtree_sizes and
-- subtrees of a node. The parent's pointer is the path by which a call came down; the lock is the
-- caller's.
pub data Tree (P : Type 0) : Type 0 where
  null : Tree P
  node : (ℕ → Option ℕ) → (ℕ → Option P) → (ℕ → ℤ) → (ℕ → Tree P) → Tree P

-- What the scan of a node finds: the slot of the pid, the subtree to search, or nothing.
pub data Spot : Type 0 where
  here : ℕ → Spot
  under : ℕ → Spot
  nowhere : Spot

-- The slot `i` whose pid is larger than the one sought: the subtree before it is searched.
abbrev pub before : ℕ → Spot
before zero = nowhere
before (suc i) = under i

-- The loop over the slots from `i`, with `n` of them left. -1 is below every pid.
unfoldable pub locate : ℕ → ℕ → (ℕ → Option ℕ) → ℕ → Spot
locate zero i pids pid = under (pid_dir_size - 1)
locate (suc n) i pids pid =
    let rest = locate n (i + 1) pids pid in
    elim (pids i) [
      | none ↦ rest
      | some p ↦ (if pid == p then here i else if ltb pid p then before i else rest)
    ]

module _ {P : Type 0} where
  abbrev pub is_null : Tree P → Bool
  is_null null = true
  is_null (node pids procs sizes subs) = false

  -- pid_create_tree: NULL if an allocation fails.
  unfoldable pub pid_create_tree : Bool → Option P → Tree P
  pid_create_tree mem none =
      if mem then node (λ i. none) (λ i. none) (λ i. pos 0) (λ i. null) else null
  pid_create_tree mem (some kproc) =
      if mem
      then node (update (λ i. none) 0 (some 0)) (update (λ i. none) 0 (some kproc)) (λ i. pos 0)
          (λ i. null)
      else null

  unfoldable pub get_at : Spot → (ℕ → Option P) → (ℕ → Option P) → Option P
  get_at (here i) procs deeper = procs i
  get_at (under i) procs deeper = deeper i
  get_at nowhere procs deeper = none

  unfoldable pub pid_get_proc : Tree P → ℕ → Option P
  unfolding get_at locate
  pid_get_proc null pid = none
  pid_get_proc (node pids procs sizes subs) pid =
      get_at (locate pid_dir_size 0 pids pid) procs (λ i. pid_get_proc (subs i) pid)
