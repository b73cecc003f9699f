-- ===== src/Pid/Remove.antt =====
-- pid_remove_proc of kern/proc/pid.c.
use cse.Base.{
  ℕ, zero, suc, ◌-◌, Bool, true, false, ◌&&◌, ◌||◌, Option, none, some, update, ltb, ◌==◌,
  if◌then◌else◌, ℤ, pred_ℤ, is_zero_ℤ,
}
use cse.Pid.Tree.{Tree, null, node, pid_dir_size, Spot, here, under, nowhere, locate}

-- Is the slot's pid below `pid`? -1 is.
abbrev pub below : Option ℕ → ℕ → Bool
below none pid = true
below (some p) pid = ltb p pid

-- A removal: whether the pid was found, its process, and the tree.
pub record Removed (P : Type 0) : Type 0 where
  pub found : Bool
  pub proc : Option P
  pub tree : Tree P

module _ {P : Type 0} where
  -- The body of the loop over the parents, with `n` slots left to look at: the last slot whose pid
  -- is below the removed one is charged, and its subtree dropped at a size of 0. (What
  -- pid_destroy_tree returns there is not read.)
  unfoldable pub charge : ℕ → Tree P → ℕ → Tree P
  charge n null pid = null
  charge zero (node pids procs sizes subs) pid = node pids procs sizes subs
  charge (suc j) (node pids procs sizes subs) pid =
      let rest = charge j (node pids procs sizes subs) pid in
      let size = pred_ℤ (sizes j) in
      if below (pids j) pid
      then node pids procs (update sizes j size)
          (if is_zero_ℤ size then update subs j null else subs)
      else rest

  -- The slot `i` gives its process up, and its pid if no subtree stands to either side.
  unfoldable pub clear_slot :
      ℕ → (ℕ → Option ℕ) → (ℕ → Option P) → (ℕ → ℤ) → (ℕ → Tree P) → Removed P
  clear_slot i pids procs sizes subs =
      let alone = is_zero_ℤ (sizes i) && (i == 0 || is_zero_ℤ (sizes (i - 1))) in
      record {
        found = true;
        proc = procs i;
        tree = node (if alone then update pids i none else pids) (update procs i none) sizes subs;
      }

  unfoldable pub remove_at :
      Spot
      → (ℕ → Option ℕ)
      → (ℕ → Option P)
      → (ℕ → ℤ)
      → (ℕ → Tree P)
      → ℕ
      → (ℕ → Removed P)
      → Removed P
  unfolding clear_slot charge
  remove_at (here i) pids procs sizes subs pid deeper = clear_slot i pids procs sizes subs
  remove_at (under i) pids procs sizes subs pid deeper =
      let r = deeper i in
      let t = node pids procs sizes (update subs i r.tree) in
      record r { tree = if r.found then charge pid_dir_size t pid else t }
  remove_at nowhere pids procs sizes subs pid deeper = record {
    found = false;
    proc = none;
    tree = node pids procs sizes subs;
  }

  unfoldable pub pid_remove_proc : Tree P → ℕ → Removed P
  unfolding remove_at locate
  pid_remove_proc null pid = record { found = false; proc = none; tree = null }
  pid_remove_proc (node pids procs sizes subs) pid =
      remove_at (locate pid_dir_size 0 pids pid) pids procs sizes subs pid
        (λ i. pid_remove_proc (subs i) pid)
