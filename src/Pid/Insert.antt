-- ===== src/Pid/Insert.antt =====
-- pid_allocate of kern/proc/pid.c.
use cse.Base.{
  ℕ, zero, suc, ◌+◌, ◌-◌, ◌*◌, ◌/◌, Bool, ◌&&◌, not, Option, none, some, update, ltb, leb,
  if◌then◌else◌, ℤ, pos, ltb_ℤ, suc_ℤ,
}
use cse.Pid.Tree.{Tree, null, node, pid_dir_size, pid_min, pid_max, is_null}

-- `pid_min + (i) * (pid_max - pid_min) / PID_DIR_SIZE`; int division drops the fraction of a
-- negative quotient too.
abbrev pub spread : ℕ → ℕ → ℕ → ℕ
spread i lo hi =
    if leb lo hi then lo + i * (hi - lo) / pid_dir_size else lo - i * (lo - hi) / pid_dir_size

-- A pid left in the slot is used again.
abbrev pub choose_pid : Option ℕ → ℕ → ℕ
choose_pid none fresh = fresh
choose_pid (some old) fresh = old

-- The loop that looks for the least full subtree, from `i` on, with the best so far.
unfoldable pub least_full : ℕ → ℕ → (ℕ → ℤ) → ℤ → ℕ → ℕ
least_full zero i sizes max idx = idx
least_full (suc n) i sizes max idx =
    least_full n (i + 1) sizes (if ltb_ℤ (sizes i) max then sizes i else max)
      (if ltb_ℤ (sizes i) max then i else idx)

-- The bounds for subtree `idx`. There every slot has a process, so its pid is set.
abbrev pub low_bound : Option ℕ → ℕ → ℕ
low_bound none lo = lo
low_bound (some p) lo = if ltb lo (p + 1) then p + 1 else lo

abbrev pub high_bound : ℕ → (ℕ → Option ℕ) → ℕ → ℕ
high_bound idx pids hi =
    if ltb idx (pid_dir_size - 1) then choose_pid (pids (idx + 1)) 0 - 1 else hi

module _ {P : Type 0} where
  -- The first loop of pid_allocate_helper: the first slot with no process, from `i` on.
  unfoldable pub find_free : ℕ → ℕ → (ℕ → Option P) → Option ℕ
  find_free zero i procs = none
  find_free (suc n) i procs =
      let rest = find_free n (i + 1) procs in elim (procs i) [ none ↦ some i | some x ↦ rest ]

  -- The slot `i` takes the process.
  unfoldable pub take_slot :
      ℕ → (ℕ → Option ℕ) → (ℕ → Option P) → (ℕ → ℤ) → (ℕ → Tree P) → P → ℕ → ℕ → Option ℕ × Tree P
  take_slot i pids procs sizes subs x lo hi =
      let pid = choose_pid (pids i) (spread i lo hi) in
      (some pid, node (update pids i (some pid)) (update procs i (some x)) sizes subs)

  -- The part behind the search for the subtree `idx`, which is created if it is NULL. `deeper` is
  -- the recursive call in it; `mem` answers the allocation.
  unfoldable pub descend :
      Bool
      → ℕ
      → (ℕ → Option ℕ)
      → (ℕ → Option P)
      → (ℕ → ℤ)
      → (ℕ → Tree P)
      → Option ℕ × Tree P
      → Option ℕ × Tree P
  descend mem idx pids procs sizes subs deeper =
      if is_null (subs idx) && not mem then (none, node pids procs sizes subs) else (
        deeper.0,
        node pids procs (update sizes idx (suc_ℤ (sizes idx))) (update subs idx deeper.1),
      )

  -- pid_allocate_helper on a node, with the recursive call at each subtree.
  unfoldable pub allocate_node :
      Bool
      → (ℕ → Option ℕ)
      → (ℕ → Option P)
      → (ℕ → ℤ)
      → (ℕ → Tree P)
      → P
      → ℕ
      → ℕ
      → (ℕ → ℕ → ℕ → Option ℕ × Tree P)
      → Option ℕ × Tree P
  unfolding take_slot descend find_free least_full
  allocate_node mem pids procs sizes subs x lo hi deeper =
      let idx = least_full (pid_dir_size - 1) 1 sizes (sizes 0) 0 in
      let full =
        descend mem idx pids procs sizes subs
          (deeper idx (low_bound (pids idx) lo) (high_bound idx pids hi)) in
      elim (find_free pid_dir_size 0 procs) [
        | some i ↦ take_slot i pids procs sizes subs x lo hi
        | none ↦ full
      ]

  -- At NULL the node has just been created: its slots are free.
  unfoldable pub pid_allocate_helper : Bool → Tree P → P → ℕ → ℕ → Option ℕ × Tree P
  unfolding allocate_node
  pid_allocate_helper mem null x lo hi =
      allocate_node mem (λ i. none) (λ i. none) (λ i. pos 0) (λ i. null) x lo hi
        (λ idx lo' hi'. (none, null))
  pid_allocate_helper mem (node pids procs sizes subs) x lo hi =
      allocate_node mem pids procs sizes subs x lo hi
        (λ idx lo' hi'. pid_allocate_helper mem (subs idx) x lo' hi')

  unfoldable pub pid_allocate : Bool → Tree P → P → Option ℕ × Tree P
  unfolding pid_allocate_helper
  pid_allocate mem null x = (none, null)
  pid_allocate mem (node pids procs sizes subs) x =
      pid_allocate_helper mem (node pids procs sizes subs) x pid_min pid_max
