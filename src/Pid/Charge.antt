-- ===== src/Pid/Charge.antt =====
-- Which subtree pid_remove_proc charges for a process that it removed below a node.
use cse.Base.{
  ℕ, zero, suc, ◌+◌, ◌<◌, ◌≡◌, ◌≢◌, refl, sym, true, false, Option, none, some, inl, inr, arith, ℤ,
  pred_ℤ, is_zero_ℤ, update, if◌then◌else◌, Option-cases, ℕ_discrete,
}
use cse.Pid.Tree.{Tree, null, node}
use cse.Pid.Remove.{below, Removed, charge, remove_at, pid_remove_proc}
use cse.Pid.Locate.{Sorted, Between, locate-Between}

module _ {P : Type 0} (pids : ℕ → Option ℕ) (procs : ℕ → Option P) (sizes : ℕ → ℤ) where
  -- The node with one process less in its subtree `j`, which is dropped at a size of 0.
  abbrev pub charged : ℕ → (ℕ → Tree P) → Tree P
  charged j subs =
      node pids procs (update sizes j (pred_ℤ (sizes j)))
        (if is_zero_ℤ (pred_ℤ (sizes j)) then update subs j null else subs)

  -- The last slot below the pid is charged.
  charge_last :
      (subs : ℕ → Tree P) (q n j : ℕ)
      → j < n
      → below (pids j) q ≡ true
      → ((m : ℕ) → j < m → m < n → below (pids m) q ≡ false)
      → charge n (node pids procs sizes subs) q ≡ charged j subs
  unfolding charge
  charge_last subs q zero j h low high = absurd (omega arith)
  charge_last subs q (suc n) j h low high = elim (ℕ_discrete j n) [
    | yes same ↦ rw (sym same, low) refl
    | no other ↦
        rw (high n (omega arith) (omega arith))
          (charge_last subs q n j (omega arith) low (λ m p k. high m p (omega arith)))
  ]

  module _ (subs : ℕ → Tree P) (sorted : Sorted pids) (q i : ℕ) (h : i < 8) (gap : Between pids i q)
      (found : (pid_remove_proc (subs i) q).found ≡ true) where
    abbrev r : Removed P
    r = pid_remove_proc (subs i) q

    abbrev after : Removed P
    after = pid_remove_proc (node pids procs sizes subs) q

    -- The node around the subtree, whichever slot `j` is charged.
    remove_below :
        (j : ℕ)
        → j < 8
        → below (pids j) q ≡ true
        → ((m : ℕ) → j < m → m < 8 → below (pids m) q ≡ false)
        → (after.proc ≡ r.proc) × (after.tree ≡ charged j (update subs i r.tree))
    unfolding pid_remove_proc remove_at
    remove_below j k low high =
        rw (locate-Between pids sorted q i h gap, found)
          (refl, charge_last (update subs i r.tree) q 8 j k low high)

    low_below : below (pids i) q ≡ true
    low_below = let (a, ea, la, top) = gap in ground arith

    -- A later slot with a pid is above the removed one.
    later_above : (m a : ℕ) → i < m → m < 8 → pids m ≡ some a → q < a
    later_above m a p k em =
        let (c, ec, lc, top) = gap in
        elim top [
          | inl last ↦ absurd (omega arith)
          | inr (b, eb, lb) ↦ elim (ℕ_discrete m (i + 1)) [
            | yes same ↦ ground (arith, same)
            | no other ↦ ground (arith, sorted (i + 1) m b a (omega arith) k eb em)
          ]
        ]

    -- Where a pid lies between those of slot i and of the next one, the pids of the slots are in
    -- order and those behind slot i are all set, and pid_remove_proc finds the pid in subtree i: the
    -- node gives the subtree's answer, and counts one process less in subtree i, which it drops at
    -- a size of 0. No other slot changes.
    pub remove_charges :
        ((m : ℕ) → i < m → m < 8 → pids m ≢ none)
        → (after.proc ≡ r.proc) × (after.tree ≡ charged i (update subs i r.tree))
    remove_charges set = remove_below i h low_below (λ m p k. elim (Option-cases (pids m)) [
      | inl unset ↦ absurd (set m p k unset)
      | inr (a, em) ↦ ground (arith, later_above m a p k em)
    ])

    -- Where a pid lies between those of slot i and of the next one, the pids of the slots are in
    -- order, the last slot has none, and pid_remove_proc finds the pid in subtree i: the node gives
    -- the subtree's answer, but counts the process off the last subtree, which is not subtree i, and
    -- drops that one at a size of 0. The size of subtree i stays as it is.
    pub remove_miscounts :
        pids 7 ≡ none
        → (i < 7) × (after.proc ≡ r.proc) × (after.tree ≡ charged 7 (update subs i r.tree))
    remove_miscounts unset =
        let inner : i < 7 =
          let (a, ea, la, top) = gap in
          elim (ℕ_discrete i 7) [
            | yes last ↦ absurd (ground (arith, last))
            | no other ↦ omega arith
          ] in
        let (same, tree) =
          remove_below 7 (omega arith) (ground arith) (λ m p k. absurd (omega arith)) in
        (inner, same, tree)
