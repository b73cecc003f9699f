-- ===== src/Process/Leaving.antt =====
-- What the exit of a process keeps.
use cse.Base.{
  [], ℕ, ◌≢◌, ◌≡◌, refl, true, false, not, ◌&&◌, Bool, Option, none, some, List, if◌then◌else◌,
  arith, update, Bool-cases, inl, inr, ℤ,
}
use cse.Sync.Wchan.{queued, queued-nil, Distinct}
use cse.Process.{sleeping, woken, Pc, wake, is_pid, Proc, Pids, running, gone, Kernel}
use cse.Process.Orphans.{orphaned, without_parent}
use cse.Process.Invariant.{update-holds}
use cse.Process.Family.{
  parent_of, children_of, waitpid_of, lives, zombie, pid_of, active, awaited, Inv,
}

-- An entry before and behind the loop of proc_exit; `child` tells whether the loop visits it.
record Pruned (x : ℕ) (child : Bool) (old new : Option Proc) : Type 0 where
  own : pid_of x old ≡ x → pid_of x new ≡ x
  parent : parent_of new ≡ (if child then none else parent_of old)
  alive : lives new ≡ lives old
  dead : zombie new ≡ (zombie old && not child)
  waits : lives old ≡ true → waitpid_of new ≡ waitpid_of old
  kids : lives old ≡ true → children_of new ≡ children_of old
  fewer : (d : ℕ) → queued d (children_of new) ≡ true → queued d (children_of old) ≡ true
  distinct : Distinct (children_of old) → Distinct (children_of new)

same-Pruned : (x : ℕ) (o : Option Proc) → Pruned x false o o
same-Pruned x o = record {
  own = λ h. h;
  parent = refl;
  alive = refl;
  dead = ground arith;
  waits = λ h. refl;
  kids = λ h. refl;
  fewer = λ d h. h;
  distinct = λ d. d;
}

orphaned-Pruned : (x : ℕ) (o : Option Proc) → Pruned x true o (orphaned o)
orphaned-Pruned x none = record {
  own = λ h. h;
  parent = refl;
  alive = refl;
  dead = refl;
  waits = λ h. refl;
  kids = λ h. refl;
  fewer = λ d h. h;
  distinct = λ d. d;
}
orphaned-Pruned x (some p) = elim (Bool-cases p.exited) [
  | inl e ↦ rw e record {
    own = λ h. refl;
    parent = refl;
    alive = refl;
    dead = refl;
    waits = λ h. ground arith;
    kids = λ h. ground arith;
    fewer = λ d h. ground (arith, queued-nil d);
    distinct = λ d. tt;
  }
  | inr e ↦ rw e record {
    own = λ h. h;
    parent = refl;
    alive = refl;
    dead = refl;
    waits = λ h. refl;
    kids = λ h. refl;
    fewer = λ d h. h;
    distinct = λ d. d;
  }
]

without_parent-Pruned :
    (cs : List ℕ) (pids : Pids) (x : ℕ) → Pruned x (queued x cs) (pids x) (without_parent cs pids x)
without_parent-Pruned cs pids x = elim (Bool-cases (queued x cs)) [
  | inl e ↦ rw e (orphaned-Pruned x (pids x))
  | inr e ↦ rw e (same-Pruned x (pids x))
]

wake-active : (c : Pc) → active (wake c) ≡ active c
unfolding wake
wake-active running = refl
wake-active gone = refl
wake-active (sleeping d) = refl
wake-active (woken d) = refl

wake-awaited : (c : Pc) → awaited (wake c) ≡ awaited c
unfolding wake
wake-awaited running = refl
wake-awaited gone = refl
wake-awaited (sleeping d) = refl
wake-awaited (woken d) = refl

wake-sleeping : (c : Pc) (d : ℕ) → wake c ≢ sleeping d
unfolding wake
wake-sleeping running d h = cc
wake-sleeping gone d h = cc
wake-sleeping (sleeping c) d h = cc
wake-sleeping (woken c) d h = cc

module _ {k : Kernel} (inv : Inv k) (p : ℕ) (proc : Proc) (after : Pids)
    (here : k.pids p ≡ some proc) (run : k.pc p ≡ running)
    (read : (x : ℕ) → after x ≡ without_parent proc.children k.pids x) where
  entry : (x : ℕ) → Pruned x (queued x proc.children) (k.pids x) (after x)
  entry x = rw (read x) (without_parent-Pruned proc.children k.pids x)

  -- The children in the loop are those whose parent is the process.
  mine : (x : ℕ) → queued x proc.children ≡ true → parent_of (k.pids x) ≡ some p
  mine x h = ground (arith, inv.listed p x)

  theirs : (x : ℕ) → parent_of (k.pids x) ≡ some p → queued x proc.children ≡ true
  theirs x h = ground (arith, inv.linked x p h)

  pub destroyed-Inv :
      proc.parent ≡ none → Inv (record { pids = update after p none; pc = update k.pc p gone })
  destroyed-Inv up = record {
    own = λ x. ground (arith, (entry x).own (inv.own x));
    linked = λ x q h.
        ground (arith, inv.linked x q, (entry x).parent, (entry q).alive, (entry q).kids, theirs x);
    listed = λ q x h.
        ground (arith, inv.listed q x, (entry q).fewer x, (entry x).parent, mine x, queued-nil x);
    distinct = λ q.
        update-holds (λ o. Distinct (children_of o)) after p none q (tt {0})
          ((entry q).distinct (inv.distinct q));
    apart = λ x h. ground (arith, inv.apart x, (entry x).parent);
    undead = λ x h. ground (arith, inv.undead x, (entry x).parent, (entry x).dead);
    threads = λ x. ground (arith, inv.threads x, (entry x).alive);
    waited = λ x y h.
        ground (arith, inv.waited x y, inv.threads x, (entry y).parent, (entry x).waits, mine y);
    unslept = λ x y h. ground (arith, inv.unslept x y, inv.waited x y, (entry y).alive);
  }

  pub zombie-Inv :
      (q : ℕ) (parent : Proc) (v : ℤ)
      → proc.parent ≡ some q
      → after q ≡ some parent
      → Inv (record {
        pids =
            update after proc.pid
              (some (record proc { children = []; exited = true; exit_val = v }));
        pc =
            update
              (if is_pid parent.waitpid proc.pid
                then update k.pc parent.pid (wake (k.pc parent.pid))
                else k.pc)
              p
              gone;
      })
  zombie-Inv q parent v up there =
      let live = inv.linked p q (ground arith) in
      let named : proc.pid ≡ p = ground (arith, inv.own p) in
      let above : parent.pid ≡ q = ground (arith, (entry q).own (inv.own q)) in
      let other : q ≢ p = ground (arith, inv.apart p) in
      let for : waitpid_of (k.pids q) ≡ parent.waitpid = ground (arith, (entry q).waits live.0) in
      record {
        own = λ x. ground (arith, inv.own p, (entry x).own (inv.own x));
        linked = λ x r h.
            ground
              (arith, inv.linked x r, (entry x).parent, (entry r).alive, (entry r).kids, theirs x);
        listed = λ r x h.
            ground
              (arith, inv.listed r x, (entry r).fewer x, (entry x).parent, mine x, queued-nil x);
        distinct = λ r.
            update-holds (λ o. Distinct (children_of o)) after proc.pid
              (some (record proc { children = []; exited = true; exit_val = v })) r (tt {0})
              ((entry r).distinct (inv.distinct r));
        apart = λ x h. ground (arith, inv.apart x, (entry x).parent);
        undead = λ x h. ground (arith, inv.undead x, (entry x).parent, (entry x).dead);
        threads =
            λ x. ground (arith, inv.threads x, (entry x).alive, wake-active (k.pc parent.pid));
        waited = λ x y h. ground (
          arith,
          wake-awaited (k.pc parent.pid),
          inv.waited x y,
          inv.threads x,
          (entry y).parent,
          (entry x).waits,
          mine y,
        );
        unslept = λ x y h. ground (
          arith,
          inv.unslept x y,
          wake-sleeping (k.pc parent.pid) y,
          inv.waited x y,
          inv.threads x,
          (entry y).alive,
        );
      }
