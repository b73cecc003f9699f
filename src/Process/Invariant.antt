-- ===== src/Process/Invariant.antt =====
-- What fork and waitpid keep.
use cse.Base.{
  ℕ, Option, ◌≡◌, ◌≢◌, true, false, none, some, ◌==◌, arith, update, Bool-cases, inl, inr,
}
use cse.Sync.Wchan.{queued, queued-nil, queued-append, append-Distinct, Distinct}
use cse.Process.Family.{ideal}
use cse.Process.{Proc, running, sleeping, Kernel, proc_remlist, proc_destroy}
use cse.Process.Calls.{proc_create, proc_create_fork}
use cse.Process.Children.{proc_remlist-Taken}
use cse.Process.Family.{parent_of, children_of, waitpid_of, lives, Inv}

-- A property of the old entry and of the new one holds of the entry that is read.
pub update-holds :
    {A : Type 0} (P : A → Type 0) (f : ℕ → A) (i : ℕ) (a : A) (j : ℕ)
    → P a
    → P (f j)
    → P (update f i a j)
update-holds P f i a j new old = elim (Bool-cases (i == j)) [ inl e ↦ rw e new | inr e ↦ rw e old ]

module _ {k : Kernel} (inv : Inv k) where
  -- A process without a record is no parent and no child.
  absent_child : (c q : ℕ) → k.pids c ≡ none → queued c (children_of (k.pids q)) ≡ false
  absent_child c q h = ground (arith, inv.listed q c)

  absent_parent : (c d : ℕ) → k.pids c ≡ none → parent_of (k.pids d) ≢ some c
  absent_parent c d h e = ground (arith, inv.linked d c e)

  pub fork-Inv :
      (p c : ℕ) (parent : Proc)
      → k.pids p ≡ some parent
      → parent.exited ≡ false
      → k.pids c ≡ none
      → Inv (record { pids = proc_create_fork k.pids parent c; pc = update k.pc c running })
  unfolding proc_create_fork
  fork-Inv p c parent here live free =
      let named : parent.pid ≡ p = ground (arith, inv.own p) in
      let new : Option Proc = some (record (proc_create c) { parent = some p }) in
      rw named record {
        own = λ x. ground (arith, inv.own x);
        linked = λ d q h.
            ground
              (arith, inv.linked d q, queued-append d c parent.children, absent_parent c d free);
        listed = λ q d h.
            ground (arith, inv.listed q d, queued-append d c parent.children, queued-nil d);
        distinct = λ q.
            update-holds (λ o. Distinct (children_of o)) (update k.pids c new) p _ q
              (append-Distinct c parent.children (ground (arith, absent_child c p free))
                (rw here at (inv.distinct p)))
              (update-holds (λ o. Distinct (children_of o)) k.pids c new q (tt {0})
                (inv.distinct q));
        apart = λ x h. ground (arith, inv.apart x);
        undead = λ x h. ground (arith, inv.undead x);
        threads = λ x. ground (arith, inv.threads x);
        waited = λ x d h. ground (arith, inv.waited x d, inv.threads c);
        unslept = λ x d h. ground (arith, inv.unslept x d, inv.threads c);
      }

  pub reap-Inv :
      (p c : ℕ) (cur child : Proc)
      → k.pids p ≡ some cur
      → k.pids c ≡ some child
      → child.parent ≡ some p
      → cur.exited ≡ false
      → child.exited ≡ true
      → Inv (record {
        pids =
            update
              (proc_destroy ideal k.pids child)
              p
              (some (record cur { waitpid = none; children = proc_remlist cur.children c }));
        pc = update k.pc p running;
      })
  unfolding proc_destroy
  reap-Inv p c cur child here there up live over =
      let named : child.pid ≡ c = ground (arith, inv.own c) in
      let d : Distinct cur.children = rw here at (inv.distinct p) in
      let t = proc_remlist-Taken cur.children c d (ground (arith, inv.linked c p)) in
      rw named record {
        own = λ x. ground (arith, inv.own x);
        linked = λ x q h. ground (arith, inv.linked x q, t.reads x);
        listed = λ q x h. ground (arith, inv.listed q x, t.reads x, queued-nil x);
        distinct = λ q.
            update-holds (λ o. Distinct (children_of o)) (update k.pids c none) p _ q t.distinct
              (update-holds (λ o. Distinct (children_of o)) k.pids c none q (tt {0})
                (inv.distinct q));
        apart = λ x h. ground (arith, inv.apart x);
        undead = λ x h. ground (arith, inv.undead x);
        threads = λ x. ground (arith, inv.threads x);
        waited = λ x y h. ground (arith, inv.waited x y, inv.threads x);
        unslept = λ x y h. ground (arith, inv.unslept x y);
      }

  -- The process takes a child of its own as the one to wait for.
  pub wait-Inv :
      (p c : ℕ) (cur : Proc)
      → k.pids p ≡ some cur
      → k.pc p ≡ running
      → parent_of (k.pids c) ≡ some p
      → Inv (record k { pids = update k.pids p (some (record cur { waitpid = some c })) })
  wait-Inv p c cur here run up = record {
    own = λ x. ground (arith, inv.own x);
    linked = λ x q h. ground (arith, inv.linked x q);
    listed = λ q x h. ground (arith, inv.listed q x);
    distinct = λ q.
        update-holds (λ o. Distinct (children_of o)) k.pids p _ q (rw here at (inv.distinct p))
          (inv.distinct q);
    apart = λ x h. ground (arith, inv.apart x);
    undead = λ x h. ground (arith, inv.undead x);
    threads = λ x. ground (arith, inv.threads x);
    waited = λ x y h. ground (arith, inv.waited x y);
    unslept = λ x y h. ground (arith, inv.unslept x y);
  }

  -- The process goes to sleep for a child that has not exited.
  pub sleep-Inv :
      (p c : ℕ)
      → lives (k.pids p) ≡ true
      → lives (k.pids c) ≡ true
      → parent_of (k.pids c) ≡ some p
      → waitpid_of (k.pids p) ≡ some c
      → Inv (record k { pc = update k.pc p (sleeping c) })
  sleep-Inv p c live alive up for = record {
    own = inv.own;
    linked = inv.linked;
    listed = inv.listed;
    distinct = inv.distinct;
    apart = inv.apart;
    undead = inv.undead;
    threads = λ x. ground (arith, inv.threads x);
    waited = λ x y h. ground (arith, inv.waited x y);
    unslept = λ x y h. ground (arith, inv.unslept x y);
  }
