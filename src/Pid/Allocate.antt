-- ===== src/Pid/Allocate.antt =====
-- pid_allocate on a well-formed tree with room.
use cse.Base.{ℕ, zero, suc, ◌+◌, ◌≤◌, ◌≡◌, refl, ◌∙◌, true, Option, none, inl, inr, arith, ℤ, pos}
use cse.Pid.Tree.{Tree, null, node, pid_get_proc}
use cse.Pid.Insert.{pid_allocate_helper, pid_allocate}
use cse.Pid.Search.{get_nowhere}
use cse.Pid.Order.{IsNode, width, WellFormed, null-WellFormed, node-Sorted}
use cse.Pid.Room.{HasRoom, Allocated, width_wide}
use cse.Pid.Full.{free-Allocated, node-Allocated}

-- A node that has just been created.
module _ {P : Type 0} (base lo hi : ℕ) (x : P) (b : base ≤ lo) where
  abbrev unset : ℕ → Option ℕ
  unset i = none

  abbrev empty : ℕ → Option P
  empty i = none

  fresh-IsNode : lo + 8 ≤ hi → IsNode base lo hi unset empty (λ i. null)
  fresh-IsNode w = record {
    wide = w;
    based = b;
    placed = λ i p h e. absurd (ground arith);
    named = λ i h e. refl;
    hung = λ i h e. absurd (ground arith);
  }

  fresh-WellFormed :
      (k : ℕ)
      → lo + width k ≤ hi
      → WellFormed k base lo hi (node unset empty (λ i. pos 0) (λ i. null))
  fresh-WellFormed zero w = (fresh-IsNode w, λ i h. refl)
  fresh-WellFormed (suc k) w =
      (fresh-IsNode (width_wide (suc k) lo hi w), λ i h. null-WellFormed k _ _ _ null refl)

  fresh_get :
      (w : lo + 8 ≤ hi) (r : ℕ) → pid_get_proc (node unset empty (λ i. pos 0) (λ i. null)) r ≡ none
  fresh_get w r =
      get_nowhere unset empty (λ i. pos 0) (λ i. null) (node-Sorted (fresh-IsNode w))
        ((fresh-IsNode w).hung) r (λ i h e. ground arith) (λ i h (a, ea, la, top). ground arith)

  null-Allocated :
      (k : ℕ)
      → lo + width k ≤ hi
      → Allocated k base lo hi null x (pid_allocate_helper true null x lo hi)
  unfolding pid_allocate_helper pid_get_proc
  null-Allocated k w =
      let wide = width_wide k lo hi w in
      let (q, e, d, wf) =
        free-Allocated base lo hi unset empty (λ i. pos 0) (λ i. null) x k
          (λ idx lo' hi'. (none, null)) (fresh-WellFormed k w) (0, omega arith, refl) in
      (
        q,
        e,
        record {
          low = d.low;
          high = d.high;
          fresh = refl;
          found = d.found;
          others = λ r ne. d.others r ne ∙ fresh_get wide r;
        },
        wf,
      )

allocate_helper-Allocated :
    {P : Type 0} (k base lo hi : ℕ) (t : Tree P) (x : P)
    → base ≤ lo
    → lo + width k ≤ hi
    → WellFormed k base lo hi t
    → HasRoom k t
    → Allocated k base lo hi t x (pid_allocate_helper true t x lo hi)
unfolding pid_allocate_helper
allocate_helper-Allocated zero base lo hi null x b w wf room = null-Allocated base lo hi x b zero w
allocate_helper-Allocated (suc k) base lo hi null x b w wf room =
    null-Allocated base lo hi x b (suc k) w
allocate_helper-Allocated zero base lo hi (node pids procs sizes subs) x b w wf room =
    free-Allocated base lo hi pids procs sizes subs x zero
      (λ idx low high. pid_allocate_helper true (subs idx) x low high) wf room
allocate_helper-Allocated (suc k) base lo hi (node pids procs sizes subs) x b w wf (inl free) =
    free-Allocated base lo hi pids procs sizes subs x (suc k)
      (λ idx low high. pid_allocate_helper true (subs idx) x low high) wf free
allocate_helper-Allocated (suc k) base lo hi (node pids procs sizes subs) x b w wf (inr room) =
    node-Allocated base lo hi pids procs sizes subs x k
      (λ idx low high. pid_allocate_helper true (subs idx) x low high) w wf
      (λ j low high h w' wf'.
        allocate_helper-Allocated k low low high (subs j) x (omega arith) w' wf' (room j h))

-- With memory at hand, pid_allocate on a well-formed directory of at most four levels that has room
-- returns a pid that had no process, from 0 to 32767: pid_get_proc finds the new process under it
-- and the same processes as before under all others, and the directory is well-formed again.
pub pid_allocate-Allocated :
    {P : Type 0} (pids : ℕ → Option ℕ) (procs : ℕ → Option P) (sizes : ℕ → ℤ) (subs : ℕ → Tree P)
    (x : P)
    → WellFormed 3 0 2 32767 (node pids procs sizes subs)
    → HasRoom 3 (node pids procs sizes subs)
    → Allocated 3 0 2 32767
        (node pids procs sizes subs)
        x
        (pid_allocate true (node pids procs sizes subs) x)
unfolding pid_allocate
pid_allocate-Allocated pids procs sizes subs x wf room =
    allocate_helper-Allocated 3 0 2 32767 _ x (omega arith) (omega arith) wf room
