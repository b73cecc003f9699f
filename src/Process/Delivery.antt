-- ===== src/Process/Delivery.antt =====
-- What parents and children can rely on: the exit value reaches the parent, in both orders of exit and
-- waitpid.
use cse.Base.{update, [], ℤ, ℕ, ◌≡◌, true, false, none, some, ℤ}
use cse.Sync.Wchan.{queued}
use cse.Process.{Pids, Pc, gone, woken, Proc, running, Kernel}
use cse.Process.Calls.{Call, returned}
use cse.Process.Family.{parent_of, children_of, lives}

-- The call by `p` returns the value `v` of the child `c`, and nothing of the child is left.
abbrev pub Reaped : ℤ → ℕ → ℕ → Call → Type 0
Reaped v p c call =
    (t : Kernel) × (call ≡ returned v t)
    × (t.pc p ≡ running)
    × (t.pids c ≡ none)
    × (queued c (children_of (t.pids p)) ≡ false)

abbrev Waitable : Kernel → ℕ → Type 0
Waitable k c =
    (q : ℕ) × (parent_of (k.pids c) ≡ some q)
    × (lives (k.pids q) ≡ true)
    × (queued c (children_of (k.pids q)) ≡ true)

-- What the end of proc_exit by `c` leaves to a parent that is asleep for it.
record Heard (p c : ℕ) (exitcode : ℤ) (proc : Proc) (m : Pids × (ℕ → Pc)) : Type 0 where
  over : m.0 c ≡ some (record proc { children = []; exited = true; exit_val = exitcode })
  live : lives (m.0 p) ≡ true
  awake : update m.1 c gone p ≡ woken c
