-- ===== src/Process/Family.antt =====
-- What the records of the directory say about parents and children, and the invariant of the calls.
use cse.Base.{
  ℕ, ◌≡◌, ◌≢◌, Bool, true, false, not, Option, none, some, List, [], update, done, refl, sym, ap,
  ◌∙◌,
}
use mathlib.Core.Path.{subst, fun_ext}
use cse.Sync.Wchan.{queued, Distinct}
use cse.Process.{Services, Pids, Proc, Pc, gone, sleeping, woken, Kernel}

abbrev pub parent_of : Option Proc → Option ℕ
parent_of none = none
parent_of (some x) = x.parent

abbrev pub children_of : Option Proc → List ℕ
children_of none = []
children_of (some x) = x.children

abbrev pub waitpid_of : Option Proc → Option ℕ
waitpid_of none = none
waitpid_of (some x) = x.waitpid

-- The process is there and has not exited.
abbrev pub lives : Option Proc → Bool
lives none = false
lives (some x) = not x.exited

-- The process is there and has exited.
abbrev pub zombie : Option Proc → Bool
zombie none = false
zombie (some x) = x.exited

-- Does the thread have code left to run?
abbrev pub active : Pc → Bool
active gone = false
active _ = true

-- The child that the thread waits for, asleep or woken.
abbrev pub awaited : Pc → Option ℕ
awaited (sleeping c) = some c
awaited (woken c) = some c
awaited _ = none

-- The process, if there is one, has the pid that it is found under.
abbrev pub pid_of : ℕ → Option Proc → ℕ
pid_of p none = p
pid_of p (some x) = x.pid

pub record Inv (k : Kernel) : Type 0 where
  pub own : (p : ℕ) → pid_of p (k.pids p) ≡ p
  pub linked :
      (c q : ℕ)
      → parent_of (k.pids c) ≡ some q
      → (lives (k.pids q) ≡ true) × (queued c (children_of (k.pids q)) ≡ true)
  pub listed : (q c : ℕ) → queued c (children_of (k.pids q)) ≡ true → parent_of (k.pids c) ≡ some q
  pub distinct : (q : ℕ) → Distinct (children_of (k.pids q))
  pub apart : (p : ℕ) → parent_of (k.pids p) ≢ some p
  pub undead : (c : ℕ) → zombie (k.pids c) ≡ true → parent_of (k.pids c) ≢ none
  pub threads : (p : ℕ) → active (k.pc p) ≡ lives (k.pids p)
  pub waited :
      (p c : ℕ)
      → awaited (k.pc p) ≡ some c
      → (parent_of (k.pids c) ≡ some p) × (waitpid_of (k.pids p) ≡ some c)
  pub unslept : (p c : ℕ) → k.pc p ≡ sleeping c → lives (k.pids c) ≡ true

-- The call of pid_remove_proc takes the process out and drops no other, and the close of what a process
-- owns ends.
pub record IsExact (env : Services) : Type 0 where
  pub removes : (pids : Pids) (p : ℕ) → env.remove_proc pids p ≡ update pids p none
  pub closes : (p : ℕ) → env.close p ≡ done tt

abbrev pub ideal : Services
ideal = record { remove_proc = λ pids p. update pids p none; close = λ p. done tt }

-- What holds with the services `ideal` holds with any like them.
pub from_ideal : (env : Services) → IsExact env → (P : Services → Type 0) → P ideal → P env
from_ideal env exact P h =
    let removes : env.remove_proc ≡ ideal.remove_proc =
      fun_ext (λ pids. fun_ext (λ p. exact.removes pids p)) in
    let closes : env.close ≡ ideal.close = fun_ext exact.closes in
    subst P
      (ap (λ r. record { remove_proc = r; close = ideal.close }) (sym removes)
        ∙ ap (λ c. record { remove_proc = env.remove_proc; close = c }) (sym closes))
      h

pub ideal-IsExact : IsExact ideal
ideal-IsExact = record { removes = λ pids p. refl; closes = λ p. refl }
