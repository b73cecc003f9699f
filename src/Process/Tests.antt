-- ===== src/Process/Tests.antt =====
-- A parent and its child, in both orders of waitpid and exit.
use cse.Base.{◌≡◌, refl, some, [], ◌∷◌, update, pos}
use cse.Process.Family.{ideal}
use cse.Process.{Proc, running, gone, sleeping, Kernel, proc_remlist, rotate, leave}
use cse.Process.Calls.{proc_create, proc_create_fork, boot}

-- Process 1 as the child of the kernel's process.
abbrev child : Proc
child = record (proc_create 1) { parent = some 0 }

abbrev forked : Kernel
unfolding proc_create_fork
forked = record {
  pids = proc_create_fork boot.pids (proc_create 0) 1;
  pc = update boot.pc 1 running;
}

-- The parent has gone to sleep.
abbrev asleep : Kernel
asleep = record {
  pids =
      update forked.pids 0 (some (record (proc_create 0) { children = 1 ∷ []; waitpid = some 1 }));
  pc = update forked.pc 0 (sleeping 1);
}

-- The child has exited with 7, while the parent runs.
abbrev over : Kernel
unfolding leave
over = record {
  pids = (leave ideal forked.pids forked.pc child (pos 7)).0;
  pc = update (leave ideal forked.pids forked.pc child (pos 7)).1 1 gone;
}

remlist_test : proc_remlist (4 ∷ 5 ∷ 6 ∷ []) 5 ≡ 6 ∷ 4 ∷ []
unfolding proc_remlist rotate
remlist_test = refl

-- A list of one element loses it whatever the value.
remlist_single : proc_remlist (4 ∷ []) 5 ≡ []
unfolding proc_remlist
remlist_single = refl
