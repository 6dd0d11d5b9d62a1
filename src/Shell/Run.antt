-- ===== src/Shell/Run.antt =====
-- homework/hw5/5-2/run_command.c: the fork, what the child does and what the parent waits for.
pub mod Commands
use linux_programming.Base.{
  ℕ, zero, suc, ◌+◌, Bool, true, false, List, [], ◌∷◌, ◌++◌, Option, none, some, ◌==◌,
  if◌then◌else◌, length,
}
use linux_programming.Cstr.{Bytes}
use linux_programming.Kernel.Defs.{Kernel, Reply, ok, fail}
use linux_programming.Shell.Argv.{is_background}
use linux_programming.Shell.Redirect.{redirect_in, redirect_out}
use linux_programming.Shell.Pipeline.{Outcome, Process, exits, pipe_and_exec}

-- What `waitpid` stores: an exit status, a signal, or neither.
pub data WaitStatus : Type 0 where
  exited signalled : ℕ → WaitStatus
  other : WaitStatus

-- What the parent prints of it.
pub data Report : Type 0 where
  silent : Report
  error_status signal : ℕ → Report

-- How `run_command` leaves the shell: it exits with errno, does not wait, or has waited.
pub data Parent : Type 0 where
  exits_with : ℕ → Parent
  in_background : Parent
  waited : Report → Parent

unfoldable pub report : WaitStatus → Report
report (exited c) = if c == 0 then silent else error_status c
report (signalled s) = if s == 0 then silent else signal s
report other = silent

-- `if (run_in_background)`, where the function without a return value gave `unspecified`.
abbrev pub flag : Bool → Option Bool → Bool
flag unspecified none = unspecified
flag unspecified (some b) = b

-- The parent, with the result of `fork` and the status of the child.
unfoldable pub run_command : Bool → Reply ℕ → WaitStatus → List Bytes → Parent
unfolding is_background report
run_command unspecified forked status argv = elim forked [
  | fail e ↦ exits_with e
  | ok pid ↦ if flag unspecified (is_background argv) then in_background else waited (report status)
]

module _ (k : Kernel) where
  -- `exit(errno)` of a process that comes back from `pipe_and_exec`.
  abbrev pub exit_errno : Outcome k → List (Process k)
  exit_errno o =
      o.gone
      ++ (elim o.back [ none ↦ [] | some (t, e) ↦ record { table = t; fate = exits e } ∷ [] ])

  abbrev all_exit : Option (Outcome k) → Option (List (Process k))
  all_exit none = none
  all_exit (some o) = some (exit_errno o)

  -- The child, from the descriptors of the shell: the processes that come of it. `none` would be a
  -- child that does not come to an end.
  unfoldable pub run_child : k.Table → List Bytes → Option (List (Process k))
  unfolding redirect_in redirect_out pipe_and_exec
  run_child t argv =
      let r1 = redirect_in k t argv in
      let r2 = redirect_out k r1.table r1.argv in
      all_exit (pipe_and_exec k (length r2.argv + 1) r2.table r2.argv)
