-- ===== src/Shell/Session.antt =====
-- homework/hw5/5-2/shell.c: the loop of `main` over the lines of standard input.
pub mod Lines
use linux_programming.Base.{
  ℕ, zero, suc, ◌+◌, Bool, true, false, List, [], ◌∷◌, ◌++◌, Option, none, some, length,
  if◌then◌else◌,
}
use linux_programming.Cstr.{Bytes, c_str, fgets}
use linux_programming.Kernel.Defs.{Reply}
use linux_programming.Shell.Parse.{Slot, parse, free_argv}
use linux_programming.Shell.Builtin.{
  Builtin, Env, Effect, prints, complains, ends, undefined, is_builtin, do_builtin,
}
use linux_programming.Shell.Run.{WaitStatus, Parent, exits_with, in_background, waited, run_command}

-- LONGLINE
abbrev pub longline : ℕ
longline = 255

-- What the shell did for one command line.
pub data Action : Type 0 where
  built : List Bytes → Effect → Action
  forked : List Bytes → Parent → Action

-- What the system answers while one command line is dealt with; `unspecified` is what a caller
-- reads of a function that ended without a return statement.
pub record System : Type 0 where
  pub env : Env
  pub unspecified : Bool
  pub fork : Reply ℕ
  pub status : WaitStatus

-- How the shell ends: it exits with a status, or its behaviour is undefined.
pub data Ending : Type 0 where
  exit_status : ℕ → Ending
  crashed : Ending

-- The state of `main` between two lines: `this` of builtin.c, and what was done so far.
pub record Shell : Type 0 where
  pub this : Option Builtin
  pub log : List Action

-- After one command line: the shell goes on, or it has ended, or the command has not ended.
pub data Next : Type 0 where
  goes_on : Shell → Next
  over : List Action → Ending → Next
  hangs : Next

abbrev pub note : Shell → Action → List Action
note s a = s.log ++ a ∷ []

abbrev pub settle : Option Builtin → List Action → Effect → Next
settle this log (prints out) = goes_on (record { this = this; log = log })
settle this log (complains out) = goes_on (record { this = this; log = log })
settle this log (ends out c) = over log (exit_status c)
settle this log undefined = over log crashed

abbrev pub settle_built : Option Builtin → Shell → List Bytes → Option Effect → Next
settle_built this s argv none = hangs
settle_built this s argv (some e) = settle this (note s (built argv e)) e

abbrev pub settle_parent : Option Builtin → List Action → Parent → Next
settle_parent this log (exits_with e) = over log (exit_status e)
settle_parent this log in_background = goes_on (record { this = this; log = log })
settle_parent this log (waited r) = goes_on (record { this = this; log = log })

-- The body of the loop for `myArgv`, which is not NULL and has a first string.
unfoldable pub dispatch : System → Shell → List Bytes → Next
unfolding is_builtin do_builtin run_command
dispatch sys s [] = over s.log crashed
dispatch sys s (w ∷ ws) =
    let asked = is_builtin s.this w in
    let done = do_builtin sys.env asked.0 (w ∷ ws) in
    let parent = run_command sys.unspecified sys.fork sys.status (w ∷ ws) in
    if asked.1
    then settle_built done.0 s (w ∷ ws) done.1
    else settle_parent asked.0 (note s (forked (w ∷ ws) parent)) parent

-- One line, which is the string up to its first NUL: `parse`, the command if there is one, and
-- `free_argv`.
unfoldable pub step_line : System → Shell → Bytes → Next
unfolding parse free_argv dispatch c_str
step_line sys s line = elim (parse (some (c_str line))) [
  | none ↦ over s.log crashed
  | some r ↦ elim r [
    | none ↦ goes_on s
    | some slots ↦ elim (free_argv slots) [
      | none ↦ over s.log crashed
      | some argv ↦ dispatch sys s argv
    ]
  ]
]

-- The `while (fgets(...))` loop. The system may answer each line anew, from what was done so far.
-- `none`: no fuel left, or a command that has not ended.
unfoldable pub session : ℕ → (List Action → System) → Shell → Bytes → Option (List Action × Ending)
unfolding fgets step_line
session zero world s stdin = none
session (suc fuel) world s stdin = elim (fgets longline stdin) [
  | none ↦ some (s.log, exit_status 0)
  | some (line, rest) ↦ elim (step_line (world s.log) s line) [
    | goes_on s' ↦ session fuel world s' rest
    | over log e ↦ some (log, e)
    | hangs ↦ none
  ]
]

-- `main`, with one round for each byte of standard input and one more.
unfoldable pub main : (List Action → System) → Bytes → Option (List Action × Ending)
unfolding session
main world stdin = session (length stdin + 1) world (record { this = none; log = [] }) stdin
