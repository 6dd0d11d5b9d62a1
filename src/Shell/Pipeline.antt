-- ===== src/Shell/Pipeline.antt =====
-- homework/hw5/5-2/pipe_command.c: `pipe_and_exec`, which turns one process into one for each
-- command of a pipeline.
pub mod Fuel
pub mod Topology
use linux_programming.Base.{
  ℕ, zero, suc, ◌+◌, Bool, true, false, List, [], ◌∷◌, ◌++◌, Option, none, some, ◌==◌,
  if◌then◌else◌, take, drop, map,
}
use linux_programming.Cstr.{Bytes}
use linux_programming.Kernel.Defs.{Kernel, Reply, ok, fail, after, rewire}
use linux_programming.Shell.Argv.{pipe_present}

-- EINVAL and EXIT_FAILURE.
abbrev pub einval : ℕ
einval = 22

abbrev pub exit_failure : ℕ
exit_failure = 1

-- What became of a process: it runs the program of this `argv`, or it ended with this status.
pub data Fate : Type 0 where
  runs : List Bytes → Fate
  exits : ℕ → Fate

pub record Process (k : Kernel) : Type 0 where
  pub table : k.Table
  pub fate : Fate

-- The processes that a call of `pipe_and_exec` leaves behind it, from left to right, and of the
-- one that comes back from the call, if any does, the descriptors and `errno`.
pub record Outcome (k : Kernel) : Type 0 where
  pub gone : List (Process k)
  pub back : Option (k.Table × ℕ)

module _ (k : Kernel) where
  abbrev ended : k.Table → Fate → Outcome k
  ended t f = record { gone = record { table = t; fate = f } ∷ []; back = none }

  abbrev returned : k.Table → ℕ → Outcome k
  returned t e = record { gone = []; back = some (t, e) }

  -- `case 0`: the whole command line is one command.
  unfoldable pub exec_whole : k.Table → List Bytes → Outcome k
  exec_whole t argv = elim (k.execvp t argv) [ none ↦ ended t (runs argv) | some e ↦ returned t e ]

  -- The parent of the fork: its output goes into the pipe, and it runs the left command.
  unfoldable pub left_side : k.Table → ℕ → ℕ → List Bytes → Process k
  unfolding rewire
  left_side t r w argv =
      let t' : k.Table = rewire k t r w 1 in
      record {
        table = t';
        fate = elim (k.execvp t' argv) [ none ↦ runs argv | some e ↦ exits exit_failure ];
      }

  abbrev beside : Process k → Option (Outcome k) → Option (Outcome k)
  beside p none = none
  beside p (some o) = some (record o { gone = p ∷ o.gone })

  -- The pipe and the fork of the `default` case; `right` is the call on the right side.
  unfoldable pub split_at :
      (k.Table → Option (Outcome k)) → k.Table → List Bytes → Option (Outcome k)
  unfolding left_side
  split_at right t left_argv = elim (k.pipe t) [
    | fail e ↦ some (ended t (exits exit_failure))
    | ok (r, w, t') ↦ elim (k.fork t') [
      | fail e ↦ some (ended t' (exits exit_failure))
      | ok u ↦ beside (left_side t' r w left_argv) (right (rewire k t' w r 0))
    ]
  ]

  -- `none`: no fuel left.
  unfoldable pub pipe_and_exec : ℕ → k.Table → List Bytes → Option (Outcome k)
  unfolding exec_whole split_at pipe_present
  pipe_and_exec zero t argv = none
  pipe_and_exec (suc fuel) t argv = elim (pipe_present argv) [
    | none ↦ some (returned t einval)
    | some zero ↦ some (exec_whole t argv)
    | some (suc i) ↦
        split_at (λ t'. pipe_and_exec fuel t' (drop (suc i + 1) argv)) t (take (suc i) argv)
  ]
