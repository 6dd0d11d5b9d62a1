-- ===== src/Shell/Run/Commands.antt =====
-- What becomes of a command line: the child's processes, and whether the shell waits.
use linux_programming.Base.{
  ℕ, suc, ◌+◌, ◌≡◌, refl, ap, ◌∙◌, ◌⊎◌, inl, inr, Bool, true, false, ◌||◌, List, [], ◌∷◌, ◌++◌,
  none, some, arith, length, ◌==◌, if◌then◌else◌,
}
use linux_programming.Cstr.{Bytes, codes}
use linux_programming.Kernel.Defs.{Kernel, ok}
use linux_programming.Shell.Argv.{is_null, bar, ampersand, pipe_present}
use linux_programming.Shell.Argv.Split.{
  Lacks, pipe_present-Lacks, pipe_present-append, is_background_returns,
}
use linux_programming.Shell.Redirect.{redirect_in, redirect_out}
use linux_programming.Shell.Redirect.Effect.{redirect_in-Lacks, redirect_out-Lacks}
use linux_programming.Shell.Pipeline.{Process, runs, exits, einval, exec_whole, pipe_and_exec}
use linux_programming.Shell.Pipeline.Fuel.{pipe_and_exec-Ends}
use linux_programming.Shell.Run.{
  WaitStatus, in_background, waited, report, run_command, run_child, all_exit, exit_errno,
}

-- No redirection in the command line.
abbrev pub IsPlain : List Bytes → Type 0
IsPlain argv = Lacks (codes "<") argv × Lacks (codes ">") argv

module _ (k : Kernel) where
  -- For every kernel and command line the child comes to an end: each process that it has become
  -- runs a program or has exited.
  pub run_child-Ends :
      (t : k.Table) (argv : List Bytes) → (ps : List (Process k)) × (run_child k t argv ≡ some ps)
  unfolding run_child
  run_child-Ends t argv =
      let r1 = redirect_in k t argv in
      let r2 = redirect_out k r1.table r1.argv in
      let (o, e) = pipe_and_exec-Ends k (length r2.argv + 1) r2.table r2.argv (omega arith) in
      (exit_errno k o, ap (all_exit k) e)

  run_child-plain :
      (t : k.Table) (argv : List Bytes)
      → IsPlain argv
      → run_child k t argv ≡ all_exit k (pipe_and_exec k (length argv + 1) t argv)
  unfolding run_child
  run_child-plain t argv p =
      rw (redirect_in-Lacks k t argv p.0) (rw (redirect_out-Lacks k t argv p.1) refl)

  fuel_suc : (n : ℕ) → n + 1 ≡ suc n
  fuel_suc n = omega arith

  -- A "|" at the beginning or at the end, and none before it: no program runs, and the one process
  -- there is exits with EINVAL.
  pub run_child-einval :
      (t : k.Table) (ws vs : List Bytes)
      → Lacks bar ws
      → (ws ≡ []) ⊎ (vs ≡ [])
      → IsPlain (ws ++ bar ∷ vs)
      → run_child k t (ws ++ bar ∷ vs) ≡ some (record { table = t; fate = exits einval } ∷ [])
  unfolding pipe_and_exec
  run_child-einval t ws vs l end p =
      let argv = ws ++ bar ∷ vs in
      let found : pipe_present argv ≡ none = pipe_present-append ws vs l ∙ at_end end in
      run_child-plain t argv p ∙ rw (fuel_suc (length argv)) (rw (found, pipe_and_exec) refl)
    where
      at_end :
          (ws ≡ []) ⊎ (vs ≡ [])
          → (if length ws == 0 || is_null vs then none else some (length ws)) ≡ none
      at_end (inl e) = rw e refl
      at_end (inr e) = rw e (ground arith)

  -- A command line with an "&", and without redirections and pipes, runs in the background; its
  -- "&" is still among the arguments of the program that the child runs.
  pub run_command_background :
      (t : k.Table) (unspecified : Bool) (pid : ℕ) (status : WaitStatus) (ws vs : List Bytes)
      → IsPlain (ws ++ ampersand ∷ vs)
      → Lacks bar (ws ++ ampersand ∷ vs)
      → k.execvp t (ws ++ ampersand ∷ vs) ≡ none
      → (run_command unspecified (ok pid) status (ws ++ ampersand ∷ vs) ≡ in_background)
        × (run_child k t (ws ++ ampersand ∷ vs)
            ≡ some (record { table = t; fate = runs (ws ++ ampersand ∷ vs) } ∷ []))
  unfolding run_command pipe_and_exec
  run_command_background t unspecified pid status ws vs p l x =
      let argv = ws ++ ampersand ∷ vs in
      (
        rw (is_background_returns.0 ws vs, run_command) refl,
        run_child-plain t argv p
            ∙ rw (fuel_suc (length argv))
                (rw (pipe_present-Lacks argv l, pipe_and_exec) (rw (x, exec_whole) refl)),
      )

-- For a command line without an "&" it is left to the unspecified value of `is_background` whether
-- the shell waits for the child.
pub run_command_unspecified :
    (pid : ℕ) (status : WaitStatus) (w : Bytes) (ws : List Bytes)
    → Lacks ampersand (w ∷ ws)
    → (run_command true (ok pid) status (w ∷ ws) ≡ in_background)
      × (run_command false (ok pid) status (w ∷ ws) ≡ waited (report status))
unfolding run_command
run_command_unspecified pid status w ws l =
    let n = is_background_returns.2 w ws l in (rw (n, run_command) refl, rw (n, run_command) refl)
