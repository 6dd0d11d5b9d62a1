-- ===== src/Shell/Pipeline/Fuel.antt =====
-- The recursion of `pipe_and_exec` and its fuel.
use linux_programming.Base.{
  ℕ, zero, suc, ◌+◌, ◌<◌, ◌≡◌, refl, inl, inr, List, [], ◌∷◌, Option, none, some, arith, length,
  take, drop, length-drop,
}
use linux_programming.Cstr.{Bytes}
use linux_programming.Kernel.Defs.{Kernel, ok, fail, Reply-cases, rewire}
use linux_programming.Shell.Argv.{pipe_present}
use linux_programming.Shell.Pipeline.{
  Outcome, Process, ended, exits, exit_failure, left_side, beside, split_at, pipe_and_exec,
}

module _ (k : Kernel) where
  pub split_at-no_pipe :
      (right : k.Table → Option (Outcome k)) (t : k.Table) (left_argv : List Bytes) (e : ℕ)
      → k.pipe t ≡ fail e
      → split_at k right t left_argv ≡ some (ended k t (exits exit_failure))
  unfolding split_at
  split_at-no_pipe right t left_argv e p = rw (p, split_at) refl

  pub split_at-no_fork :
      (right : k.Table → Option (Outcome k)) (t : k.Table) (left_argv : List Bytes) (r w : ℕ)
      (t' : k.Table) (e : ℕ)
      → k.pipe t ≡ ok (r, w, t')
      → k.fork t' ≡ fail e
      → split_at k right t left_argv ≡ some (ended k t' (exits exit_failure))
  unfolding split_at
  split_at-no_fork right t left_argv r w t' e p f = rw (p, split_at, f) refl

  pub split_at-forked :
      (right : k.Table → Option (Outcome k)) (t : k.Table) (left_argv : List Bytes) (r w : ℕ)
      (t' : k.Table) (u : Unit {0})
      → k.pipe t ≡ ok (r, w, t')
      → k.fork t' ≡ ok u
      → split_at k right t left_argv
        ≡ beside k (left_side k t' r w left_argv) (right (rewire k t' w r 0))
  unfolding split_at
  split_at-forked right t left_argv r w t' u p f = rw (p, split_at, f) refl

  abbrev pub Ends : Option (Outcome k) → Type 0
  Ends r = (o : Outcome k) × (r ≡ some o)

  beside-Ends : (p : Process k) (r : Option (Outcome k)) → Ends r → Ends (beside k p r)
  beside-Ends p r (o, e) = rw e (_, refl)

  split_at-Ends :
      (right : k.Table → Option (Outcome k)) (t : k.Table) (left_argv : List Bytes)
      → ((t' : k.Table) → Ends (right t'))
      → Ends (split_at k right t left_argv)
  split_at-Ends right t left_argv h = elim (Reply-cases (k.pipe t)) [
    | inl (e, p) ↦ (_, split_at-no_pipe right t left_argv e p)
    | inr ((r, w, t'), p) ↦ elim (Reply-cases (k.fork t')) [
      | inl (e, f) ↦ (_, split_at-no_fork right t left_argv r w t' e p f)
      | inr (u, f) ↦
          rw (split_at-forked right t left_argv r w t' u p f)
            (beside-Ends (left_side k t' r w left_argv) _ (h (rewire k t' w r 0)))
    ]
  ]

  shorter :
      (argv : List Bytes) (i : ℕ)
      → pipe_present argv ≡ some (suc i)
      → length (drop (suc i + 1) argv) < length argv
  unfolding pipe_present
  shorter [] i e = absurd (ground arith)
  shorter (w ∷ ws) i e = omega (arith, length-drop (suc i + 1) (w ∷ ws))

  by_position :
      (fuel : ℕ) (t : k.Table) (argv : List Bytes) (position : Option ℕ)
      → pipe_present argv ≡ position
      → length argv < suc fuel
      → ((t' : k.Table) (rest : List Bytes)
          → length rest < fuel
          → Ends (pipe_and_exec k fuel t' rest))
      → Ends (pipe_and_exec k (suc fuel) t argv)
  unfolding pipe_and_exec
  by_position fuel t argv none e h call = rw (e, pipe_and_exec) (_, refl)
  by_position fuel t argv (some zero) e h call = rw (e, pipe_and_exec) (_, refl)
  by_position fuel t argv (some (suc i)) e h call =
      rw (e, pipe_and_exec)
        (split_at-Ends _ t (take (suc i) argv)
          (λ t'. call t' (drop (suc i + 1) argv) (omega (arith, shorter argv i e))))

  -- Fuel above the length of the command line is enough, whatever the kernel answers:
  -- `pipe_and_exec` ends.
  pub pipe_and_exec-Ends :
      (fuel : ℕ) (t : k.Table) (argv : List Bytes)
      → length argv < fuel
      → Ends (pipe_and_exec k fuel t argv)
  pipe_and_exec-Ends zero t argv h = absurd (omega arith)
  pipe_and_exec-Ends (suc fuel) t argv h =
      by_position fuel t argv (pipe_present argv) refl h (pipe_and_exec-Ends fuel)
