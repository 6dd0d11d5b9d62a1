-- ===== src/Shell/Pipeline/Topology.antt =====
-- The processes of a pipeline and how pipes join them.
use native.Mathlib.Decide.{ℕ_discrete}
use linux_programming.Base.{
  ℕ, zero, suc, ◌+◌, ◌<◌, ◌≡◌, ◌≢◌, refl, sym, ap, ◌∙◌, List, [], ◌∷◌, ◌++◌, Option, none, some,
  arith, length, take, drop, All, take-append,
}
use linux_programming.Cstr.{Bytes}
use linux_programming.Kernel.Defs.{Kernel, Laws, ok, rewire}
use linux_programming.Kernel.Rewire.{Rewired, rewire-Rewired}
use linux_programming.Shell.Argv.{bar, pipe_present}
use linux_programming.Shell.Argv.Split.{Lacks, pipe_present-Lacks, pipe_present-append}
use linux_programming.Shell.Pipeline.{
  Outcome, Process, runs, left_side, beside, split_at, exec_whole, pipe_and_exec,
}
use linux_programming.Shell.Pipeline.Fuel.{split_at-forked}

-- One command of a pipeline: some strings, none of them "|".
abbrev pub IsCommand : List Bytes → Type 0
IsCommand s = (s ≢ []) × Lacks bar s

-- The command line of a pipeline.
abbrev pub join : List (List Bytes) → List Bytes
join [] = []
join (s ∷ []) = s
join (s ∷ s' ∷ ss) = s ++ bar ∷ join (s' ∷ ss)

-- A kernel that refuses no pipe, no fork and no program.
pub record Willing (k : Kernel) : Type 0 where
  pub pipes : (t : k.Table) → (r : ℕ) × (w : ℕ) × (t' : k.Table) × (k.pipe t ≡ ok (r, w, t'))
  pub forks : (t : k.Table) → k.fork t ≡ ok tt
  pub execs : (t : k.Table) (argv : List Bytes) → k.execvp t argv ≡ none

-- One pipe joins a process with table `l` to those that start from table `r`: `l` has its write
-- end as standard output and `r` its read end as standard input. All other descriptors are those
-- of `t`, so neither side holds any other descriptor of the pipe.
pub record Joined (k : Kernel) (t l r : k.Table) : Type 0 where
  pub pipe : k.Pipe
  pub output : k.at l 1 ≡ some (k.write_end pipe)
  pub input : k.at r 0 ≡ some (k.read_end pipe)
  pub left_kept : (d : ℕ) → d ≢ 1 → k.at l d ≡ k.at t d
  pub right_kept : (d : ℕ) → d ≢ 0 → k.at r d ≡ k.at t d

-- The processes `ps` run the commands from left to right, each joined to the next.
pub data Chain (k : Kernel) : k.Table → List (List Bytes) → List (Process k) → Type 0 where
  last :
      {t : k.Table} {s : List Bytes} → Chain k t (s ∷ []) (record { table = t; fate = runs s } ∷ [])
  next :
      {t r : k.Table} {s : List Bytes} {ss : List (List Bytes)} {p : Process k}
      {ps : List (Process k)}
      → Joined k t p.table r
      → p.fate ≡ runs s
      → Chain k r ss ps
      → Chain k t (s ∷ ss) (p ∷ ps)

IsCommand-length : (s : List Bytes) → s ≢ [] → (i : ℕ) × (length s ≡ suc i)
IsCommand-length [] h = absurd (h refl)
IsCommand-length (w ∷ ws) h = (length ws, refl)

join-cons :
    (s : List Bytes) (ss : List (List Bytes))
    → All IsCommand (s ∷ ss)
    → (w : Bytes) × (ws : List Bytes) × (join (s ∷ ss) ≡ w ∷ ws)
join-cons [] ss h = absurd (h.0.0 refl)
join-cons (w ∷ ws) [] h = (w, ws, refl)
join-cons (w ∷ ws) (s' ∷ ss) h = (w, _, refl)

drop-past : (s rest : List Bytes) (n : ℕ) → n ≡ suc (length s) → drop n (s ++ bar ∷ rest) ≡ rest
drop-past [] rest n e = rw e refl
drop-past (w ∷ s) rest n e = rw e (drop-past s rest (suc (length s)) refl)

module _ (k : Kernel) (laws : Laws k) (willing : Willing k) where
  -- The standard descriptors are open.
  abbrev pub IsStandard : k.Table → Type 0
  IsStandard t = ((f : k.File) × (k.at t 0 ≡ some f)) × ((g : k.File) × (k.at t 1 ≡ some g))

  free_ne : {t : k.Table} {c d : ℕ} {f : k.File} → k.at t c ≡ none → k.at t d ≡ some f → d ≢ c
  free_ne {t} p q e = cc (p, q, ap (k.at t) e)

  -- Both descriptors of the pipe are free again, as they were before `pipe`.
  restored :
      {t t1 t2 : k.Table} {drop' keep std : ℕ} {f : k.File}
      → Rewired k t1 t2 drop' keep std f
      → k.at t drop' ≡ none
      → k.at t keep ≡ none
      → ((d : ℕ) → d ≢ drop' → d ≢ keep → k.at t1 d ≡ k.at t d)
      → (d : ℕ) → d ≢ std
      → k.at t2 d ≡ k.at t d
  restored {t} {t2 = t2} {drop' = a} {keep = b} w fa fb same d n = elim (ℕ_discrete d a) [
    | yes e ↦ ap (k.at t2) e ∙ w.no_drop ∙ sym fa ∙ ap (k.at t) (sym e)
    | no na ↦ elim (ℕ_discrete d b) [
      | yes e ↦ ap (k.at t2) e ∙ w.no_keep ∙ sym fb ∙ ap (k.at t) (sym e)
      | no nb ↦ w.kept d na nb n ∙ same d na nb
    ]
  ]

  joined :
      (t : k.Table) (r w : ℕ) (t' : k.Table)
      → IsStandard t
      → k.pipe t ≡ ok (r, w, t')
      → Joined k t (rewire k t' r w 1) (rewire k t' w r 0)
  joined t r w t' std p =
      let (pipe, made) = laws.pipe_new t r w t' p in
      let l =
        rewire-Rewired k laws t' r w 1 made.r_now made.w_now made.apart
          (free_ne {t = t} made.w_free std.1.1) (free_ne {t = t} made.r_free std.1.1) in
      let q =
        rewire-Rewired k laws t' w r 0 made.w_now made.r_now (λ e. made.apart (sym e))
          (free_ne {t = t} made.r_free std.0.1) (free_ne {t = t} made.w_free std.0.1) in
      record {
        pipe = pipe;
        output = l.at_std;
        input = q.at_std;
        left_kept = restored l made.r_free made.w_free made.kept;
        right_kept = restored q made.w_free made.r_free (λ d nw nr. made.kept d nr nw);
      }

  Joined-IsStandard : {t l r : k.Table} → IsStandard t → Joined k t l r → IsStandard r
  Joined-IsStandard std j = (
    (k.read_end j.pipe, j.input),
    (std.1.0, j.right_kept 1 (λ e. absurd (omega arith)) ∙ std.1.1),
  )

  left_side-runs : (t : k.Table) (r w : ℕ) (s : List Bytes) → (left_side k t r w s).fate ≡ runs s
  unfolding left_side
  left_side-runs t r w s = rw (willing.execs (rewire k t r w 1) s) refl

  left_side-table :
      (t : k.Table) (r w : ℕ) (s : List Bytes) → (left_side k t r w s).table ≡ rewire k t r w 1
  unfolding left_side
  left_side-table t r w s = refl

  -- What the pipeline of `ss` leaves when it starts from table `t`.
  abbrev pub Runs : k.Table → List (List Bytes) → Option (Outcome k) → Type 0
  Runs t ss r =
      (ps : List (Process k)) × (r ≡ some (record { gone = ps; back = none })) × Chain k t ss ps

  one_command :
      (fuel : ℕ) (t : k.Table) (s : List Bytes)
      → IsCommand s
      → Runs t (s ∷ []) (pipe_and_exec k (suc fuel) t s)
  unfolding pipe_and_exec exec_whole
  one_command fuel t s c = (
    _,
    rw (pipe_present-Lacks s c.1, pipe_and_exec) (rw (willing.execs t s, exec_whole) refl),
    last,
  )

  beside-Runs :
      {t t' : k.Table} (p : Process k) (s : List Bytes) (ss : List (List Bytes))
      (r : Option (Outcome k))
      → Joined k t p.table t'
      → p.fate ≡ runs s
      → Runs t' ss r
      → Runs t (s ∷ ss) (beside k p r)
  beside-Runs p s ss r j f (ps, e, c) = (p ∷ ps, rw e refl, next j f c)

  more_commands :
      (right : k.Table → Option (Outcome k)) (t : k.Table) (s : List Bytes) (ss : List (List Bytes))
      → IsStandard t
      → ((t' : k.Table) → IsStandard t' → Runs t' ss (right t'))
      → Runs t (s ∷ ss) (split_at k right t s)
  more_commands right t s ss std h =
      let (r, w, t', p) = willing.pipes t in
      let j = joined t r w t' std p in
      rw (split_at-forked k right t s r w t' tt p (willing.forks t')) (
        beside-Runs (left_side k t' r w s) s ss _ (rw (left_side-table t' r w s) j)
          (left_side-runs t' r w s) (h (rewire k t' w r 0) (Joined-IsStandard std j)))

  first_bar :
      (s : List Bytes) (ss : List (List Bytes)) (s' : List Bytes) (i : ℕ)
      → length s ≡ suc i
      → All IsCommand (s ∷ s' ∷ ss)
      → pipe_present (join (s ∷ s' ∷ ss)) ≡ some (suc i)
  first_bar s ss s' i e h =
      let (w, ws, j) = join-cons s' ss h.1 in
      pipe_present-append s (join (s' ∷ ss)) h.0.1 ∙ rw (e, j) (ground arith)

  -- From a process with open standard descriptors, under a kernel that keeps the laws and refuses
  -- nothing: `pipe_and_exec` on the command line of a pipeline comes back in no process, and
  -- leaves one process for each command, in order; each runs its command, its standard output is
  -- the pipe that is the standard input of the next, the first keeps its input and the last its
  -- output, and no process holds any other descriptor of a pipe.
  pub pipe_and_exec-Chain :
      (fuel : ℕ) (t : k.Table) (s : List Bytes) (ss : List (List Bytes))
      → IsStandard t
      → All IsCommand (s ∷ ss)
      → length ss < fuel
      → Runs t (s ∷ ss) (pipe_and_exec k fuel t (join (s ∷ ss)))
  unfolding pipe_and_exec
  pipe_and_exec-Chain zero t s ss std h e = absurd (omega arith)
  pipe_and_exec-Chain (suc fuel) t s [] std h e = one_command fuel t s h.0
  pipe_and_exec-Chain (suc fuel) t s (s' ∷ ss) std h e =
      let (i, n) = IsCommand-length s h.0.0 in
      let argv = join (s ∷ s' ∷ ss) in
      rw (first_bar s ss s' i n h, pipe_and_exec)
        (rw
          (
            ap (λ m. take m argv) (sym n) ∙ take-append s (bar ∷ join (s' ∷ ss)),
            drop-past s (join (s' ∷ ss)) (suc i + 1) (omega arith),
          )
          (more_commands _ t s (s' ∷ ss) std
            (λ t' std'. pipe_and_exec-Chain fuel t' s' ss std' h.1 (omega arith))))
