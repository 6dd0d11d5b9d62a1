-- ===== src/Popen/Modes.antt =====
-- The two modes of `custom_popen`.
use linux_programming.Base.{ℕ, ◌≡◌, ◌≢◌, refl, ap, ◌∙◌, inl, inr, none, some}
use linux_programming.Cstr.{Bytes, codes, streq}
use linux_programming.Kernel.Defs.{Kernel, Laws, ok, rewire, Reply-cases}
use linux_programming.Kernel.Rewire.{rewire-Rewired}
use linux_programming.Popen.{
  runs, Child, Popened, sh_c, fdopen, child_side, parent_side, custom_popen,
}

module _ (k : Kernel) (laws : Laws k) where
  -- A child that runs the command with its output in the pipe, and a parent with the other end.
  pub record Reads (t : k.Table) (command : Bytes) (o : Popened k) : Type 0 where
    pub pipe : k.Pipe
    pub descriptor : ℕ
    pub child : Child k
    pub stream : o.stream ≡ some descriptor
    pub input : k.at o.table descriptor ≡ some (k.read_end pipe)
    pub started : o.child ≡ some child
    pub runs_command : child.fate ≡ runs (sh_c command)
    pub output : k.at child.table 1 ≡ some (k.write_end pipe)
    pub child_kept : (d : ℕ) → d ≢ 1 → k.at t d ≢ none → k.at child.table d ≡ k.at t d
    pub parent_kept : (d : ℕ) → k.at t d ≢ none → k.at o.table d ≡ k.at t d

  not_free : {t : k.Table} {c d : ℕ} → k.at t c ≡ none → k.at t d ≢ none → d ≢ c
  not_free {t} p q e = q (ap (k.at t) e ∙ p)

  custom_popen-Reads :
      (t : k.Table) (command : Bytes) (r w : ℕ) (t' : k.Table)
      → k.pipe t ≡ ok (r, w, t')
      → k.fork t' ≡ ok tt
      → k.at t 1 ≢ none
      → ((u : k.Table) → k.execvp u (sh_c command) ≡ none)
      → Reads t command (custom_popen k t command (codes "r"))
  unfolding custom_popen child_side parent_side streq
  custom_popen-Reads t command r w t' p f out execs =
      let (pipe, made) = laws.pipe_new t r w t' p in
      let l =
        rewire-Rewired k laws t' r w 1 made.r_now made.w_now made.apart
          (not_free {t = t} made.w_free out) (not_free {t = t} made.r_free out) in
      let (t1, closed, gone, same) = laws.close_open t' w made.w_now in
      let mine : k.at t1 r ≡ some (k.read_end pipe) = same r made.apart ∙ made.r_now in
      rw (custom_popen, p, f)
        (rw (closed, execs (rewire k t' r w 1))
          (rw (fdopen, mine)
            (record {
              pipe = pipe;
              descriptor = r;
              child = record { table = rewire k t' r w 1; fate = runs (sh_c command) };
              stream = refl;
              input = mine;
              started = refl;
              runs_command = refl;
              output = l.at_std;
              child_kept = λ d n h.
                  l.kept d (not_free {t = t} made.r_free h) (not_free {t = t} made.w_free h) n
                  ∙ made.kept d (not_free {t = t} made.r_free h) (not_free {t = t} made.w_free h);
              parent_kept = λ d h.
                  same d (not_free {t = t} made.w_free h)
                  ∙ made.kept d (not_free {t = t} made.r_free h) (not_free {t = t} made.w_free h);
            })))

  custom_popen-w :
      (t : k.Table) (command : Bytes) → (custom_popen k t command (codes "w")).stream ≡ none
  unfolding custom_popen parent_side streq
  custom_popen-w t command = elim (Reply-cases (k.pipe t)) [
    | inl (e, p) ↦ rw (custom_popen, p) refl
    | inr ((r, w, t'), p) ↦ elim (Reply-cases (k.fork t')) [
      | inl (e, f) ↦ rw (custom_popen, p, f) refl
      | inr (u, f) ↦
          let (pipe, made) = laws.pipe_new t r w t' p in
          let (t1, closed, gone, same) = laws.close_open t' w made.w_now in
          rw (custom_popen, p, f) (rw closed (rw (fdopen, gone) refl))
    ]
  ]

  -- Mode "r", where the pipe and the fork work, the shell can be run, and the standard output is
  -- open: the child runs `sh -c` on the command with its standard output in the pipe, the stream
  -- that is returned reads the other end, no other descriptor that was open has changed in either.
  -- In mode "w" the result is NULL whatever the calls answer, since the parent closes the end that
  -- it would write to.
  pub custom_popen-modes :
      (t : k.Table) (command : Bytes) (r w : ℕ) (t' : k.Table)
      → k.pipe t ≡ ok (r, w, t')
      → k.fork t' ≡ ok tt
      → k.at t 1 ≢ none
      → ((u : k.Table) → k.execvp u (sh_c command) ≡ none)
      → Reads t command (custom_popen k t command (codes "r"))
        × ((u : k.Table) → (custom_popen k u command (codes "w")).stream ≡ none)
  custom_popen-modes t command r w t' p f out execs =
      (custom_popen-Reads t command r w t' p f out execs, (λ u. custom_popen-w u command))
