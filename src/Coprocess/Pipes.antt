-- ===== src/Coprocess/Pipes.antt =====
-- The pipes between quiz5.c and add2.c: the descriptors of both processes before the loop.
use linux_programming.Base.{
  ℕ, ◌≡◌, ◌≢◌, inl, inr, refl, sym, ap, ◌∙◌, none, some, ◌==◌, if◌then◌else◌, arith, Bool-cases,
  ==→eq,
}
use linux_programming.Kernel.Defs.{Kernel, Laws, ok, after}

-- The descriptors that `pipe` stored.
pub record Fds : Type 0 where
  pub reads : ℕ
  pub writes : ℕ

-- `if (fd != std) dup2(fd, std)`, with a failure printed only; so is one of `close`.
abbrev pub move_to : (k : Kernel) → ℕ → ℕ → k.Table → k.Table
move_to k fd std t = if fd == std then t else after k t (k.dup2 t fd std)

abbrev pub close_fd : (k : Kernel) → ℕ → k.Table → k.Table
close_fd k fd t = after k t (k.close t fd)

unfoldable pub child_side : (k : Kernel) → Fds → Fds → k.Table → k.Table
child_side k fd1 fd2 t =
    move_to k fd2.writes 1 (move_to k fd1.reads 0 (close_fd k fd2.reads (close_fd k fd1.writes t)))

unfoldable pub parent_side : (k : Kernel) → Fds → Fds → k.Table → k.Table
parent_side k fd1 fd2 t = close_fd k fd2.writes (close_fd k fd1.reads t)

-- The child's standard descriptors are ends of the two pipes and the parent has the other ends;
-- neither side has the end open that it waits for the other side to close.
pub record IsConnected (k : Kernel) (fd1 fd2 : Fds) (p1 p2 : k.Pipe) (child parent : k.Table)
    : Type 0 where
  pub child_in : k.at child 0 ≡ some (k.read_end p1)
  pub child_out : k.at child 1 ≡ some (k.write_end p2)
  pub child_closed : k.at child fd1.writes ≡ none
  pub parent_out : k.at parent fd1.writes ≡ some (k.write_end p1)
  pub parent_in : k.at parent fd2.reads ≡ some (k.read_end p2)
  pub parent_closed : k.at parent fd2.writes ≡ none

module _ (k : Kernel) (laws : Laws k) where
  close_fd-open :
      (t : k.Table) (fd : ℕ) {f : k.File}
      → k.at t fd ≡ some f
      → (k.at (close_fd k fd t) fd ≡ none)
        × ((d : ℕ) → d ≢ fd → k.at (close_fd k fd t) d ≡ k.at t d)
  close_fd-open t fd h = let (t', e, gone, same) = laws.close_open t fd h in rw e (gone, same)

  move_to-open :
      (t : k.Table) (fd std : ℕ) {f : k.File}
      → k.at t fd ≡ some f
      → (k.at (move_to k fd std t) std ≡ some f)
        × ((d : ℕ) → d ≢ std → k.at (move_to k fd std t) d ≡ k.at t d)
  move_to-open t fd std h = elim (Bool-cases (fd == std)) [
    | inl e ↦ rw e (ap (k.at t) (sym (==→eq fd std e)) ∙ h, λ d n. refl)
    | inr e ↦ let (t', q, now, same) = laws.dup2_open t fd std h in rw (e, q) (now, same)
  ]

  apart : (t : k.Table) (d c : ℕ) {f : k.File} → k.at t d ≡ none → k.at t c ≡ some f → d ≢ c
  apart t d c h g e = absurd cc

  -- Two calls of `pipe` in a process with standard input and output open, and the `fork`: the two
  -- processes are connected, the parent's output with the child's standard input by the first pipe,
  -- and the child's standard output with the parent's input by the second.
  pub sides-IsConnected :
      (t t1 t2 : k.Table) (fd1 fd2 : Fds) (f g : k.File)
      → k.pipe t ≡ ok (fd1.reads, fd1.writes, t1)
      → k.pipe t1 ≡ ok (fd2.reads, fd2.writes, t2)
      → k.at t 0 ≡ some f
      → k.at t 1 ≡ some g
      → (p1 : k.Pipe) × (p2 : k.Pipe) × IsConnected k fd1 fd2 p1 p2
          (child_side k fd1 fd2 t2)
          (parent_side k fd1 fd2 t2)
  unfolding child_side parent_side
  sides-IsConnected t t1 t2 fd1 fd2 f g e1 e2 in0 out1 =
      let r1 = fd1.reads in
      let w1 = fd1.writes in
      let r2 = fd2.reads in
      let w2 = fd2.writes in
      let (p1, q1) = laws.pipe_new t r1 w1 t1 e1 in
      let (p2, q2) = laws.pipe_new t1 r2 w2 t2 e2 in
      let r1_in = apart t r1 0 q1.r_free in0 in
      let w1_in = apart t w1 0 q1.w_free in0 in
      let r1_out = apart t r1 1 q1.r_free out1 in
      let w1_out = apart t w1 1 q1.w_free out1 in
      let in1 = q1.kept 0 (λ e. r1_in (sym e)) (λ e. w1_in (sym e)) ∙ in0 in
      let w2_in = apart t1 w2 0 q2.w_free in1 in
      let r2_r1 = apart t1 r2 r1 q2.r_free q1.r_now in
      let r2_w1 = apart t1 r2 w1 q2.r_free q1.w_now in
      let w2_r1 = apart t1 w2 r1 q2.w_free q1.r_now in
      let w2_w1 = apart t1 w2 w1 q2.w_free q1.w_now in
      let at_r1 = q2.kept r1 (λ e. r2_r1 (sym e)) (λ e. w2_r1 (sym e)) ∙ q1.r_now in
      let at_w1 = q2.kept w1 (λ e. r2_w1 (sym e)) (λ e. w2_w1 (sym e)) ∙ q1.w_now in
      let s1 = close_fd k w1 t2 in
      let (gone1, same1) = close_fd-open t2 w1 at_w1 in
      let s2 = close_fd k r2 s1 in
      let (gone2, same2) = close_fd-open s1 r2 (same1 r2 r2_w1 ∙ q2.r_now) in
      let s3 = move_to k r1 0 s2 in
      let (in3, same3) =
        move_to-open s2 r1 0 (same2 r1 (λ e. r2_r1 (sym e)) ∙ same1 r1 q1.apart ∙ at_r1) in
      let (out4, same4) =
        move_to-open s3 w2 1
          (same3 w2 w2_in ∙ same2 w2 (λ e. q2.apart (sym e)) ∙ same1 w2 w2_w1 ∙ q2.w_now) in
      let u1 = close_fd k r1 t2 in
      let (gone5, same5) = close_fd-open t2 r1 at_r1 in
      let (gone6, same6) = close_fd-open u1 w2 (same5 w2 w2_r1 ∙ q2.w_now) in
      (
        p1,
        p2,
        record {
          child_in = same4 0 (λ e. omega (arith, e)) ∙ in3;
          child_out = out4;
          child_closed = same4 w1 w1_out ∙ same3 w1 w1_in ∙ same2 w1 (λ e. r2_w1 (sym e)) ∙ gone1;
          parent_out = same6 w1 (λ e. w2_w1 (sym e)) ∙ same5 w1 (λ e. q1.apart (sym e)) ∙ at_w1;
          parent_in = same6 r2 q2.apart ∙ same5 r2 r2_r1 ∙ q2.r_now;
          parent_closed = gone6;
        },
      )
