-- ===== src/Exercises/Listing.antt =====
-- What pipe_ls.c and mycat.c print.
use linux_programming.Base.{
  ℕ, ◌≡◌, ◌≢◌, inl, inr, refl, sym, ap, ◌∙◌, Bool, [], ◌∷◌, ◌++◌, none, some, length, take, ◌==◌,
  Bool-cases, ==→eq,
}
use mathlib.Core.List.{append_assoc, append-nil}
use linux_programming.Cstr.{Bytes}
use linux_programming.Kernel.Defs.{Kernel, Laws, ok}
use linux_programming.Kernel.Rewire.{rewire-Rewired}
use linux_programming.Copy.{Reads, eof, broken, piece, Writes}
use linux_programming.Copy.Loop.{delivered, IsWhole}
use linux_programming.Exercises.{pass_on, ls_side, reader_side, pipe_ls}

take_whole : (xs : Bytes) → take (length xs) xs ≡ xs
take_whole [] = refl
take_whole (x ∷ xs) = ap (◌∷◌ x) (take_whole xs)

pub pass_on-whole :
    (write : Writes) (out : Bytes) (source : Reads)
    → IsWhole write
    → pass_on write out source ≡ out ++ delivered source
unfolding pass_on
pass_on-whole write out eof h = sym (append-nil out)
pass_on-whole write out (broken e) h = sym (append-nil out)
pass_on-whole write out (piece b bs rest) h =
    rw (pass_on, h out (b ∷ bs), take_whole (b ∷ bs))
      (pass_on-whole write (out ++ b ∷ bs) rest h ∙ append_assoc out (b ∷ bs) (delivered rest))

module _ (k : Kernel) (laws : Laws k) where
  pipe_ls-forked :
      (t t1 : k.Table) (r w : ℕ) (source : Reads) (waits : Bool) (write : Writes) (out : Bytes)
      → k.pipe t ≡ ok (r, w, t1)
      → k.fork t1 ≡ ok tt
      → ((pipe_ls k t source waits write out).child ≡ some (ls_side k t1 r w))
        × ((pipe_ls k t source waits write out).output ≡ pass_on write out source)
  unfolding pipe_ls
  pipe_ls-forked t t1 r w source waits write out e u =
      (rw (pipe_ls, e, u) refl, rw (pipe_ls, e, u) refl)

  ls_side-rewired :
      (t : k.Table) (r w : ℕ) {f g : k.File}
      → k.at t r ≡ some g
      → k.at t w ≡ some f
      → r ≢ w
      → 1 ≢ w
      → 1 ≢ r
      → (k.at (ls_side k t r w) 1 ≡ some f)
        × (k.at (ls_side k t r w) w ≡ none)
        × (k.at (ls_side k t r w) r ≡ none)
  unfolding ls_side
  ls_side-rewired t r w hr hw n out_w out_r =
      let done = rewire-Rewired k laws t r w 1 hr hw n out_w out_r in
      elim (Bool-cases (w == 1)) [
        | inl e ↦ absurd (out_w (sym (==→eq w 1 e)))
        | inr e ↦ rw (ls_side, e) (done.at_std, done.no_keep, done.no_drop)
      ]

  -- With standard output open, `pipe` and `fork` working and a standard output that takes whatever
  -- it is given: the child has one end of the pipe as its standard output and no other, the parent
  -- only the other end; and the output is all that the reads give, in their order.
  pub pipe_ls-output :
      (t t1 : k.Table) (r w : ℕ) (f : k.File) (source : Reads) (waits : Bool) (write : Writes)
      (out : Bytes)
      → k.pipe t ≡ ok (r, w, t1)
      → k.fork t1 ≡ ok tt
      → k.at t 1 ≡ some f
      → IsWhole write
      → (p : k.Pipe) × (c : k.Table) × ((pipe_ls k t source waits write out).child ≡ some c)
        × (k.at c 1 ≡ some (k.write_end p))
        × (k.at c w ≡ none)
        × (k.at c r ≡ none)
        × (k.at (reader_side k t1 w) r ≡ some (k.read_end p))
        × (k.at (reader_side k t1 w) w ≡ none)
        × ((pipe_ls k t source waits write out).output ≡ out ++ delivered source)
  pipe_ls-output t t1 r w f source waits write out e u o h =
      let (p, q) = laws.pipe_new t r w t1 e in
      let (forks, prints) = pipe_ls-forked t t1 r w source waits write out e u in
      let (std, no_w, no_r) =
        ls_side-rewired t1 r w q.r_now q.w_now q.apart (λ x. absurd cc (x, o, q.w_free))
          (λ x. absurd cc (x, o, q.r_free)) in
      let (t2, c, gone, same) = laws.close_open t1 w q.w_now in
      (
        p,
        ls_side k t1 r w,
        forks,
        std,
        no_w,
        no_r,
        rw c (same r q.apart ∙ q.r_now),
        rw c gone,
        prints ∙ pass_on-whole write out source h,
      )
