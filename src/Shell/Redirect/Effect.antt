-- ===== src/Shell/Redirect/Effect.antt =====
-- What a redirection leaves of the descriptors and of the command line.
use linux_programming.Base.{
  ℕ, suc, ◌+◌, ◌≡◌, ◌≢◌, refl, sym, ap, ◌∙◌, true, false, List, [], ◌∷◌, ◌++◌, Option, none, some,
  arith, length, get_elem?, take, take-append,
}
use linux_programming.Cstr.{Bytes, codes}
use linux_programming.Kernel.Defs.{Kernel, Laws, Mode, reads, writes, ok}
use linux_programming.Shell.Argv.{find_from}
use linux_programming.Shell.Argv.Split.{Lacks, find_from-append, find_from-Lacks}
use linux_programming.Shell.Redirect.{
  Redirected, finish_redirect, redirect_at, redirect, redirect_in, redirect_out,
}

-- The file is at `std`, the descriptor that `open` gave is free again, the others are as before,
-- and the command line ends where the mark stood.
pub record Replaced (k : Kernel) (t : k.Table) (pre : List Bytes) (std fd : ℕ) (f : k.File)
    (r : Redirected k) : Type 0 where
  pub worked : r.done ≡ true
  pub cut : r.argv ≡ pre
  pub at_std : k.at r.table std ≡ some f
  pub closed : k.at r.table fd ≡ none
  pub kept : (d : ℕ) → d ≢ std → d ≢ fd → k.at r.table d ≡ k.at t d

get_elem?-next :
    (pre post : List Bytes) (mark name : Bytes) (i : ℕ)
    → i ≡ length pre
    → get_elem? (pre ++ mark ∷ name ∷ post) (suc i) ≡ some name
get_elem?-next [] post mark name i e = rw e refl
get_elem?-next (w ∷ pre) post mark name i e =
    rw e (get_elem?-next pre post mark name (length pre) refl)

some-ne-none {ℓ} : {A : Type ℓ} {o : Option A} {a : A} → o ≡ none → o ≡ some a → ⊥
some-ne-none p q = cc

module _ (k : Kernel) where
  redirect-Lacks :
      (mark : Bytes) (mode : Mode) (std : ℕ) (t : k.Table) (argv : List Bytes)
      → Lacks mark argv
      → redirect k mark mode std t argv ≡ record { table = t; argv = argv; done = false }
  unfolding redirect
  redirect-Lacks mark mode std t argv l = rw (find_from-Lacks mark 0 argv l, redirect) refl

  pub redirect_in-Lacks :
      (t : k.Table) (argv : List Bytes)
      → Lacks (codes "<") argv
      → redirect_in k t argv ≡ record { table = t; argv = argv; done = false }
  unfolding redirect_in
  redirect_in-Lacks = redirect-Lacks (codes "<") reads 0

  pub redirect_out-Lacks :
      (t : k.Table) (argv : List Bytes)
      → Lacks (codes ">") argv
      → redirect_out k t argv ≡ record { table = t; argv = argv; done = false }
  unfolding redirect_out
  redirect_out-Lacks = redirect-Lacks (codes ">") writes 1

module _ (k : Kernel) (laws : Laws k) where
  redirect_at-Replaced :
      (mode : Mode) (std : ℕ) (t : k.Table) (argv pre : List Bytes) (i : ℕ) {g : k.File} (fd : ℕ)
      (t' : k.Table)
      → k.at t std ≡ some g
      → k.open_file t (get_elem? argv (i + 1)) mode ≡ ok (fd, t')
      → take i argv ≡ pre
      → (f : k.File) × (k.at t' fd ≡ some f)
        × Replaced k t pre std fd f (redirect_at k mode std t argv i)
  unfolding redirect_at
  redirect_at-Replaced mode std t argv pre i fd t' live o cuts =
      let (f, new) = laws.open_new t _ mode fd t' o in
      let apart : std ≢ fd = λ e. some-ne-none (new.was_free) (ap (k.at t) (sym e) ∙ live) in
      let (t2, e2, set, same2) = laws.dup2_open t' fd std new.now in
      let (t3, e3, freed, same3) =
        laws.close_open t2 fd (same2 fd (λ e. apart (sym e)) ∙ new.now) in
      (
        f,
        new.now,
        rw (o, redirect_at, e2, finish_redirect, e3)
            (record {
              worked = refl;
              cut = cuts;
              at_std = same3 std apart ∙ set;
              closed = freed;
              kept = λ d ns nf. same3 d nf ∙ same2 d ns ∙ new.kept d nf;
            }),
      )

  redirect-Replaced :
      (mark : Bytes) (mode : Mode) (std : ℕ) (t : k.Table) (pre post : List Bytes) (name : Bytes)
      (fd : ℕ) (t' : k.Table) {g : k.File}
      → Lacks mark pre
      → k.at t std ≡ some g
      → k.open_file t (some name) mode ≡ ok (fd, t')
      → (f : k.File) × (k.at t' fd ≡ some f)
        × Replaced k t pre std fd f (redirect k mark mode std t (pre ++ mark ∷ name ∷ post))
  unfolding redirect
  redirect-Replaced mark mode std t pre post name fd t' l live o =
      let argv = pre ++ mark ∷ name ∷ post in
      let here : find_from mark 0 argv ≡ some (length pre) =
        find_from-append mark 0 pre (name ∷ post) l ∙ ap some (omega arith) in
      let arg : get_elem? argv (length pre + 1) ≡ some name =
        ap (get_elem? argv) (omega arith) ∙ get_elem?-next pre post mark name (length pre) refl in
      rw (here, redirect)
        (redirect_at-Replaced mode std t argv pre (length pre) fd t' live
          (ap (λ a. k.open_file t a mode) arg ∙ o) (take-append pre (mark ∷ name ∷ post)))

  -- With standard input open, and if the file named behind the first "<" opens: `redirect_in`
  -- puts that file at descriptor 0, closes the descriptor that `open` gave, leaves all others
  -- alone, and ends the command line where the "<" stood.
  pub redirect_in-Replaced :
      (t : k.Table) (pre post : List Bytes) (name : Bytes) (fd : ℕ) (t' : k.Table) {g : k.File}
      → Lacks (codes "<") pre
      → k.at t 0 ≡ some g
      → k.open_file t (some name) reads ≡ ok (fd, t')
      → (f : k.File) × (k.at t' fd ≡ some f)
        × Replaced k t pre 0 fd f (redirect_in k t (pre ++ codes "<" ∷ name ∷ post))
  unfolding redirect_in
  redirect_in-Replaced = redirect-Replaced (codes "<") reads 0

  -- The same of `redirect_out`: the first ">", standard output and descriptor 1.
  pub redirect_out-Replaced :
      (t : k.Table) (pre post : List Bytes) (name : Bytes) (fd : ℕ) (t' : k.Table) {g : k.File}
      → Lacks (codes ">") pre
      → k.at t 1 ≡ some g
      → k.open_file t (some name) writes ≡ ok (fd, t')
      → (f : k.File) × (k.at t' fd ≡ some f)
        × Replaced k t pre 1 fd f (redirect_out k t (pre ++ codes ">" ∷ name ∷ post))
  unfolding redirect_out
  redirect_out-Replaced = redirect-Replaced (codes ">") writes 1

  -- Where "<" stands in front of the first ">", a `redirect_in` that succeeds takes the output
  -- redirection away: `redirect_out` on what is left opens nothing and changes no descriptor.
  pub redirect_out-lost :
      (t : k.Table) (pre post : List Bytes) (name : Bytes) (fd : ℕ) (t' : k.Table) {g : k.File}
      → Lacks (codes "<") pre
      → Lacks (codes ">") pre
      → k.at t 0 ≡ some g
      → k.open_file t (some name) reads ≡ ok (fd, t')
      → let r = redirect_in k t (pre ++ codes "<" ∷ name ∷ post) in
        redirect_out k r.table r.argv ≡ record { table = r.table; argv = pre; done = false }
  redirect_out-lost t pre post name fd t' l m live o =
      let r = redirect_in k t (pre ++ codes "<" ∷ name ∷ post) in
      let cut = (redirect_in-Replaced t pre post name fd t' l live o).2.cut in
      rw cut (redirect_out-Lacks k r.table pre m)
