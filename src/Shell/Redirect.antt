-- ===== src/Shell/Redirect.antt =====
-- homework/hw5/5-2: redirect_in.c and redirect_out.c.
pub mod Effect
use linux_programming.Base.{
  ℕ, zero, suc, ◌+◌, Bool, true, false, List, [], ◌∷◌, Option, none, some, get_elem?, take,
}
use linux_programming.Cstr.{Bytes, codes}
use linux_programming.Kernel.Defs.{Kernel, Mode, reads, writes, Reply, ok, fail}
use linux_programming.Shell.Argv.{find_from}

-- The descriptors and the argument array that a call leaves; `done` is a result of 0, not -1.
pub record Redirected (k : Kernel) : Type 0 where
  pub table : k.Table
  pub argv : List Bytes
  pub done : Bool

module _ (k : Kernel) where
  abbrev gave_up : k.Table → List Bytes → Redirected k
  gave_up t argv = record { table = t; argv = argv; done = false }

  -- The steps 3) and 4) once descriptor `fd` is open at `std` too.
  finish_redirect : List Bytes → ℕ → ℕ → k.Table → Redirected k
  finish_redirect argv i fd t = elim (k.close t fd) [
    | fail e ↦ gave_up t argv
    | ok t' ↦ record { table = t'; argv = take i argv; done = true }
  ]

  -- The steps 1) and 2), for the mark at index `i`.
  redirect_at : Mode → ℕ → k.Table → List Bytes → ℕ → Redirected k
  unfolding finish_redirect
  redirect_at mode std t argv i = elim (k.open_file t (get_elem? argv (i + 1)) mode) [
    | fail e ↦ gave_up t argv
    | ok (fd, t1) ↦ elim (k.dup2 t1 fd std) [
      | fail e ↦ gave_up t1 argv
      | ok t2 ↦ finish_redirect argv i fd t2
    ]
  ]

  redirect : Bytes → Mode → ℕ → k.Table → List Bytes → Redirected k
  unfolding redirect_at
  redirect mark mode std t argv = elim (find_from mark 0 argv) [
    | none ↦ gave_up t argv
    | some i ↦ redirect_at mode std t argv i
  ]

  unfoldable pub redirect_in : k.Table → List Bytes → Redirected k
  unfolding redirect
  redirect_in t argv = redirect (codes "<") reads 0 t argv

  unfoldable pub redirect_out : k.Table → List Bytes → Redirected k
  unfolding redirect
  redirect_out t argv = redirect (codes ">") writes 1 t argv
