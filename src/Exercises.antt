-- ===== src/Exercises.antt =====
-- Programs of homework/hw5/5-1: printdir.c, mycat.c and pipe_ls.c.
pub mod Size
pub mod Listing
mod Tests
use linux_programming.Base.{
  ℕ, zero, suc, ◌*◌, Bool, true, false, List, [], ◌∷◌, ◌++◌, Option, none, some, ◌==◌,
  if◌then◌else◌, take,
}
use linux_programming.Cstr.{Bytes, codes}
use linux_programming.Kernel.Defs.{Kernel, Reply, ok, fail, after, rewire}
use linux_programming.Shell.Builtin.{erange}
use linux_programming.Copy.{Reads, eof, broken, piece, Writes}

-- How printdir.c ends: with the directory that it prints and the size of its last buffer, or with
-- status EXIT_FAILURE.
pub data Printed : Type 0 where
  printed : Bytes → ℕ → Printed
  failed : Printed

-- The loop, on fuel: whether `malloc` gives so many bytes, and what `getcwd` gives for a size.
unfoldable pub print_dir : (ℕ → Bool) → (ℕ → Reply Bytes) → ℕ → ℕ → Option Printed
print_dir malloc getcwd zero size = none
print_dir malloc getcwd (suc fuel) size =
    let doubled = print_dir malloc getcwd fuel (size * 2) in
    if malloc size
    then (elim (getcwd size) [
      | ok dir ↦ some (printed dir size)
      | fail e ↦ if e == erange then doubled else some failed
    ])
    else some failed

-- The loop of mycat.c and of pipe_ls.c's parent, with what standard output holds already. It ends
-- where `read` gives no bytes or fails; what `write` returns is not looked at.
unfoldable pub pass_on : Writes → Bytes → Reads → Bytes
pass_on write out eof = out
pass_on write out (broken e) = out
pass_on write out (piece b bs rest) = elim (write out (b ∷ bs)) [
  | fail e ↦ pass_on write out rest
  | ok n ↦ pass_on write (out ++ take n (b ∷ bs)) rest
]

-- `main` of mycat.c: the status and the output, on the number of arguments and the file as it is
-- opened.
unfoldable pub mycat : ℕ → Reply Reads → Writes → Bytes → ℕ × Bytes
unfolding pass_on
mycat argc file write out =
    if argc == 2
    then (elim file [ fail e ↦ (1, out) | ok source ↦ (0, pass_on write out source) ])
    else (1, out)

-- "ls", "-l", "/etc"
abbrev pub ls_argv : List Bytes
ls_argv = codes "ls" ∷ codes "-l" ∷ codes "/etc" ∷ []

module _ (k : Kernel) where
  -- The child of pipe_ls.c up to `execlp`, for the descriptors of the pipe.
  unfoldable pub ls_side : k.Table → ℕ → ℕ → k.Table
  unfolding rewire
  ls_side t r w = if w == 1 then after k t (k.close t r) else rewire k t r w 1

  -- The parent in its loop.
  abbrev pub reader_side : k.Table → ℕ → k.Table
  reader_side t w = after k t (k.close t w)

  -- How pipe_ls.c ends: its status and its output, with the table of the child.
  pub record Listed : Type 0 where
    pub status : ℕ
    pub output : Bytes
    pub child : Option k.Table

  -- `main` of pipe_ls.c, where the reads give `source` and `waitpid` works or not.
  unfoldable pub pipe_ls : k.Table → Reads → Bool → Writes → Bytes → Listed
  unfolding ls_side pass_on
  pipe_ls t source waits write out = elim (k.pipe t) [
    | fail e ↦ record { status = 1; output = out; child = none }
    | ok (r, w, t1) ↦ elim (k.fork t1) [
      | fail e ↦ record { status = 1; output = out; child = none }
      | ok u ↦ record {
        status = if waits then 0 else 1;
        output = pass_on write out source;
        child = some (ls_side t1 r w);
      }
    ]
  ]
