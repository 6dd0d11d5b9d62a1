-- ===== src/Popen.antt =====
-- homework/hw6/6-2/popen.c: `custom_popen`, and the program that prints what a command prints.
pub mod Modes
pub mod Lines
mod Tests
use linux_programming.Base.{
  ℕ, zero, suc, ◌+◌, Bool, true, false, List, [], ◌∷◌, ◌++◌, Option, none, some, if◌then◌else◌,
  length, ◌>>=◌, replicate,
}
use linux_programming.Cstr.{Bytes, codes, c_str, streq, strcpy, strcat, fgets}
use linux_programming.Kernel.Defs.{Kernel, Reply, ok, fail, after, rewire}

-- What became of the child: it runs the program of this `argv`, or it ended with status 1.
pub data Fate : Type 0 where
  runs : List Bytes → Fate
  exits : Fate

pub record Child (k : Kernel) : Type 0 where
  pub table : k.Table
  pub fate : Fate

-- After a call of `custom_popen`: the descriptor of the stream that it returns, or NULL, the
-- parent's descriptors, and the child if there is one.
pub record Popened (k : Kernel) : Type 0 where
  pub stream : Option ℕ
  pub table : k.Table
  pub child : Option (Child k)

abbrev pub sh_c : Bytes → List Bytes
sh_c command = codes "sh" ∷ codes "-c" ∷ command ∷ []

module _ (k : Kernel) where
  -- `fdopen`: a stream on a descriptor that is open, NULL on any other.
  abbrev pub fdopen : k.Table → ℕ → Option ℕ
  fdopen t fd = elim (k.at t fd) [ none ↦ none | some f ↦ some fd ]

  -- `execl("/bin/sh", "sh", "-c", command, 0)` and `exit(1)` behind it.
  abbrev exec_shell : k.Table → Bytes → Child k
  exec_shell t command = record {
    table = t;
    fate = elim (k.execvp t (sh_c command)) [ none ↦ runs (sh_c command) | some e ↦ exits ];
  }

  -- `case 0`; `r` and `w` are `pd[0]` and `pd[1]`.
  unfoldable pub child_side : k.Table → ℕ → ℕ → Bytes → Bytes → Child k
  unfolding rewire
  child_side t r w command mode =
      if streq mode (codes "r")
      then exec_shell (rewire k t r w 1) command
      else if streq mode (codes "w")
      then exec_shell (rewire k t r r 0) command
      else record { table = after k t (k.close t r); fate = exits }

  -- A stream on `fd`, which is closed again where there is none.
  abbrev with_stream : k.Table → ℕ → Child k → Option ℕ → Popened k
  with_stream t fd c none = record {
    stream = none;
    table = after k t (k.close t fd);
    child = some c;
  }
  with_stream t fd c (some s) = record { stream = some s; table = t; child = some c }

  -- `default`
  unfoldable pub parent_side : k.Table → ℕ → ℕ → Bytes → Child k → Popened k
  parent_side t r w mode c =
      let t1 = after k t (k.close t w) in
      if streq mode (codes "r")
      then with_stream t1 r c (fdopen t1 r)
      else if streq mode (codes "w")
      then with_stream t1 w c (fdopen t1 w)
      else record { stream = none; table = t1; child = some c }

  unfoldable pub custom_popen : k.Table → Bytes → Bytes → Popened k
  unfolding child_side parent_side
  custom_popen t command mode = elim (k.pipe t) [
    | fail e ↦ record { stream = none; table = t; child = none }
    | ok (r, w, t') ↦ elim (k.fork t') [
      | fail e ↦ record { stream = none; table = t'; child = none }
      | ok u ↦ parent_side t' r w mode (child_side t' r w command mode)
    ]
  ]

-- sizeof(command)
abbrev command_size : ℕ
command_size = 32

-- The `for` that adds the arguments; none is a write past the array.
unfoldable add_arguments : Bytes → List Bytes → Option Bytes
unfolding strcat
add_arguments command [] = some command
add_arguments command (a ∷ args) = do
  spaced ← strcat command (codes " ")
  added ← strcat spaced a
  add_arguments added args

-- The command that `main` makes of `argv[1]` and what follows it.
unfoldable pub build_command : Bytes → Bytes → List Bytes → Option Bytes
unfolding add_arguments strcpy
build_command array a args = do command ← strcpy array a; add_arguments command args

-- The `while (fgets(...))` of `main` on what the command prints: what is printed in turn; none
-- stands for no fuel left.
unfoldable pub print_lines : ℕ → Bytes → Option Bytes
unfolding fgets c_str
print_lines zero stream = none
print_lines (suc fuel) stream = elim (fgets 256 stream) [
  | none ↦ some []
  | some (line, rest) ↦ elim (print_lines fuel rest) [
    | none ↦ none
    | some out ↦ some (c_str line ++ out)
  ]
]

-- `custom_pclose`, where the `fclose` works or not, and `waitpid` gives a status or -1.
unfoldable pub custom_pclose : Bool → Option ℕ → Option ℕ
custom_pclose closes waited = if closes then waited else none

-- What `main` returns, and what it has printed.
pub record Finish : Type 0 where
  pub status : ℕ
  pub printed : Bytes

abbrev pub status_of : Option ℕ → ℕ
status_of none = 1
status_of (some s) = 0

-- `main`, for what the command's array holds at first, the arguments, what the child prints into
-- the pipe, and the calls of `custom_pclose`. `none`: a write past the array.
unfoldable pub main :
    (k : Kernel) → k.Table → Bytes → Bytes → List Bytes → Bytes → Bool → Option ℕ → Option Finish
unfolding build_command custom_popen print_lines custom_pclose c_str
main k t array a args output closes waited = elim (build_command array a args) [
  | none ↦ none
  | some command ↦ elim (custom_popen k t (c_str command) (codes "r")).stream [
    | none ↦ some (record { status = 1; printed = [] })
    | some fd ↦ elim (print_lines (suc (length output)) output) [
      | none ↦ none
      | some printed ↦
          some (record { status = status_of (custom_pclose closes waited); printed = printed })
    ]
  ]
]
