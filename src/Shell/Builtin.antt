-- ===== src/Shell/Builtin.antt =====
-- homework/hw5/5-2/builtin.c: the table of built-in commands and what each does.
pub mod Table
pub mod Echo
pub mod Pwd
use linux_programming.Base.{
  ℕ, zero, suc, ◌+◌, ◌*◌, Bool, true, false, List, [], ◌∷◌, ◌++◌, Option, none, some, ◌==◌,
  if◌then◌else◌, get_elem?,
}
use linux_programming.Cstr.{Bytes, codes, streq, is_digit}
use linux_programming.Cstr.Numbers.{decimal, read_digits}
use linux_programming.Kernel.Defs.{Reply, ok, fail}

-- The functions of the table.
pub data Builtin : Type 0 where
  bi_builtin bi_echo bi_quit bi_cd bi_pwd bi_id bi_hostname : Builtin

-- `inbuilts`, without its NULL entry.
abbrev pub inbuilts : List (Bytes × Builtin)
inbuilts =
    (codes "builtin", bi_builtin)
    ∷ (codes "echo", bi_echo)
    ∷ (codes "quit", bi_quit)
    ∷ (codes "exit", bi_quit)
    ∷ (codes "bye", bi_quit)
    ∷ (codes "logout", bi_quit)
    ∷ (codes "cd", bi_cd)
    ∷ (codes "pwd", bi_pwd)
    ∷ (codes "id", bi_id)
    ∷ (codes "hostname", bi_hostname)
    ∷ []

-- The loop of `is_builtin`: the entry that it leaves in `this`.
unfoldable pub find_builtin : List (Bytes × Builtin) → Bytes → Option Builtin
find_builtin [] cmd = none
find_builtin ((keyword, do_it) ∷ entries) cmd =
    if streq keyword cmd then some do_it else find_builtin entries cmd

-- `is_builtin(cmd)` with `this` before it: `this` after it, and the result.
unfoldable pub is_builtin : Option Builtin → Bytes → Option Builtin × Bool
unfolding find_builtin
is_builtin this cmd = elim (find_builtin inbuilts cmd) [
  | none ↦ (this, false)
  | some entry ↦ (some entry, true)
]

-- What the commands ask of the system.
pub record Env : Type 0 where
  pub chdir : Bytes → Reply (Unit {0})
  pub gethostname : Reply Bytes
  pub getuid : ℕ
  pub getgid : ℕ
  pub getcwd : ℕ → Reply Bytes
  pub malloc : ℕ → Bool
  pub strerror : ℕ → Bytes

-- What a command comes to: it printed this on the two streams, the shell ended with this status
-- after it, or what it does is undefined: a NULL pointer or a cell outside `argv` is read.
pub data Effect : Type 0 where
  prints complains : Bytes → Effect
  ends : Bytes → ℕ → Effect
  undefined : Effect

abbrev pub perror : Env → Bytes → ℕ → Bytes
perror env s e = s ++ codes ": " ++ env.strerror e ++ codes "\n"

do_cd : Env → List Bytes → Effect
do_cd env argv = elim (get_elem? argv 1) [
  | none ↦ complains (codes "cd: missing argument\n")
  | some dir ↦ elim (env.chdir dir) [
    | ok u ↦ prints []
    | fail e ↦ complains (perror env (codes "cd") e)
  ]
]

-- The `while (argv[count])` loop.
unfoldable pub echo_words : List Bytes → Bytes
echo_words [] = codes "\n"
echo_words (w ∷ ws) = w ++ codes " " ++ echo_words ws

-- `isdigit(*s)`
abbrev starts_with_digit : Bytes → Bool
starts_with_digit [] = false
starts_with_digit (c ∷ cs) = is_digit c

-- `printf("%s\n", argv[line + 2])`
echo_nth : List Bytes → ℕ → Effect
echo_nth argv line = elim (get_elem? argv (line + 2)) [
  | none ↦ undefined
  | some w ↦ prints (w ++ codes "\n")
]

-- The test of `argv[2]`, once `argv[1]` is "-n".
echo_n : List Bytes → List Bytes → Effect
unfolding echo_words echo_nth
echo_n argv args = elim (get_elem? argv 2) [
  | none ↦ undefined
  | some s ↦
      if starts_with_digit s then echo_nth argv (read_digits 0 s) else prints (echo_words args)
]

unfoldable pub do_echo : List Bytes → Effect
unfolding echo_n echo_words
do_echo [] = undefined
do_echo (name ∷ []) = undefined
do_echo (name ∷ first ∷ rest) =
    if streq first (codes "-n")
    then echo_n (name ∷ first ∷ rest) (first ∷ rest)
    else prints (echo_words (first ∷ rest))

do_hostname : Env → Effect
do_hostname env = elim env.gethostname [
  | ok name ↦ prints (codes "hostname: " ++ name ++ codes "\n")
  | fail e ↦ complains (perror env (codes "gethostname") e)
]

do_id : Env → Effect
do_id env = prints (
    codes "User ID: "
    ++ decimal env.getuid
    ++ codes ", Group ID: "
    ++ decimal env.getgid
    ++ codes "\n")

-- ERANGE
abbrev pub erange : ℕ
erange = 34

-- The `while (1)` loop of `bi_pwd`; none: no fuel left, and the loop has not ended.
unfoldable pub pwd_loop : ℕ → Env → ℕ → Option Effect
pwd_loop zero env size = none
pwd_loop (suc fuel) env size = elim (env.malloc size) [
  | false ↦ some (ends (perror env (codes "malloc") 12) 1)
  | true ↦ elim (env.getcwd size) [
    | ok dir ↦ some (prints (dir ++ codes "\n"))
    | fail e ↦ elim (e == erange) [
      | true ↦ pwd_loop fuel env (size * 2)
      | false ↦ some (ends (perror env (codes "getcwd") e) 1)
    ]
  ]
]

-- The buffer grows from 256 bytes to 2^63 at most: a larger one has no `size_t`.
unfoldable pub do_pwd : Env → Option Effect
unfolding pwd_loop
do_pwd env = pwd_loop 56 env 256

describe : Bool → Bytes → Bytes
describe true cmd = cmd ++ codes " is a builtin feature.\n"
describe false cmd = cmd ++ codes " is not a builtin feature.\n"

do_describe : List Bytes → Effect
unfolding describe is_builtin
do_describe argv = elim (get_elem? argv 1) [
  | none ↦ prints (codes "Usage: builtin [command]\n")
  | some cmd ↦ prints (describe (is_builtin none cmd).1 cmd)
]

-- `this->do_it(argv)`; none: `bi_pwd` has not ended.
unfoldable pub run_builtin : Env → Builtin → List Bytes → Option Effect
unfolding do_describe do_echo do_cd do_pwd do_id do_hostname
run_builtin env bi_builtin argv = some (do_describe argv)
run_builtin env bi_echo argv = some (do_echo argv)
run_builtin env bi_quit argv = some (ends [] 0)
run_builtin env bi_cd argv = some (do_cd env argv)
run_builtin env bi_pwd argv = do_pwd env
run_builtin env bi_id argv = some (do_id env)
run_builtin env bi_hostname argv = some (do_hostname env)

-- `bi_builtin` calls `is_builtin`, which sets `this`.
this_after : Option Builtin → Builtin → List Bytes → Option Builtin
unfolding is_builtin
this_after this bi_builtin argv = elim (get_elem? argv 1) [
  | none ↦ this
  | some cmd ↦ (is_builtin this cmd).0
]
this_after this _ argv = this

-- `do_builtin(argv)`: `this` behind it, and its effect if it ends; with no entry in `this` it
-- reads a NULL pointer.
unfoldable pub do_builtin : Env → Option Builtin → List Bytes → Option Builtin × Option Effect
unfolding run_builtin this_after
do_builtin env none argv = (none, some undefined)
do_builtin env (some entry) argv = (this_after (some entry) entry argv, run_builtin env entry argv)
