-- ===== src/EarlierShell.antt =====
-- homework/hw3/3-1: the first shell, which runs one program for a line and prints the words that it
-- has read.
pub mod Lines
mod Tests
use linux_programming.Base.{
  ℕ, zero, suc, ◌+◌, Bool, true, false, ◌&&◌, not, List, [], ◌∷◌, ◌++◌, Option, none, some, length,
  get_elem?, if◌then◌else◌,
}
use linux_programming.Cstr.{Bytes, codes, c_str, streq, strtok, fgets, is_digit}
use linux_programming.Cstr.Numbers.{decimal, read_digits}
use linux_programming.Kernel.Defs.{Reply, ok, fail}
use linux_programming.Shell.Parse.{Slot, is_delim, parse_from, free_argv}

-- `parse(line)`: after the test for NULL as in homework 5, with no test for an empty line.
unfoldable pub parse : Option Bytes → Option (Option (List Slot))
unfolding parse_from
parse none = some none
parse (some line) = parse_from (length line + 1) (strtok is_delim line)

-- The last loop of `parse`, from an index on.
unfoldable listing : ℕ → List Bytes → Bytes
listing i [] = []
listing i (w ∷ ws) = codes "[" ++ decimal i ++ codes "] : " ++ w ++ codes "\n" ++ listing (suc i) ws

-- The functions of the table, and the table without its NULL entry.
pub data Builtin : Type 0 where
  bi_exit bi_echo : Builtin

abbrev pub inbuilts : List (Bytes × Builtin)
inbuilts =
    (codes "quit", bi_exit)
    ∷ (codes "exit", bi_exit)
    ∷ (codes "logout", bi_exit)
    ∷ (codes "bye", bi_exit)
    ∷ (codes "echo", bi_echo)
    ∷ []

-- The loop of `is_builtin`: the entry that it leaves in `this`.
unfoldable pub find_builtin : List (Bytes × Builtin) → Bytes → Option Builtin
find_builtin [] cmd = none
find_builtin ((keyword, do_it) ∷ entries) cmd =
    if streq keyword cmd then some do_it else find_builtin entries cmd

-- The `while (argv[count])` loop of `bi_echo`.
unfoldable pub echo_words : List Bytes → Bytes
echo_words [] = codes "\n"
echo_words (w ∷ ws) = w ++ codes " " ++ echo_words ws

-- `isdigit(*s)`
abbrev pub starts_with_digit : Bytes → Bool
starts_with_digit [] = false
starts_with_digit (c ∷ cs) = is_digit c

-- `argv[line + 2]` and its newline; `none` outside of `argv` or at its NULL.
unfoldable pub echo_nth : List Bytes → ℕ → Option Bytes
echo_nth argv line = elim (get_elem? argv (line + 2)) [
  | none ↦ none
  | some w ↦ some (w ++ codes "\n")
]

-- `bi_echo(argv)`: what it prints; `none` where it reads a NULL pointer or outside of `argv`.
unfoldable pub do_echo : List Bytes → Option Bytes
unfolding echo_words echo_nth
do_echo [] = none
do_echo (name ∷ []) = some (name ++ codes "\n")
do_echo (name ∷ first ∷ rest) =
    let all = some (echo_words (name ∷ first ∷ rest)) in
    if streq first (codes "-n")
    then elim rest [
      | [] ↦ none
      | s ∷ ss ↦
          if starts_with_digit s then echo_nth (name ∷ first ∷ s ∷ ss) (read_digits 0 s) else all
    ]
    else all

-- Whether a word is "&". It is left among the words.
unfoldable pub is_background : List Bytes → Bool
is_background [] = false
is_background (w ∷ ws) = if streq w (codes "&") then true else is_background ws

-- What the shell does: it prints bytes, or it starts a child that runs these words with `execvp`,
-- and waits for one or not.
pub data Action : Type 0 where
  prints : Bytes → Action
  runs : List Bytes → Bool → Action

-- How the shell ends: with a status, or its behaviour is undefined.
pub data Ending : Type 0 where
  exit_status : ℕ → Ending
  crashed : Ending

-- After one line: what was done, and how the shell has ended if it has.
pub record Next : Type 0 where
  pub log : List Action
  pub over : Option Ending

abbrev pub goes_on : List Action → Next
goes_on log = record { log = log; over = none }

abbrev pub ended : List Action → Ending → Next
ended log e = record { log = log; over = some e }

-- `run_command`, where `fork` answers this.
unfoldable pub run_command : Reply ℕ → List Action → List Bytes → Next
unfolding is_background
run_command (fail e) log argv = ended log (exit_status e)
run_command (ok pid) log argv = goes_on (log ++ runs argv (not (is_background argv)) ∷ [])

-- `do_builtin`
unfoldable pub do_builtin : Builtin → List Action → List Bytes → Next
unfolding do_echo
do_builtin bi_exit log argv = ended log (exit_status 0)
do_builtin bi_echo log argv = elim (do_echo argv) [
  | none ↦ ended log crashed
  | some bytes ↦ goes_on (log ++ prints bytes ∷ [])
]

-- The words of a line, once `parse` has printed them.
unfoldable pub dispatch : Reply ℕ → List Action → List Bytes → Next
unfolding find_builtin do_builtin run_command listing
dispatch forked log [] = ended log crashed
dispatch forked log (w ∷ ws) =
    let log' = log ++ prints (listing 0 (w ∷ ws)) ∷ [] in
    elim (find_builtin inbuilts w) [
      | none ↦ run_command forked log' (w ∷ ws)
      | some entry ↦ do_builtin entry log' (w ∷ ws)
    ]

-- One line, which is the string up to its first NUL: `parse`, the command if there is one, and
-- `free_argv`.
unfoldable pub step_line : Reply ℕ → List Action → Bytes → Next
unfolding parse free_argv dispatch c_str
step_line forked log line = elim (parse (some (c_str line))) [
  | none ↦ ended log crashed
  | some r ↦ elim r [
    | none ↦ goes_on log
    | some slots ↦ elim (free_argv slots) [
      | none ↦ ended log crashed
      | some argv ↦ dispatch forked log argv
    ]
  ]
]

-- LONGLINE
abbrev pub longline : ℕ
longline = 255

abbrev pub prompt : Action
prompt = prints (codes "myshell -> ")

-- The loop of `main`; `none`: no fuel left. `fork` may answer from what was done so far.
unfoldable pub session :
    ℕ → (List Action → Reply ℕ) → List Action → Bytes → Option (List Action × Ending)
unfolding fgets step_line
session zero forks log stdin = none
session (suc fuel) forks log stdin = elim (fgets longline stdin) [
  | none ↦ some (log, exit_status 0)
  | some (line, rest) ↦
      let next = step_line (forks log) log line in
      elim next.over [
        | none ↦ session fuel forks (next.log ++ prompt ∷ []) rest
        | some e ↦ some (next.log, e)
      ]
]

-- `main`, with one round for each byte of standard input and one more.
unfoldable pub main : (List Action → Reply ℕ) → Bytes → Option (List Action × Ending)
unfolding session
main forks stdin = session (length stdin + 1) forks (prompt ∷ []) stdin
