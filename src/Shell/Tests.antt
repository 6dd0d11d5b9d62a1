-- ===== src/Shell/Tests.antt =====
-- Runs of the shell on small inputs, and each theorem at a concrete one.
use linux_programming.Base.{
  ◌≡◌, refl, true, false, List, [], ◌∷◌, ◌++◌, none, some, arith, length, ltb, if◌then◌else◌,
  lt→ltb, le→ltb, inr,
}
use linux_programming.Cstr.{Bytes, codes}
use linux_programming.Cstr.Tokens.{words}
use linux_programming.Kernel.Defs.{ok, fail, reads}
use linux_programming.Kernel.Simulated.{simulated, simulated-Laws, SimTable, terminal, put, named}
use linux_programming.Shell.Parse.{is_delim, parse}
use linux_programming.Shell.Parse.Loop.{argv_of, slots_of, parse-words}
use linux_programming.Shell.Parse.RoundTrip.{Spaced, parse-spaced}
use linux_programming.Shell.Argv.{bar, pipe_present}
use linux_programming.Shell.Argv.Split.{pipe_present-append}
use linux_programming.Shell.Redirect.{redirect_in}
use linux_programming.Shell.Redirect.Effect.{Replaced, redirect_in-Replaced}
use linux_programming.Shell.Pipeline.{Process, pipe_and_exec}
use linux_programming.Shell.Pipeline.Fuel.{Ends, pipe_and_exec-Ends}
use linux_programming.Shell.Pipeline.Topology.{Willing, Runs, pipe_and_exec-Chain}
use linux_programming.Shell.Run.{exited, run_child}
use linux_programming.Shell.Run.Commands.{run_child-Ends}
use linux_programming.Shell.Builtin.{Env, prints, erange, do_pwd}
use linux_programming.Shell.Builtin.Pwd.{Getcwd, do_pwd-prints}
use linux_programming.Shell.Session.{Action, System, Ending, main}
use linux_programming.Shell.Session.Lines.{main-Ends, main-run_lines, run_lines, text_of}

abbrev line : Bytes
line = codes "ls -l | wc\n"

abbrev ls_l : List Bytes
ls_l = codes "ls" ∷ codes "-l" ∷ []

abbrev wc : List Bytes
wc = codes "wc" ∷ []

words-line : words is_delim line ≡ codes "ls" ∷ codes "-l" ∷ codes "|" ∷ codes "wc" ∷ []
unfolding words is_delim
words-line = refl

parse-line : parse (some line) ≡ some (some (slots_of (ls_l ++ codes "|" ∷ wc)))
unfolding parse is_delim
parse-line = refl

parse-words_example : parse (some line) ≡ some (argv_of (words is_delim line))
parse-words_example = parse-words line

abbrev echo_word : Spaced
echo_word = record { word = codes "hi"; mark = b' '; blank = codes " \t" }

parse-spaced_example : parse (some (codes " " ++ codes "hi  \t")) ≡ some (argv_of (codes "hi" ∷ []))
unfolding is_delim
parse-spaced_example = parse-spaced (codes " ") (echo_word ∷ []) (ground arith) (ground arith)

pipe_present-append_example : pipe_present (ls_l ++ bar ∷ wc) ≡ some 2
pipe_present-append_example = pipe_present-append ls_l wc (ground arith)

abbrev std : SimTable
std = some terminal ∷ some terminal ∷ some terminal ∷ []

abbrev willing : Willing simulated
willing = record { pipes = λ t. (_, _, _, refl); forks = λ t. refl; execs = λ t argv. refl }

pipe_and_exec-Chain_example :
    Runs simulated simulated-Laws willing std
      (ls_l ∷ wc ∷ [])
      (pipe_and_exec simulated 5 std (ls_l ++ bar ∷ wc))
pipe_and_exec-Chain_example =
    pipe_and_exec-Chain simulated simulated-Laws willing 5 std ls_l (wc ∷ [])
      ((terminal, refl), (terminal, refl)) (ground arith) (omega arith)

pipe_and_exec-Ends_example : Ends simulated (pipe_and_exec simulated 5 std (ls_l ++ bar ∷ wc))
pipe_and_exec-Ends_example = pipe_and_exec-Ends simulated 5 std (ls_l ++ bar ∷ wc) (omega arith)

-- A descriptor table with the file `in` opened, as `open` leaves it.
abbrev opened : SimTable
opened = put std 3 (some (named (codes "in") reads))

redirect_in-Replaced_example :
    (f : _) × (simulated.at opened 3 ≡ some f)
    × Replaced simulated std wc 0 3 f
        (redirect_in simulated std (wc ++ codes "<" ∷ codes "in" ∷ codes ">" ∷ codes "out" ∷ []))
redirect_in-Replaced_example =
    redirect_in-Replaced simulated simulated-Laws std wc (codes ">" ∷ codes "out" ∷ []) (codes "in")
      3 opened {g = terminal} (ground arith) refl refl

run_child-Ends_example :
    (ps : List (Process simulated)) × (run_child simulated std (ls_l ++ bar ∷ wc) ≡ some ps)
run_child-Ends_example = run_child-Ends simulated std (ls_l ++ bar ∷ wc)

-- An environment in the directory `dir`.
abbrev in_dir : Bytes → Env
in_dir dir = record {
  chdir = λ d. ok tt;
  gethostname = ok (codes "box");
  getuid = 1000;
  getgid = 100;
  getcwd = λ size. if ltb (length dir) size then ok dir else fail erange;
  malloc = λ n. true;
  strerror = λ e. codes "?";
}

abbrev home : Bytes
home = codes "/home"

home-Getcwd : Getcwd (in_dir home) home
home-Getcwd = record {
  fits = λ size h. rw (lt→ltb 5 size h) refl;
  too_long = λ size h. rw (le→ltb 5 size h) refl;
  allocates = λ size. refl;
}

do_pwd-prints_example : do_pwd (in_dir home) ≡ some (prints (home ++ codes "\n"))
do_pwd-prints_example = do_pwd-prints (in_dir home) home home-Getcwd (omega arith)

abbrev system : System
system = record { env = in_dir home; unspecified = false; fork = ok 7; status = exited 0 }

main-Ends_example : (e : List Action × Ending) × (main (λ h. system) line ≡ some e)
main-Ends_example = main-Ends (λ h. system) line (λ log. (0, omega arith, inr (λ e. cc)))

main-run_lines_example :
    main (λ h. system) (text_of (codes "pwd" ∷ codes "exit" ∷ []))
    ≡ run_lines (λ h. system) (record { this = none; log = [] }) (codes "pwd" ∷ codes "exit" ∷ [])
main-run_lines_example =
    main-run_lines (λ h. system) (codes "pwd" ∷ codes "exit" ∷ []) (ground arith)
