-- ===== src/EarlierShell/Tests.antt =====
-- The first shell on three lines.
use linux_programming.Base.{◌≡◌, refl, [], ◌∷◌, some, none, true, false, arith}
use linux_programming.Cstr.{codes, c_str, streq}
use linux_programming.Cstr.Numbers.{decimal}
use linux_programming.Cstr.Tokens.{words}
use linux_programming.Kernel.Defs.{ok}
use linux_programming.Shell.Parse.{is_delim}
use linux_programming.Shell.Session.Lines.{text_of}
use linux_programming.EarlierShell.{
  prints, runs, exit_status, prompt, main, dispatch, do_echo, run_command, goes_on,
}
use linux_programming.EarlierShell.Lines.{answer_lines, line_of_words, main-answer_lines}

-- The "&" goes to the program.
background_argv :
    run_command (ok 1) [] (codes "ls" ∷ codes "&" ∷ [])
    ≡ goes_on (runs (codes "ls" ∷ codes "&" ∷ []) false ∷ [])
unfolding run_command streq
background_argv = refl

-- The name of the command is printed as well.
echo_echo : do_echo (codes "echo" ∷ codes "a" ∷ []) ≡ some (codes "echo a \n")
unfolding do_echo streq
echo_echo = refl

echo_n : do_echo (codes "echo" ∷ codes "-n" ∷ []) ≡ none
unfolding do_echo streq
echo_n = refl

main-answer_lines_example :
    main (λ log. ok 1) (text_of (codes "ls a" ∷ codes " " ∷ codes "bye" ∷ []))
    ≡ some (answer_lines (λ log. ok 1) (prompt ∷ []) (codes "ls a" ∷ codes " " ∷ codes "bye" ∷ []))
main-answer_lines_example =
    main-answer_lines (λ log. ok 1) (codes "ls a" ∷ codes " " ∷ codes "bye" ∷ []) (ground arith)

answer_lines_three :
    answer_lines (λ log. ok 1) (prompt ∷ []) (codes "ls a" ∷ codes " " ∷ codes "bye" ∷ []) ≡ (
      prompt
          ∷ prints (codes "[0] : ls\n[1] : a\n")
          ∷ runs (codes "ls" ∷ codes "a" ∷ []) true
          ∷ prompt
          ∷ prompt
          ∷ prints (codes "[0] : bye\n")
          ∷ [],
      exit_status 0,
    )
unfolding answer_lines c_str streq decimal line_of_words words is_delim dispatch
answer_lines_three = refl
