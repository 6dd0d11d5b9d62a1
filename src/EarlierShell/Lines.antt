-- ===== src/EarlierShell/Lines.antt =====
-- `main` of the first shell, line by line.
use linux_programming.Base.{
  ℕ, zero, suc, ◌+◌, ◌<◌, ◌≡◌, refl, sym, ap, ◌∙◌, List, [], ◌∷◌, ◌++◌, Option, none, some, arith,
  length, All,
}
use linux_programming.Cstr.{Bytes, c_str, newline}
use linux_programming.Cstr.Streams.{fgets-line}
use linux_programming.Cstr.Tokens.{words, strtok-Yields}
use linux_programming.Kernel.Defs.{Reply}
use linux_programming.Shell.Parse.{is_delim}
use linux_programming.Shell.Parse
use linux_programming.Shell.Parse.Loop
use linux_programming.Shell.Parse.Loop.{argv_of, parse_from-words, free_argv-slots_of}
use linux_programming.Shell.Session.Lines.{text_of, Fits, length-text_of, words_of_line}
use linux_programming.EarlierShell.{
  Action, Ending, exit_status, Next, goes_on, parse, dispatch, step_line, session, main, prompt,
}

-- `parse` cuts every line into its words, as the later shell's does.
pub parse-words : (line : Bytes) → parse (some line) ≡ some (argv_of (words is_delim line))
unfolding parse
parse-words line =
    parse_from-words (length line + 1) line _ (strtok-Yields is_delim line) (omega arith)

-- The two shells cut every line alike.
parse-equals : (line : Bytes) → parse (some line) ≡ Parse.parse (some line)
parse-equals line = parse-words line ∙ sym (Loop.parse-words line)

-- What a line with these words comes to: nothing without words, else the dispatch of them.
unfoldable pub line_of_words : Reply ℕ → List Action → List Bytes → Next
line_of_words forked log [] = goes_on log
line_of_words forked log (w ∷ ws) = dispatch forked log (w ∷ ws)

step_argv :
    (forked : Reply ℕ) (log : List Action) (line : Bytes) (ws : List Bytes)
    → parse (some (c_str line)) ≡ some (argv_of ws)
    → step_line forked log line ≡ line_of_words forked log ws
unfolding step_line line_of_words
step_argv forked log line [] e = rw (e, step_line) refl
step_argv forked log line (w ∷ ws) e = rw (e, step_line) (rw (free_argv-slots_of (w ∷ ws)) refl)

module _ (forks : List Action → Reply ℕ) where
  -- The commands of a list of lines, one by one, with a prompt behind each.
  unfoldable pub answer_lines : List Action → List Bytes → List Action × Ending
  answer_lines log [] = (log, exit_status 0)
  answer_lines log (l ∷ ls) =
      let next = line_of_words (forks log) log (words is_delim (c_str l)) in
      let rest = answer_lines (next.log ++ prompt ∷ []) ls in
      elim next.over [ none ↦ rest | some e ↦ (next.log, e) ]

  step_line-newline :
      (log : List Action) (l : Bytes)
      → step_line (forks log) log (l ++ newline ∷ [])
        ≡ line_of_words (forks log) log (words is_delim (c_str l))
  step_line-newline log l =
      step_argv (forks log) log (l ++ newline ∷ []) (words is_delim (c_str (l ++ newline ∷ [])))
        (parse-words (c_str (l ++ newline ∷ [])))
      ∙ ap (line_of_words (forks log) log) (words_of_line l)

  one_line :
      (fuel : ℕ) (log : List Action) (l : Bytes) (ls : List Bytes) (o : Option Ending)
      → Fits l
      → (line_of_words (forks log) log (words is_delim (c_str l))).over ≡ o
      → ((log' : List Action) → session fuel forks log' (text_of ls) ≡ some (answer_lines log' ls))
      → session (suc fuel) forks log (text_of (l ∷ ls)) ≡ some (answer_lines log (l ∷ ls))
  unfolding session answer_lines
  one_line fuel log l ls none f e h =
      rw (fgets-line 254 l (text_of ls) f.0 f.1, session)
        (rw (step_line-newline log l) (rw (e, answer_lines) (rw (step_line-newline log l) (h _))))
  one_line fuel log l ls (some x) f e h =
      rw (fgets-line 254 l (text_of ls) f.0 f.1, session)
        (rw (step_line-newline log l) (rw (e, answer_lines) (rw (step_line-newline log l) refl)))

  session-answer_lines :
      (ls : List Bytes) (fuel : ℕ) (log : List Action)
      → All Fits ls
      → length ls < fuel
      → session fuel forks log (text_of ls) ≡ some (answer_lines log ls)
  session-answer_lines ls zero log h f = absurd (omega arith)
  session-answer_lines [] (suc fuel) log h f = unfold session answer_lines in refl
  session-answer_lines (l ∷ ls) (suc fuel) log h f =
      one_line fuel log l ls _ h.0 refl
        (λ log'. session-answer_lines ls fuel log' h.1 (omega arith))

  -- On a text of lines of fewer than 254 bytes, `main` prints a prompt and deals with the lines in
  -- order, each up to its first NUL if it has one and followed by a prompt: a line without words
  -- does nothing, any other has its words listed and dispatched; it exits with 0 behind the last
  -- line, or earlier with the line that ends the shell.
  pub main-answer_lines :
      (ls : List Bytes)
      → All Fits ls
      → main forks (text_of ls) ≡ some (answer_lines (prompt ∷ []) ls)
  main-answer_lines ls h =
      unfold main in
      session-answer_lines ls (length (text_of ls) + 1) (prompt ∷ []) h
        (omega (arith, length-text_of ls))
