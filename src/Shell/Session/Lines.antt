-- ===== src/Shell/Session/Lines.antt =====
-- `main` of shell.c, line by line.
use linux_programming.Base.{
  ℕ, zero, suc, ◌+◌, ◌<◌, ◌≤◌, ◌≡◌, refl, ap, ◌∙◌, inl, inr, List, [], ◌∷◌, ◌++◌, Option, none,
  some, arith, length, All, Bool-cases, Option-cases, length-append,
}
use linux_programming.Cstr.{Bytes, c_str, fgets, newline}
use linux_programming.Cstr.Arrays.{c_str-newline}
use linux_programming.Cstr.Streams.{fgets-shorter, fgets-line, IsLine}
use linux_programming.Cstr.Tokens.{words, words-end}
use linux_programming.Shell.Parse.{is_delim, parse}
use linux_programming.Shell.Parse.Loop.{argv_of, parse-words, free_argv-slots_of}
use linux_programming.Shell.Builtin.{
  Builtin, Effect, prints, complains, ends, undefined, is_builtin, do_builtin,
}
use linux_programming.Shell.Builtin.Pwd.{PwdEnds, Yields, do_builtin-Yields}
use linux_programming.Shell.Run.{Parent, exits_with, in_background, waited}
use linux_programming.Shell.Session.{
  Action, built, System, Ending, exit_status, Shell, Next, goes_on, over, hangs, note, settle,
  settle_built, settle_parent, dispatch, step_line, session, main, longline,
}

-- What a line with these words comes to: nothing without words, else the dispatch of them.
pub line_of_words : System → Shell → List Bytes → Next
line_of_words sys s [] = goes_on s
line_of_words sys s (w ∷ ws) = dispatch sys s (w ∷ ws)

step_argv :
    (sys : System) (s : Shell) (line : Bytes) (ws : List Bytes)
    → parse (some (c_str line)) ≡ some (argv_of ws)
    → step_line sys s line ≡ line_of_words sys s ws
unfolding step_line line_of_words
step_argv sys s line [] e = rw (e, step_line) refl
step_argv sys s line (w ∷ ws) e = rw (e, step_line) (rw (free_argv-slots_of (w ∷ ws)) refl)

step_line-words :
    (sys : System) (s : Shell) (line : Bytes)
    → step_line sys s line ≡ line_of_words sys s (words is_delim (c_str line))
step_line-words sys s line =
    step_argv sys s line (words is_delim (c_str line)) (parse-words (c_str line))

-- The newline at the end of a line makes no difference to its words.
pub words_of_line :
    (l : Bytes) → words is_delim (c_str (l ++ newline ∷ [])) ≡ words is_delim (c_str l)
words_of_line l = elim (c_str-newline l) [
  | inl e ↦ ap (words is_delim) e
  | inr e ↦ ap (words is_delim) e ∙ words-end is_delim (c_str l) newline (unfold is_delim in refl)
]

abbrev pub Ends : Option (List Action × Ending) → Type 0
Ends r = (e : List Action × Ending) × (r ≡ some e)

-- A text of lines, each with its newline, and the lines that `fgets` reads whole.
abbrev pub text_of : List Bytes → Bytes
text_of [] = []
text_of (l ∷ ls) = l ++ newline ∷ text_of ls

abbrev pub Fits : Bytes → Type 0
Fits l = IsLine l × (length l < 254)

pub length-text_of : (ls : List Bytes) → length ls ≤ length (text_of ls)
length-text_of [] = omega arith
length-text_of (l ∷ ls) = omega (arith, length-append l (newline ∷ text_of ls), length-text_of ls)

-- A line whose command has ended.
abbrev Settled : Next → Type 0
Settled (goes_on s) = Unit
Settled (over log e) = Unit
Settled hangs = ⊥

settle-Settled :
    (this : Option Builtin) (log : List Action) (e : Effect) → Settled (settle this log e)
settle-Settled this log (prints out) = tt
settle-Settled this log (complains out) = tt
settle-Settled this log (ends out c) = tt
settle-Settled this log undefined = tt

settle_built-Settled :
    (this : Option Builtin) (s : Shell) (argv : List Bytes) (r : Option Effect)
    → Yields r
    → Settled (settle_built this s argv r)
settle_built-Settled this s argv none h = cc
settle_built-Settled this s argv (some e) h = settle-Settled this (note s (built argv e)) e

settle_parent-Settled :
    (this : Option Builtin) (log : List Action) (p : Parent) → Settled (settle_parent this log p)
settle_parent-Settled this log (exits_with e) = tt
settle_parent-Settled this log in_background = tt
settle_parent-Settled this log (waited r) = tt

line_of_words-Settled :
    (sys : System) (s : Shell) (ws : List Bytes)
    → PwdEnds sys.env
    → Settled (line_of_words sys s ws)
unfolding line_of_words dispatch
line_of_words-Settled sys s [] h = tt
line_of_words-Settled sys s (w ∷ ws) h =
    let asked = is_builtin s.this w in
    let done = do_builtin sys.env asked.0 (w ∷ ws) in
    elim (Bool-cases asked.1) [
      | inl e ↦
          rw (e, dispatch)
            (settle_built-Settled done.0 s (w ∷ ws) done.1
              (do_builtin-Yields sys.env h asked.0 (w ∷ ws)))
      | inr e ↦ rw (e, dispatch) (settle_parent-Settled asked.0 _ _)
    ]

module _ (world : List Action → System) where
  after_line :
      (fuel : ℕ) (s : Shell) (stdin line rest : Bytes) (n : Next)
      → fgets longline stdin ≡ some (line, rest)
      → step_line (world s.log) s line ≡ n
      → Settled n
      → ((s' : Shell) → Ends (session fuel world s' rest))
      → Ends (session (suc fuel) world s stdin)
  unfolding session
  after_line fuel s stdin line rest (goes_on s') e f d h = rw (e, session) (rw f (h s'))
  after_line fuel s stdin line rest hangs e f d h = absurd d
  after_line fuel s stdin line rest (over log x) e f d h = rw (e, session) (rw f (_, refl))

  session-Ends :
      (fuel : ℕ) (s : Shell) (stdin : Bytes)
      → ((log : List Action) → PwdEnds (world log).env)
      → length stdin < fuel
      → Ends (session fuel world s stdin)
  unfolding session
  session-Ends zero s stdin p h = absurd (omega arith)
  session-Ends (suc fuel) s stdin p h = elim (Option-cases (fgets longline stdin)) [
    | inl e ↦ rw (e, session) (_, refl)
    | inr ((line, rest), e) ↦
        after_line fuel s stdin line rest _ e (step_line-words (world s.log) s line)
          (line_of_words-Settled (world s.log) s (words is_delim (c_str line)) (p s.log))
          (λ s'. session-Ends fuel s' rest p (omega (arith, fgets-shorter 253 stdin line rest e)))
  ]

  -- Where the loop of `pwd`, at any line, would meet a size of its buffer below 2^64 for which
  -- there is no memory or `getcwd` does not say ERANGE: whatever standard input holds and the
  -- system answers else, `main` comes to an end, and its loop takes at most one round for each
  -- byte of the input, and one more.
  pub main-Ends :
      (stdin : Bytes) → ((log : List Action) → PwdEnds (world log).env) → Ends (main world stdin)
  unfolding main
  main-Ends stdin p = session-Ends (length stdin + 1) _ stdin p (omega arith)

  -- The commands of a list of lines, one by one; none where one has not ended.
  pub run_lines : Shell → List Bytes → Option (List Action × Ending)
  run_lines s [] = some (s.log, exit_status 0)
  run_lines s (l ∷ ls) = elim (line_of_words (world s.log) s (words is_delim (c_str l))) [
    | goes_on s' ↦ run_lines s' ls
    | over log e ↦ some (log, e)
    | hangs ↦ none
  ]

  step_line-newline :
      (s : Shell) (l : Bytes)
      → step_line (world s.log) s (l ++ newline ∷ [])
        ≡ line_of_words (world s.log) s (words is_delim (c_str l))
  step_line-newline s l =
      step_line-words (world s.log) s (l ++ newline ∷ [])
      ∙ ap (line_of_words (world s.log) s) (words_of_line l)

  one_line :
      (fuel : ℕ) (s : Shell) (l : Bytes) (ls : List Bytes) (n : Next)
      → Fits l
      → line_of_words (world s.log) s (words is_delim (c_str l)) ≡ n
      → ((s' : Shell) → session fuel world s' (text_of ls) ≡ run_lines s' ls)
      → session (suc fuel) world s (text_of (l ∷ ls)) ≡ run_lines s (l ∷ ls)
  unfolding session run_lines
  one_line fuel s l ls (goes_on s') f e h =
      rw (fgets-line 254 l (text_of ls) f.0 f.1, session)
        (rw (step_line-newline s l) (rw (e, run_lines) (h s')))
  one_line fuel s l ls hangs f e h =
      rw (fgets-line 254 l (text_of ls) f.0 f.1, session)
        (rw (step_line-newline s l) (rw (e, run_lines) refl))
  one_line fuel s l ls (over log x) f e h =
      rw (fgets-line 254 l (text_of ls) f.0 f.1, session)
        (rw (step_line-newline s l) (rw (e, run_lines) refl))

  session-run_lines :
      (ls : List Bytes) (fuel : ℕ) (s : Shell)
      → All Fits ls
      → length ls < fuel
      → session fuel world s (text_of ls) ≡ run_lines s ls
  unfolding session run_lines
  session-run_lines ls zero s h f = absurd (omega arith)
  session-run_lines [] (suc fuel) s h f = unfold fgets in refl
  session-run_lines (l ∷ ls) (suc fuel) s h f =
      one_line fuel s l ls _ h.0 refl (λ s'. session-run_lines ls fuel s' h.1 (omega arith))

  -- On a text of lines of fewer than 254 bytes, `main` deals with the lines in order, each up
  -- to its first NUL if it has one: a line without words does nothing, any other is dispatched with
  -- its words as `argv`, in the state that the line before it left; it exits with 0 behind the last
  -- line, or earlier with the line that ends the shell, and comes to no end at a `pwd` that does
  -- not within the sizes that a buffer can have.
  pub main-run_lines :
      (ls : List Bytes)
      → All Fits ls
      → main world (text_of ls) ≡ run_lines (record { this = none; log = [] }) ls
  unfolding main
  main-run_lines ls h = session-run_lines ls _ _ h (omega (arith, length-text_of ls))
