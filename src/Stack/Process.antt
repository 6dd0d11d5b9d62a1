-- ===== src/Stack/Process.antt =====
-- `main` of quiz/quiz3/process.c: its argument, the calls that set the stack up, a `fork` that
-- fails, and what the children print. `atoi` is a parameter. The array of pids is taken to fit on
-- the stack.
use linux_programming.Base.{
  ℕ, zero, suc, ◌+◌, ◌*◌, ◌%◌, ◌≡◌, inl, inr, refl, arith, ◌∙◌, Bool, true, false, ◌&&◌, List, [],
  ◌∷◌, none, some, if◌then◌else◌, Bool-cases, Option-cases,
}
use linux_programming.Cstr.{Bytes}
use linux_programming.Coprocess.{ℤ, pos, negsuc}
use linux_programming.Stack.{Data, new_stack, Event, End, finished, blocked, child, run}
use linux_programming.Stack.Bounded.{spec_run, run-IsData}

-- Which of the calls before the loop succeed.
pub record SetUp : Type 0 where
  pub truncates : Bool
  pub maps : Bool
  pub has_attributes : Bool
  pub is_shared : Bool
  pub has_mutex : Bool

-- What goes to standard output: the usage, the pid of a child, and what its `push` or `pop` says.
-- What `perror` says goes to standard error.
pub data Line : Type 0 where
  usage : Line
  pid : ℕ → Line
  event : Event → Line

-- How the parent ends: with a status, in the `wait` for a child that waits, or with an array of no
-- or a negative number of pids, which C leaves undefined.
pub data Ending : Type 0 where
  status : ℕ → Ending
  waits undefined : Ending

-- What the system answers: which of the forks succeed and the pids of the children; and the results
-- of `rand()`, one after the other.
pub record Answers : Type 0 where
  pub forks : ℕ → Bool
  pub pids : ℕ → ℕ
  pub rand : ℕ → ℕ

-- The loop from its i-th round on, for a number of rounds that are left. On a terminal, where each
-- line is written at its newline.
unfoldable pub rounds : Answers → ℕ → ℕ → Data → List Line × Ending
unfolding child
rounds w zero i d = ([], status 0)
rounds w (suc left) i d =
    if w.forks i
    then (elim (child d (w.rand (2 * i) % 2) (w.rand (2 * i + 1) % 100)) [
      | none ↦ (pid (w.pids i) ∷ [], waits)
      | some (d', e) ↦
          let rest = rounds w left (suc i) d' in (pid (w.pids i) ∷ event e ∷ rest.0, rest.1)
    ])
    else ([], status 1)

-- From the array of pids on, for `n`.
unfoldable pub start : SetUp → Answers → ℤ → List Line × Ending
unfolding rounds
start s w (negsuc n) = ([], undefined)
start s w (pos zero) = ([], undefined)
start s w (pos (suc n)) =
    if s.truncates && s.maps && s.has_attributes && s.is_shared && s.has_mutex
    then rounds w (suc n) 0 new_stack
    else ([], status 1)

unfoldable pub main : (Bytes → ℤ) → SetUp → Answers → List Bytes → List Line × Ending
unfolding start
main atoi s w (prog ∷ arg ∷ []) = start s w (atoi arg)
main atoi s w argv = (usage ∷ [], status 1)

-- `random` and `num` before their remainders, for a number of children from the i-th on.
abbrev pub draws : (ℕ → ℕ) → ℕ → ℕ → List (ℕ × ℕ)
draws rand zero i = []
draws rand (suc n) i = (rand (2 * i), rand (2 * i + 1)) ∷ draws rand n (suc i)

-- The children up to the first fork that fails, and whether there is one.
abbrev pub forked : (ℕ → Bool) → ℕ → List (ℕ × ℕ) → List (ℕ × ℕ)
forked forks i [] = []
forked forks i (p ∷ rands) = if forks i then p ∷ forked forks (suc i) rands else []

abbrev pub fails : (ℕ → Bool) → ℕ → List (ℕ × ℕ) → Bool
fails forks i [] = false
fails forks i (p ∷ rands) = if forks i then fails forks (suc i) rands else true

abbrev pub ending : End → Bool → Ending
ending blocked failed = waits
ending finished true = status 1
ending finished false = status 0

-- The pid of each child with what its call says, and that of a child that waits at the end.
abbrev pub told : (ℕ → ℕ) → ℕ → List Event → End → List Line
told pids i [] finished = []
told pids i [] blocked = pid (pids i) ∷ []
told pids i (e ∷ events) end = pid (pids i) ∷ event e ∷ told pids (suc i) events end

-- The output and the ending for the events of the children that are forked.
abbrev pub outcome : Answers → ℕ → List (ℕ × ℕ) → List Event × End → List Line × Ending
outcome w i rands (events, end) = (told w.pids i events end, ending end (fails w.forks i rands))

rounds-run :
    (w : Answers) (n i : ℕ) (d : Data)
    → rounds w n i d ≡ outcome w i (draws w.rand n i) (run d (forked w.forks i (draws w.rand n i)))
unfolding rounds run
rounds-run w zero i d = refl
rounds-run w (suc n) i d = elim (Bool-cases (w.forks i)) [
  | inr f ↦ rw (rounds, f) refl
  | inl f ↦ elim (Option-cases (child d (w.rand (2 * i) % 2) (w.rand (2 * i + 1) % 100))) [
    | inl e ↦ rw (rounds, run, f, e) refl
    | inr ((d', said), e) ↦ let k = rounds-run w n (suc i) d' in rw (rounds, run, f, e, k) refl
  ]
]

-- With one argument that `atoi` reads as a number above 0, and where the set-up succeeds, the
-- program has that many children: each that is forked prints its pid and then what a list of at
-- most three numbers gives from the empty one, last in, first out, for its two results of `rand`.
-- It ends in the wait for the first child that pushes onto three numbers or pops of none, of which
-- only the pid is printed, else with status 1 at a fork that fails, else with status 0.
pub main-spec_run :
    (atoi : Bytes → ℤ) (w : Answers) (prog arg : Bytes) (n : ℕ) (s : SetUp)
    → atoi arg ≡ pos (suc n)
    → (s.truncates && s.maps && s.has_attributes && s.is_shared && s.has_mutex) ≡ true
    → let rands = draws w.rand (suc n) 0 in
      main atoi s w (prog ∷ arg ∷ []) ≡ outcome w 0 rands (spec_run [] (forked w.forks 0 rands))
unfolding main start
main-spec_run atoi w prog arg n s a h =
    let same =
      run-IsData new_stack (forked w.forks 0 (draws w.rand (suc n) 0))
        (record { in_bounds = omega arith; size = refl }) in
    rw (main, a) (rw (start, h) (rounds-run w (suc n) 0 new_stack ∙ rw same refl))
