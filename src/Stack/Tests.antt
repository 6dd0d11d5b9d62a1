-- ===== src/Stack/Tests.antt =====
-- A run of the stack's program, and each theorem at a concrete input.
use linux_programming.Base.{ℕ, ◌+◌, ◌*◌, ◌≡◌, Bool, refl, List, [], ◌∷◌, true, ltb}
use linux_programming.Stack.{pushed, popped, blocked, new_stack, run}
use linux_programming.Stack.Bounded.{spec_run}
use linux_programming.Cstr.{Bytes, codes}
use linux_programming.Cstr.Numbers.{read_digits}
use linux_programming.Coprocess.{ℤ, pos}
use linux_programming.Stack.Process.{
  SetUp, Answers, pid, event, status, waits, start, main, draws, forked, outcome, main-spec_run,
}

-- Two pushes, and three pops, the last of which waits.
abbrev rands : List (ℕ × ℕ)
rands = (2, 107) ∷ (4, 42) ∷ (1, 0) ∷ (3, 0) ∷ (5, 0) ∷ (0, 1) ∷ []

run-rands :
    run new_stack rands ≡ (pushed 7 0 ∷ pushed 42 1 ∷ popped 42 1 ∷ popped 7 0 ∷ [], blocked)
unfolding run
run-rands = refl

abbrev set_up : SetUp
set_up = record {
  truncates = true;
  maps = true;
  has_attributes = true;
  is_shared = true;
  has_mutex = true;
}

-- Pushes, two to a random number that is even, of children 100, 101 and so on.
abbrev answers : (ℕ → Bool) → Answers
answers forks = record { forks = forks; pids = λ i. 100 + i; rand = λ j. 2 * j }

abbrev atoi : Bytes → ℤ
atoi s = pos (read_digits 0 s)

abbrev argv : List Bytes
argv = codes "process" ∷ codes "4" ∷ []

-- The third fork fails.
main-two :
    main atoi set_up (answers (λ i. ltb i 2)) argv
    ≡ (pid 100 ∷ event (pushed 2 0) ∷ pid 101 ∷ event (pushed 6 1) ∷ [], status 1)
unfolding main start read_digits
main-two = refl

-- The fourth push waits, behind its pid.
main-four : main atoi set_up (answers (λ i. true)) argv ≡ (
  pid 100
      ∷ event (pushed 2 0)
      ∷ pid 101
      ∷ event (pushed 6 1)
      ∷ pid 102
      ∷ event (pushed 10 2)
      ∷ pid 103
      ∷ [],
  waits,
)
unfolding main start read_digits
main-four = refl

four : atoi (codes "4") ≡ pos 4
unfolding read_digits
four = refl

main-spec_run_example :
    main atoi set_up (answers (λ i. true)) argv
    ≡ outcome
        (answers (λ i. true))
        0
        (draws (λ j. 2 * j) 4 0)
        (spec_run [] (forked (λ i. true) 0 (draws (λ j. 2 * j) 4 0)))
main-spec_run_example =
    main-spec_run atoi (answers (λ i. true)) (codes "process") (codes "4") 3 set_up four refl
