-- ===== src/Nonblocking/Tests.antt =====
-- Two clients, one after the other and at once.
use linux_programming.Base.{◌≡◌, refl, List, [], ◌∷◌, replicate}
use linux_programming.Nonblocking.{Event, opens, polls, run, start}
use linux_programming.Nonblocking.Prompt.{lines, run-numbered}

abbrev in_turn : List Event
in_turn = polls ∷ opens ∷ polls ∷ polls ∷ opens ∷ polls ∷ []

run-numbered_example : (run (start (replicate 100 7)) in_turn).printed ≡ lines 1 2
run-numbered_example = run-numbered (replicate 100 7) in_turn tt

-- Two requests that are read together are printed as one.
read_together :
    (run (start (replicate 100 7)) (opens ∷ opens ∷ polls ∷ polls ∷ [])).printed ≡ lines 1 1
unfolding run
read_together = refl
