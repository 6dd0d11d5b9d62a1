-- ===== src/Coprocess/Tests.antt =====
-- Lines and their answers, and the pipes of a process with three terminals.
use linux_programming.Base.{ℕ, ◌≡◌, refl, [], ◌∷◌, ◌++◌, some, none, map, replicate, All, arith}
use linux_programming.Cstr.{codes, c_str}
use linux_programming.Cstr.Numbers.{decimal}
use linux_programming.Shell.Session.Lines.{text_of}
use linux_programming.Coprocess.{answer, add2, main}
use linux_programming.Kernel.Simulated.{
  simulated, simulated-Laws, SimTable, terminal, reader, writer,
}
use linux_programming.Coprocess.Pipes.{Fds, child_side, parent_side, IsConnected, sides-IsConnected}
use linux_programming.Coprocess.Answers.{InRange, printed_of, main-answers}

answer_sum : answer (codes "12 -7\n") ≡ some (codes "5\n")
unfolding answer decimal
answer_sum = refl

answer_negative : answer (codes " 3 -40") ≡ some (codes "-37\n")
unfolding answer decimal
answer_negative = refl

-- A sum that is no `int`.
answer_overflow : answer (codes "2147483647 1\n") ≡ none
unfolding answer decimal
answer_overflow = refl

-- Only as many bytes of the complaint as the line has.
printed_of_word : printed_of (codes "x") ≡ codes "in"
unfolding answer c_str
printed_of_word = refl

-- A read that fills the array.
add2_full : add2 (replicate 4096 b' ') ≡ none
unfolding add2
add2_full = refl

in_range : All InRange (codes "1 2" ∷ codes "x" ∷ [])
unfolding answer
in_range = ((_, refl), ((_, refl), tt))

main-answers_example :
    main [] (text_of (codes "1 2" ∷ codes "x" ∷ []))
    ≡ some (map printed_of (codes "1 2" ∷ codes "x" ∷ []))
main-answers_example = main-answers [] (codes "1 2" ∷ codes "x" ∷ []) (ground arith) in_range

abbrev table : SimTable
table = some terminal ∷ some terminal ∷ some terminal ∷ []

abbrev fd1 : Fds
fd1 = record { reads = 3; writes = 4 }

abbrev fd2 : Fds
fd2 = record { reads = 5; writes = 6 }

abbrev piped : SimTable
piped = table ++ (some (reader 3) ∷ some (writer 3) ∷ [])

abbrev forked : SimTable
forked = piped ++ (some (reader 5) ∷ some (writer 5) ∷ [])

sides-IsConnected_example :
    (p1 : ℕ) × (p2 : ℕ) × IsConnected simulated fd1 fd2 p1 p2
      (child_side simulated fd1 fd2 forked)
      (parent_side simulated fd1 fd2 forked)
sides-IsConnected_example =
    sides-IsConnected simulated simulated-Laws table piped forked fd1 fd2 terminal terminal refl
      refl refl refl
