-- ===== src/Batch/Tests.antt =====
-- Runs of the producer on five messages, and each theorem at a concrete input.
use linux_programming.Base.{ℕ, ◌≡◌, List, [], ◌∷◌, some, arith}
use linux_programming.Cstr.{Bytes}
use linux_programming.Batch.{Shared, produce, generator}
use linux_programming.Batch.Rounds.{occurrences, printed_by}
use linux_programming.Batch.Delivery.{messages_of, produce-all}

-- Two consumers that both run for each batch.
abbrev both : ℕ → List ℕ
both num = 0 ∷ 1 ∷ []

produce-all_example :
    (log : List (ℕ × Bytes)) × (s : Shared) × (produce 6 5 2 both ≡ some (log, s))
    × ((c : ℕ)
        → ((i : ℕ) → occurrences c (both i) ≡ 1)
        → printed_by c log ≡ messages_of (generator 5))
produce-all_example = produce-all 5 2 both (omega arith)
