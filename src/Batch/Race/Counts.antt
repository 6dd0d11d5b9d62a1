-- ===== src/Batch/Race/Counts.antt =====
-- The sum that `main` reports.
use linux_programming.Base.{ℕ, ◌*◌, ◌≤◌, arith, sum_below, sum_below-bound}
use linux_programming.Batch.Race.{System, Reach}
use linux_programming.Batch.Race.Kept.{Reach-Inv}

-- In every order of the steps of the producer and its consumers, signals that merge and handlers
-- that run late included: a consumer's finished handlers have together counted at most the messages
-- that are put so far, of which there are at most M; and the shared count, whatever additions to it
-- were lost, is at most the sum of what they have counted. So the count that is reported is at most
-- the N * M that it is compared with.
pub Reach-received :
    (m n b : ℕ) (s : System)
    → Reach m n b s
    → ((c : ℕ) → s.stored c ≤ s.num_of_data)
      × (s.num_of_data ≤ m)
      × (s.received ≤ sum_below n s.stored)
      × (s.received ≤ n * m)
Reach-received m n b s r =
    let v = Reach-Inv m n b s r in
    let all : (c : ℕ) → s.stored c ≤ s.num_of_data = λ c. omega (arith, v.paid c) in
    let most = sum_below-bound n m s.stored (λ c. omega (arith, all c, v.data_bound)) in
    (all, v.data_bound, v.lost, omega (arith, v.lost, most))
