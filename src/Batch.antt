-- ===== src/Batch.antt =====
-- homework/hw10/program.c: a producer puts messages into shared memory, a batch at a time, and
-- signals its consumers. Which consumers run their handler before the next batch is up to the
-- scheduler: the list `ran n` for the batch that starts at the n-th message; a signal that merges
-- with one that is still pending is a consumer that is not in the list. A handler that runs for a
-- batch is taken to print all of it before the next batch is put. What the handlers add to the
-- shared count, `shared_count[0] += count`, is not here: Batch/Race has it, as a load and a store.
pub mod Delivery
pub mod Race
pub mod Rounds
mod Tests
use linux_programming.Base.{
  ℕ, zero, suc, ◌+◌, ◌-◌, ◌*◌, Bool, true, false, List, [], ◌∷◌, ◌++◌, map, Option, none, some,
  ◌==◌, ltb, if◌then◌else◌, length, take, drop, replicate,
}
use linux_programming.Cstr.{Bytes}
use linux_programming.Cstr.Numbers.{decimal}

-- The struct `Data`, its array as the string in it.
pub record Datum : Type 0 where
  pub seq : ℕ
  pub message : Bytes

-- "This is message "
abbrev message_text : Bytes
message_text =
    84 ∷ 104 ∷ 105 ∷ 115 ∷ 32 ∷ 105 ∷ 115 ∷ 32 ∷ 109 ∷ 101 ∷ 115 ∷ 115 ∷ 97 ∷ 103 ∷ 101 ∷ 32 ∷ []

-- `generator` from its i-th round on, for `n` more rounds.
unfoldable pub generate : ℕ → ℕ → List Datum
unfolding decimal
generate i zero = []
generate i (suc n) = record { seq = i; message = message_text ++ decimal i } ∷ generate (suc i) n

unfoldable pub generator : ℕ → List Datum
unfolding generate
generator data_num = generate 0 data_num

-- The messages at `addr`, and `shared_count[1]`.
pub record Shared : Type 0 where
  pub messages : List Bytes
  pub num_batch : ℕ

-- `sig_handler_data` on SIGUSR1: the messages that it prints.
unfoldable pub sig_handler_data : Shared → List Bytes
sig_handler_data s = take s.num_batch s.messages

-- `int batch_size`
abbrev pub batch_size : ℕ → ℕ → ℕ → ℕ
batch_size m num b = if ltb b (m - num) then b else m - num

-- The `for` over j: these messages are copied to the front of `addr`.
unfoldable pub fill : List Bytes → List Bytes → List Bytes
fill addr [] = addr
fill [] (m ∷ ms) = []
fill (a ∷ addr) (m ∷ ms) = m ∷ fill addr ms

-- The handlers of these consumers run: who prints which message.
unfoldable pub deliver : List ℕ → Shared → List (ℕ × Bytes)
unfolding sig_handler_data
deliver [] s = []
deliver (c ∷ cs) s = map (λ m. (c, m)) (sig_handler_data s) ++ deliver cs s

-- A round of the `while` up to the signals.
unfoldable pub put_batch : List Datum → ℕ → ℕ → Shared → Shared
unfolding fill
put_batch items b num s =
    let k = batch_size (length items) num b in
    record {
      messages = fill s.messages (take k (drop num (map (λ d. d.message) items)));
      num_batch = if ltb k b then k else s.num_batch;
    }

-- The `while`, on fuel: what is printed and the shared memory at the end.
unfoldable pub send_loop :
    ℕ → List Datum → ℕ → (ℕ → List ℕ) → ℕ → Shared → Option (List (ℕ × Bytes) × Shared)
unfolding put_batch deliver
send_loop zero items b ran num s = none
send_loop (suc fuel) items b ran num s =
    let k = batch_size (length items) num b in
    let s' = put_batch items b num s in
    let rest = send_loop fuel items b ran (num + k) s' in
    if ltb num (length items)
    then (elim rest [ none ↦ none | some (log, t) ↦ some (deliver (ran num) s' ++ log, t) ])
    else some ([], s)

-- The maps of new files, and the size of a batch.
abbrev pub new_shared : ℕ → Shared
new_shared b = record { messages = replicate b []; num_batch = b }

-- `main` from the generator to the end of the `while`, with the fuel that is given.
unfoldable pub produce : ℕ → ℕ → ℕ → (ℕ → List ℕ) → Option (List (ℕ × Bytes) × Shared)
unfolding generator send_loop
produce fuel m b ran = send_loop fuel (generator m) b ran 0 (new_shared b)
