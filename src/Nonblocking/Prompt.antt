-- ===== src/Nonblocking/Prompt.antt =====
-- Clients that come one at a time.
use linux_programming.Base.{
  ℕ, Bool, true, false, zero, suc, ◌+◌, ◌≡◌, sym, ◌∙◌, List, [], ◌∷◌, ◌++◌, drop,
}
use mathlib.Core.List.{append_assoc, append-nil}
use linux_programming.Cstr.{Bytes, codes}
use linux_programming.Cstr.Numbers.{decimal}
use linux_programming.Nonblocking.{request, Event, opens, polls, run, start}

-- A client comes only when the request before it has been read; the flag says that one is waiting.
abbrev IsPrompt : Bool → List Event → Type 0
IsPrompt waiting [] = Unit
IsPrompt false (opens ∷ es) = IsPrompt true es
IsPrompt true (opens ∷ es) = ⊥
IsPrompt waiting (polls ∷ es) = IsPrompt false es

abbrev pub line : ℕ → Bytes
line n =
    codes "Received data "
    ++ decimal n
    ++ codes ": "
    ++ codes "Client has opened FIFO for reading."
    ++ codes "\n"

-- The lines for so many requests, from a number on.
abbrev pub lines : ℕ → ℕ → List Bytes
lines n zero = []
lines n (suc k) = line n ∷ lines (n + 1) k

-- How many requests are read.
abbrev count_read : Bool → List Event → ℕ
count_read waiting [] = 0
count_read waiting (opens ∷ es) = count_read true es
count_read false (polls ∷ es) = count_read false es
count_read true (polls ∷ es) = suc (count_read false es)

abbrev fifo_of : Bool → Bytes
fifo_of false = []
fifo_of true = request

run-lines :
    (waiting : Bool) (es : List Event) (n : ℕ) (buffer : Bytes) (printed : List Bytes)
    → IsPrompt waiting es
    → (run
        (record { fifo = fifo_of waiting; req_num = n; buffer = buffer; printed = printed })
        es).printed
      ≡ printed ++ lines n (count_read waiting es)
unfolding run
run-lines waiting [] n buffer printed h = sym (append-nil printed)
run-lines false (opens ∷ es) n buffer printed h = run-lines true es n buffer printed h
run-lines true (opens ∷ es) n buffer printed h = absurd h
run-lines false (polls ∷ es) n buffer printed h = run-lines false es n buffer printed h
run-lines true (polls ∷ es) n buffer printed h =
    run-lines false es (n + 1) (request ++ drop 36 buffer) (printed ++ line n ∷ []) h
    ∙ append_assoc printed (line n ∷ []) (lines (n + 1) (count_read false es))

-- Where each client comes after the request before it was read, whatever rounds of the server find
-- nothing in between and whatever its array holds at first: one line is printed for each request
-- that is read, numbered from 1.
pub run-numbered :
    (buffer : Bytes) (es : List Event)
    → IsPrompt false es
    → (run (start buffer) es).printed ≡ lines 1 (count_read false es)
run-numbered buffer es h = run-lines false es 1 buffer [] h
