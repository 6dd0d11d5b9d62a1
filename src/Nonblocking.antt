-- ===== src/Nonblocking.antt =====
-- homework/hw8/44-7: a server that polls a FIFO, and its clients. The server has the FIFO open for
-- writing as well, so that `read` never sees its end: with nothing in it, it fails with EAGAIN.
pub mod Prompt
mod Tests
use linux_programming.Base.{
  ℕ, suc, ◌+◌, Bool, true, ◌&&◌, List, [], ◌∷◌, ◌++◌, Option, none, some, ◌==◌, if◌then◌else◌,
  length, take, drop,
}
use linux_programming.Cstr.{Bytes, codes, c_str}
use linux_programming.Cstr.Numbers.{decimal}

-- The 36 bytes that a client writes, with the NUL.
abbrev pub request : Bytes
request = codes "Client has opened FIFO for reading." ++ 0 ∷ []

-- What is in the FIFO, `req_num`, what the array of the loop holds, and the lines that are printed.
pub record Server : Type 0 where
  pub fifo : Bytes
  pub req_num : ℕ
  pub buffer : Bytes
  pub printed : List Bytes

-- `main` of client.c once it has opened the FIFO: one write, which takes all its bytes at once.
abbrev pub client : Server → Server
client s = record s { fifo = s.fifo ++ request }

-- One round of the loop: a read of up to 100 bytes over the array, which is then printed as a
-- string.
unfoldable poll : Server → Server
unfolding c_str decimal
poll s = received s (take 100 s.fifo)
  where
    received : Server → Bytes → Server
    received s [] = s
    received s (c ∷ cs) =
        let buffer' = (c ∷ cs) ++ drop (length (c ∷ cs)) s.buffer in
        record {
          fifo = drop 100 s.fifo;
          req_num = s.req_num + 1;
          buffer = buffer';
          printed =
              s.printed
              ++ (codes "Received data "
                  ++ decimal s.req_num
                  ++ codes ": "
                  ++ c_str buffer'
                  ++ codes "\n")
                ∷ [];
        }

-- What happens one after the other: a client, or a round of the server.
pub data Event : Type 0 where
  opens polls : Event

unfoldable pub run : Server → List Event → Server
unfolding poll
run s [] = s
run s (opens ∷ es) = run (client s) es
run s (polls ∷ es) = run (poll s) es

-- The server before its loop, with an array that was not written.
abbrev pub start : Bytes → Server
start buffer = record { fifo = []; req_num = 1; buffer = buffer; printed = [] }

abbrev eexist : ℕ
eexist = 17

-- `main` up to the loop: errno if `mkfifo` fails, and whether the FIFO opens to read and to write.
-- A FIFO that is there already is taken; `none` is an exit with EXIT_FAILURE.
unfoldable pub set_up : Option ℕ → Bool → Bool → Bytes → Option Server
set_up made reads writes buffer =
    let there : Bool = elim made [ none ↦ true | some e ↦ e == eexist ] in
    if there && reads && writes then some (start buffer) else none
