-- ===== src/Queue.antt =====
-- The servers that add up numbers sent through message queues: homework/hw8/46-2 (System V, with
-- its client) and homework/hw9/52-3/server.c (POSIX). The type `int`, its addition and `atoi` are
-- parameters.
pub mod Posix
pub mod Sums
mod Tests
use linux_programming.Base.{
  ℕ, Bool, true, false, List, [], ◌∷◌, Option, none, some, ◌==◌, if◌then◌else◌, length, take,
}
use linux_programming.Cstr.{Bytes, codes, c_str, streq, strcpy}

-- `strncmp(text, "end", 3) == 0`
unfoldable pub starts_end : Bytes → Bool
unfolding streq
starts_end s = streq (take 3 s) (codes "end")

abbrev pub is_end : Bytes → Bool
is_end text = starts_end (c_str text)

-- What the client of 46-2 does with its arguments: it sends the array `text`, or it stops first.
-- `none`: the argument does not fit the array.
pub data Client : Type 0 where
  usage failed : Client
  sent : Bytes → Client

-- `main` of the client on `argv[1]`, if that is the only argument, and whether `msgget` and
-- `msgsnd` work.
unfoldable pub client : Bytes → Option Bytes → Bool → Bool → Option Client
unfolding strcpy
client text none got sends = some usage
client text (some arg) got sends =
    if got
    then (elim (strcpy text arg) [
      | none ↦ none
      | some text' ↦ some (if sends then sent text' else failed)
    ])
    else some failed

module _ {Int : Type 0} (plus : Int → Int → Int) (atoi : Bytes → Int) where
  -- The loop of the server of 46-2 on what `msgrcv` gives, none where it fails: the counts printed,
  -- and whether the loop ended. `text` is what `data` holds, `count` the count so far.
  unfoldable pub serve : Bytes → Int → List (Option Bytes) → List Int × Bool
  unfolding starts_end c_str
  serve text count [] = ([], false)
  serve text count (m ∷ ms) =
      let text' : Bytes = elim m [ none ↦ text | some t ↦ t ] in
      let rest = serve text' (plus count (atoi (c_str text'))) ms in
      if is_end text' then (count ∷ [], true) else (count ∷ rest.0, rest.1)

  -- The loop of the server of 52-3 on what `mq_receive` gives.
  unfoldable pub serve_mq : Int → List (Option Bytes) → List Int × Bool
  unfolding starts_end c_str
  serve_mq count [] = ([], false)
  serve_mq count (m ∷ ms) =
      let skipped = serve_mq count ms in
      elim m [
        | none ↦ skipped
        | some text ↦
            let rest = serve_mq (plus count (atoi (c_str text))) ms in
            if is_end text then (count ∷ [], true) else (count ∷ rest.0, rest.1)
      ]

-- How a server ends.
pub data End (Int : Type 0) : Type 0 where
  no_queue : End Int
  waits : List Int → End Int
  done : List Int → End Int

abbrev ending : {Int : Type 0} → List Int × Bool → End Int
ending (counts, true) = done counts
ending (counts, false) = waits counts

-- `main` of the two servers: whether the queue opens, what `data` holds at first, the count 0.
module _ {Int : Type 0} (plus : Int → Int → Int) (atoi : Bytes → Int) where
  unfoldable pub server : Bool → Bytes → Int → List (Option Bytes) → End Int
  unfolding serve
  server opens text zero_count ms =
      if opens then ending (serve plus atoi text zero_count ms) else no_queue

  unfoldable pub server_mq : Bool → Int → List (Option Bytes) → End Int
  unfolding serve_mq
  server_mq opens zero_count ms =
      if opens then ending (serve_mq plus atoi zero_count ms) else no_queue
