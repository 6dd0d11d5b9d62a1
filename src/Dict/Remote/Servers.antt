-- ===== src/Dict/Remote/Servers.antt =====
-- The main loops of usock_server.c, isock_server.c and udp_server.c.
use linux_programming.Base.{ℕ, Bool, List, [], ◌∷◌, Option, none, some, ◌==◌, if◌then◌else◌}
use linux_programming.Cstr.{Bytes}
use linux_programming.Dict.Record.{Dictrec, Answer, Call, returns, dies, faults, record_bytes}
use linux_programming.Dict.Remote.{received, respond}

-- One round of a dialogue: what `recv` gives, and whether the `send` works.
pub record Round : Type 0 where
  pub request : Option Bytes
  pub sent : Bool

-- How a process ends, `waiting` where it blocks for more.
pub data Exit : Type 0 where
  exits dead undefined waiting : Exit

module _ {S : Type 0} (lookup : S → Dictrec → Call (S × Answer × Dictrec)) where
  -- The `while (recv(...) > 0)` of the child: the messages it sends and how it ends.
  unfoldable pub dialogue : S → Dictrec → List Round → List Bytes × Exit
  unfolding respond received
  dialogue s tryit [] = ([], waiting)
  dialogue s tryit (round ∷ rounds) = elim round.request [
    | none ↦ ([], exits)
    | some message ↦ elim message [
      | [] ↦ ([], exits)
      | c ∷ cs ↦ elim (respond lookup s (received tryit (c ∷ cs))) [
        | dies ↦ ([], dead)
        | faults ↦ ([], undefined)
        | returns (s', d) ↦
            let rest = dialogue s' d rounds in
            if round.sent then (record_bytes d ∷ rest.0, rest.1) else ([], dead)
      ]
    ]
  ]

  -- The `for (;;)` of udp_server.c: what is not a message is skipped.
  unfoldable pub datagrams : S → Dictrec → List Round → List Bytes × Exit
  unfolding respond received
  datagrams s dr [] = ([], waiting)
  datagrams s dr (round ∷ rounds) =
      let skipped = datagrams s dr rounds in
      elim round.request [
        | none ↦ skipped
        | some message ↦ elim message [
          | [] ↦ skipped
          | c ∷ cs ↦ elim (respond lookup s (received dr (c ∷ cs))) [
            | dies ↦ ([], dead)
            | faults ↦ ([], undefined)
            | returns (s', d) ↦
                let rest = datagrams s' d rounds in
                if round.sent then (record_bytes d ∷ rest.0, rest.1) else ([], dead)
          ]
        ]
      ]

-- A connection: whether `accept` and `fork` work, and its dialogue.
pub record Connection : Type 0 where
  pub accepted : Bool
  pub forked : Bool
  pub rounds : List Round

-- What a server does: its children's messages, and how it ends itself.
abbrev pub Served : Type 0
Served = List (List Bytes × Exit) × Exit

module _ {S : Type 0} (lookup : S → Dictrec → Call (S × Answer × Dictrec)) (s : S)
    (tryit : Dictrec) where
  -- The `for (;;)` of usock_server.c; a child starts from a copy of the parent's memory, in which
  -- no `lookup` was called.
  unfoldable pub accept_loop : List Connection → Served
  unfolding dialogue
  accept_loop [] = ([], waiting)
  accept_loop (c ∷ cs) =
      let rest = accept_loop cs in
      if c.accepted
      then (if c.forked then (dialogue lookup s tryit c.rounds ∷ rest.0, rest.1) else ([], dead))
      else ([], dead)

  -- `main` of usock_server.c, of isock_server.c and of udp_server.c: the number of arguments and
  -- whether `socket`, `bind` and `listen` work.
  unfoldable pub usock_server : ℕ → Bool → Bool → List Connection → Served
  unfolding accept_loop
  usock_server argc bound listening cs =
      if argc == 3
      then (if bound then (if listening then accept_loop cs else ([], dead)) else ([], dead))
      else ([], dead)

  unfoldable pub isock_server : ℕ → Bool → Bool → List Connection → Served
  unfolding accept_loop
  isock_server argc bound listening cs =
      if argc == 2
      then (if bound then (if listening then accept_loop cs else ([], dead)) else ([], dead))
      else ([], dead)

  unfoldable pub udp_server : ℕ → Bool → Bool → List Round → List Bytes × Exit
  unfolding datagrams
  udp_server argc made bound rounds =
      if argc == 2
      then (if made
          then (if bound then datagrams lookup s tryit rounds else ([], dead))
          else ([], dead))
      else ([], dead)
