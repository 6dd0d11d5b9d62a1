-- ===== src/Dict/Endless.antt =====
-- homework/hw5/5-3/main.c: words are read with `gets` and looked up, in a loop without an end. The
-- `lookup` that is linked is a parameter, with the state that it keeps.
pub mod Words
pub mod Rounds
mod Tests
use linux_programming.Base.{
  ℕ, zero, suc, ◌+◌, List, [], ◌∷◌, ◌++◌, Option, none, some, ltb, ◌==◌, if◌then◌else◌, length,
  drop,
}
use linux_programming.Cstr.{Bytes, codes, newline, strcpy}
use linux_programming.Dict.Record.{
  Dictrec, Answer, found, notfound, unavail, Call, returns, dies, faults, word_str, text_str,
}

-- A line of the input without its newline, and what is left.
unfoldable pub gets_line : Bytes → Bytes × Bytes
gets_line [] = ([], [])
gets_line (c ∷ cs) =
    let rest = gets_line cs in if c == newline then ([], cs) else (c ∷ rest.0, rest.1)

-- `gets(tryit.word)`, whose result is not looked at: at the end of the input the record is left as
-- it is. `none` is a write past the array.
unfoldable pub read_word : Dictrec → Bytes → Option (Dictrec × Bytes)
unfolding gets_line strcpy
read_word tryit [] = some (tryit, [])
read_word tryit (c ∷ cs) = elim (strcpy tryit.word (gets_line (c ∷ cs)).0) [
  | none ↦ none
  | some word ↦ some (record { word = word; text = tryit.text }, (gets_line (c ∷ cs)).1)
]

-- What is printed behind the prompt for an answer.
unfoldable pub reply : Answer → Dictrec → Option Bytes
reply found d = some (word_str d ++ codes " : " ++ text_str d ++ codes "\n")
reply notfound d = some (word_str d ++ codes " : Not Found!\n")
reply unavail d = none

module _ {S : Type 0} (lookup : S → Dictrec → Call (S × Answer × Dictrec)) where
  -- One round of the loop: what is printed, and the state, record and input after it. `none`: the
  -- program exits or its behaviour is undefined.
  unfoldable pub round : S → Dictrec → Bytes → Option (Bytes × S × Dictrec × Bytes)
  unfolding read_word reply
  round s tryit input = elim (read_word tryit input) [
    | none ↦ none
    | some (asked, rest) ↦ elim (lookup s asked) [
      | dies ↦ none
      | faults ↦ none
      | returns (s', a, d) ↦ elim (reply a d) [
        | none ↦ none
        | some out ↦ some (codes "What word do you want : " ++ out, s', d, rest)
      ]
    ]
  ]

  -- The first rounds of `while (1)`: what each prints.
  unfoldable pub rounds : ℕ → S → Dictrec → Bytes → Option (List Bytes)
  unfolding round
  rounds zero s tryit input = some []
  rounds (suc n) s tryit input = elim (round s tryit input) [
    | none ↦ none
    | some (out, s', d, rest) ↦ elim (rounds n s' d rest) [
      | none ↦ none
      | some more ↦ some (out ∷ more)
    ]
  ]
