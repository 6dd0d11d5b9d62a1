-- ===== src/Dict/Look.antt =====
-- homework/hw11/11-1/main.c (the copies in 11-2 and 11-3 differ in comments only): words are read
-- and looked up. The `lookup` that is linked is a parameter, with the state that it keeps.
pub mod Answers
pub mod Files
use linux_programming.Base.{
  ℕ, zero, suc, ◌+◌, ◌-◌, Bool, true, false, List, [], ◌∷◌, ◌++◌, Option, none, some, ◌==◌,
  if◌then◌else◌, length, set,
}
use linux_programming.Cstr.{Bytes, newline, c_str, strcpy, fgets}
use linux_programming.Dict.Record.{
  Dictrec, Answer, found, notfound, unavail, Call, returns, dies, faults, word_str, text_str,
  word_size,
}

-- " : "
abbrev pub colon : Bytes
colon = 32 ∷ 58 ∷ 32 ∷ []

-- "Not Found!\n"
abbrev pub not_found : Bytes
not_found = 78 ∷ 111 ∷ 116 ∷ 32 ∷ 70 ∷ 111 ∷ 117 ∷ 110 ∷ 100 ∷ 33 ∷ newline ∷ []

-- How the program ends: `main` returns, exits with a message, or is undefined.
pub data End : Type 0 where
  done usage died undefined : End

-- `tryit.word[strlen(tryit.word) - 1] = '\0'`; none where that is before the array.
unfoldable pub cut_last : Bytes → Option Bytes
cut_last word = let n = length (c_str word) in if n == 0 then none else some (set word (n - 1) 0)

-- `fgets(tryit.word, WORD, stdin)` and the cut: the record and the rest of the input. The outer
-- none is the end of the input.
unfoldable pub read_word : Dictrec → Bytes → Option (Option Dictrec × Bytes)
unfolding cut_last fgets
read_word tryit input = elim (fgets word_size input) [
  | none ↦ none
  | some (line, rest) ↦ elim (strcpy tryit.word line) [
    | none ↦ some (none, rest)
    | some word ↦ elim (cut_last word) [
      | none ↦ some (none, rest)
      | some word' ↦ some (some (record { word = word'; text = tryit.text }), rest)
    ]
  ]
]

module _ {S : Type 0} (lookup : S → Dictrec → Call (S × Answer × Dictrec)) where
  -- The `while`: what is printed, and how it ends; none stands for no fuel left.
  unfoldable pub loop : ℕ → S → Dictrec → Bytes → Option (Bytes × End)
  unfolding read_word
  loop zero s tryit input = none
  loop (suc fuel) s tryit input = elim (read_word tryit input) [
    | none ↦ some ([], done)
    | some (read, rest) ↦ elim read [
      | none ↦ some ([], undefined)
      | some asked ↦ elim (lookup s asked) [
        | dies ↦ some ([], died)
        | faults ↦ some ([], undefined)
        | returns (s', a, d) ↦
            let after = loop fuel s' d rest in
            elim a [
              | unavail ↦ some ([], died)
              | found ↦ elim after [
                | none ↦ none
                | some (out, end) ↦ some (word_str d ++ (colon ++ (text_str d ++ out)), end)
              ]
              | notfound ↦ elim after [
                | none ↦ none
                | some (out, end) ↦ some (word_str d ++ (colon ++ (not_found ++ out)), end)
              ]
            ]
      ]
    ]
  ]

  -- `main`: the number of arguments, the first state, what the record holds, and the input.
  unfoldable pub main : ℕ → S → Dictrec → Bytes → Option (Bytes × End)
  unfolding loop
  main argc s tryit input =
      if argc == 2 then loop (length input + 1) s tryit input else some ([], usage)
