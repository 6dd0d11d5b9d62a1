-- ===== src/Dict/Convert.antt =====
-- homework/hw5/5-3/convert.c: a text of words and definitions becomes a file of records.
pub mod Entries
pub mod Loop
use linux_programming.Base.{
  ℕ, zero, suc, ◌+◌, Bool, true, false, List, [], ◌∷◌, ◌++◌, Option, none, some, ◌==◌,
  if◌then◌else◌, length, ◌>>=◌,
}
use linux_programming.Cstr.{Bytes, newline, strcpy, strcat, chomp, fgets}
use linux_programming.Dict.Record.{Dictrec, blank, record_bytes}

-- BIGLINE
abbrev pub bigline : ℕ
bigline = 512

-- `dr`, `is_word` and what was written to `out`.
pub record State : Type 0 where
  pub dr : Dictrec
  pub is_word : Bool
  pub out : Bytes

abbrev pub start : State
start = record { dr = blank; is_word = true; out = [] }

-- The `if (is_word)`: the line with its newline cut off, and the word copied.
unfoldable pub take_word : State → Bytes → Option (State × Bytes)
take_word s line =
    if s.is_word
    then (do
      let word = chomp line
      array ← strcpy s.dr.word word
      some (record s { dr = record { word = array; text = s.dr.text }; is_word = false }, word))
    else some (s, line)

-- `line[0] == '\n'`
abbrev pub starts_newline : Bytes → Bool
starts_newline [] = false
starts_newline (c ∷ cs) = c == newline

-- The rest of the loop's body: the record is written at an empty line, else the line is added.
unfoldable pub take_text : State → Bytes → Option State
take_text s line =
    if starts_newline line
    then some (record { dr = blank; is_word = true; out = s.out ++ record_bytes s.dr })
    else (do
      array ← strcat s.dr.text line
      some (record s { dr = record { word = s.dr.word; text = array } }))

-- `none` is a write past the end of an array of the record.
unfoldable pub convert_line : State → Bytes → Option State
unfolding take_word take_text
convert_line s line = do (s', line') ← take_word s line; take_text s' line'

-- The `while (fgets(...))` loop; `none` also stands for no fuel left.
unfoldable pub convert_loop : ℕ → State → Bytes → Option State
unfolding convert_line fgets
convert_loop zero s input = none
convert_loop (suc fuel) s input = elim (fgets bigline input) [
  | none ↦ some s
  | some (line, rest) ↦ elim (convert_line s line) [
    | none ↦ none
    | some s' ↦ convert_loop fuel s' rest
  ]
]

-- The main reading loop on the whole input: what `out` holds at the end.
unfoldable pub convert : Bytes → Option Bytes
unfolding convert_loop
convert input = do s ← convert_loop (length input + 1) start input; some s.out

-- How `main` ends.
pub data Ending : Type 0 where
  usage no_input no_output overflow : Ending
  wrote : Bytes → Ending

abbrev written : Option Bytes → Ending
written none = overflow
written (some out) = wrote out

-- `main`: the number of arguments, the input if it opens, and whether the output opens.
unfoldable pub main : ℕ → Option Bytes → Bool → Ending
unfolding convert
main argc input output =
    if argc == 3
    then (elim input [
      | none ↦ no_input
      | some text ↦ if output then written (convert text) else no_output
    ])
    else usage
