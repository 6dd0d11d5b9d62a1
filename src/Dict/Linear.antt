-- ===== src/Dict/Linear.antt =====
-- homework/hw5/5-3/lookup1.c: a search through the file from its top.
pub mod Search
pub mod Entries
pub mod Calls
use linux_programming.Base.{
  ℕ, zero, suc, ◌+◌, Bool, true, false, List, [], ◌∷◌, ◌++◌, Option, none, some, if◌then◌else◌,
  length,
}
use linux_programming.Cstr.{Bytes, streq}
use linux_programming.Dict.Record.{
  Dictrec, Answer, found, notfound, Call, returns, faults, word_str, text_str, fread, answer_found,
}

-- `static FILE *in`: NULL, open on a file with these bytes, or closed.
pub data Stream : Type 0 where
  null closed : Stream
  opened : Bytes → Stream

pub record Static : Type 0 where
  pub first_time : Bool
  pub stream : Stream

abbrev pub start : Static
start = record { first_time = true; stream = null }

-- `fopen(resource, "r")`
abbrev fopen : Option Bytes → Stream
fopen none = null
fopen (some file) = opened file

-- The `while (fread(...))` loop from the current position: the record that matches, if any. The
-- outer `none`: no fuel left.
unfoldable pub scan : ℕ → Bytes → Bytes → Option (Option Dictrec)
unfolding fread
scan zero file key = none
scan (suc fuel) file key = elim (fread file) [
  | none ↦ some none
  | some (dr, rest) ↦ elim (streq (word_str dr) key) [
    | true ↦ some (some dr)
    | false ↦ scan fuel rest key
  ]
]

-- From `rewind(in)` on; `rewind` of NULL or of a closed stream is undefined.
unfoldable pub search_stream : Stream → Dictrec → Call (Static × Answer × Dictrec)
unfolding scan answer_found
search_stream null sought = faults
search_stream closed sought = faults
search_stream (opened file) sought = elim (scan (length file + 1) file (word_str sought)) [
  | none ↦ faults
  | some r ↦ elim r [
    | none ↦ returns (record { first_time = false; stream = closed }, notfound, sought)
    | some dr ↦
        answer_found (record { first_time = false; stream = opened file }) sought (text_str dr)
  ]
]

-- `lookup(sought, resource)`, with the bytes of the file that `resource` names, if it opens.
unfoldable pub lookup : Option Bytes → Static → Dictrec → Call (Static × Answer × Dictrec)
unfolding search_stream
lookup resource s sought = search_stream (if s.first_time then fopen resource else s.stream) sought
