-- ===== src/Dict/Sorted.antt =====
-- homework/hw11/11-1/lookup5.c (the copies in 11-2 and 11-3 are the same): a binary search of a
-- file that is mapped into memory.
pub mod Search
use linux_programming.Base.{
  ℕ, zero, suc, ◌/◌, Bool, true, false, List, [], ◌∷◌, ◌++◌, Option, none, some, if◌then◌else◌,
  length, take, drop,
}
use linux_programming.Cstr.{Bytes, streq}
use linux_programming.Dict.Record.{
  Dictrec, Answer, found, notfound, Call, returns, dies, faults, word_str, text_str, answer_found,
  word_size, text_size, record_size,
}

-- `first_time`, and the map that `table` points at.
pub record Static : Type 0 where
  pub first_time : Bool
  pub table : Bytes

abbrev pub start : Static
start = record { first_time = true; table = [] }

-- The file that the resource names: the bytes it has if it opens, and whether `mmap` maps them.
pub record File : Type 0 where
  pub content : Option Bytes
  pub maps : Bool

-- `numrec`
abbrev pub numrec : Bytes → ℕ
numrec table = length table / record_size

-- The table as an array of this many records.
unfoldable pub table_records : ℕ → Bytes → List Dictrec
table_records zero table = []
table_records (suc n) table =
    record { word = take word_size table; text = take text_size (drop word_size table) }
    ∷ table_records n (drop record_size table)

-- The test `dict_cmp(a, b) == 0`.
abbrev pub dict_eq : Bytes → Dictrec → Bool
dict_eq a b = streq a (word_str b)

-- The `if (first_time)`.
unfoldable pub setup : File → Static → Call Static
setup file s =
    if s.first_time
    then (elim file.content [
      | none ↦ dies
      | some bytes ↦
          if file.maps then returns (record { first_time = false; table = bytes }) else dies
    ])
    else returns s

-- `bsearch(3)` with `dict_cmp` is not under the repository: a parameter.
module _ (bsearch : Bytes → List Dictrec → Option Dictrec) where
  unfoldable pub search : Static → Dictrec → Call (Static × Answer × Dictrec)
  unfolding table_records answer_found
  search s sought = elim (bsearch (word_str sought) (table_records (numrec s.table) s.table)) [
    | none ↦ returns (s, notfound, sought)
    | some r ↦ answer_found s sought (text_str r)
  ]

  -- `lookup(sought, resource)`
  unfoldable pub lookup : File → Static → Dictrec → Call (Static × Answer × Dictrec)
  unfolding setup search
  lookup file s sought = elim (setup file s) [
    | dies ↦ dies
    | faults ↦ faults
    | returns s' ↦ search s' sought
  ]
