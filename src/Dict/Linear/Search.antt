-- ===== src/Dict/Linear/Search.antt =====
-- The search of lookup1.c in files that hold records, and in what convert.c writes.
use linux_programming.Base.{
  ℕ, zero, suc, ◌+◌, ◌<◌, ◌≤◌, ◌≡◌, refl, false, List, [], ◌∷◌, Option, none, some, arith, length,
  All, length-append, Bool-cases, Option-cases, inl, inr,
}
use linux_programming.Cstr.{Bytes, streq}
use linux_programming.Dict.Record.{
  Dictrec, IsRecord, Answer, notfound, Call, returns, word_str, text_str, fread, answer_found,
  record_bytes,
}
use linux_programming.Dict.Record.Files.{file_of, fread-record, find_record, length-record_bytes}
use linux_programming.Dict.Linear.{Static, closed, opened, scan, search_stream}

scan_empty : (fuel : ℕ) (key : Bytes) → scan (suc fuel) [] key ≡ some none
unfolding scan fread
scan_empty fuel key = refl

scan-file_of :
    (key : Bytes) (rs : List Dictrec) (fuel : ℕ)
    → All IsRecord rs
    → length rs < fuel
    → scan fuel (file_of rs) key ≡ some (find_record key rs)
unfolding scan find_record
scan-file_of key rs zero h f = absurd (omega arith)
scan-file_of key [] (suc fuel) h f = scan_empty fuel key
scan-file_of key (r ∷ rs) (suc fuel) h f =
    rw (scan, fread-record r (file_of rs) h.0)
      (elim (Bool-cases (streq (word_str r) key)) [
        | inl e ↦ rw e refl
        | inr e ↦ rw e (scan-file_of key rs fuel h.1 (omega arith))
      ])

length-file_of : (rs : List Dictrec) → All IsRecord rs → length rs ≤ length (file_of rs)
length-file_of [] h = omega arith
length-file_of (r ∷ rs) h = omega (
  arith,
  length-append (record_bytes r) (file_of rs),
  length-record_bytes r h.0,
  length-file_of rs h.1,
)

-- What the search of a file of these records comes to.
abbrev pub found_in : Bytes → Option Dictrec → Dictrec → Call (Static × Answer × Dictrec)
found_in file none sought =
    returns (record { first_time = false; stream = closed }, notfound, sought)
found_in file (some r) sought =
    answer_found (record { first_time = false; stream = opened file }) sought (text_str r)

-- A search of a file of records is one for the first record with the word.
pub search_stream-file_of :
    (rs : List Dictrec) (sought : Dictrec)
    → All IsRecord rs
    → search_stream (opened (file_of rs)) sought
      ≡ found_in (file_of rs) (find_record (word_str sought) rs) sought
unfolding search_stream
search_stream-file_of rs sought h =
    rw
      (
        search_stream,
        scan-file_of (word_str sought) rs (length (file_of rs) + 1) h
            (omega (arith, length-file_of rs h)),
      )
      (elim (Option-cases (find_record (word_str sought) rs)) [
        | inl e ↦ rw e refl
        | inr (r, e) ↦ rw e refl
      ])
