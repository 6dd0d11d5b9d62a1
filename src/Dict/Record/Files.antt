-- ===== src/Dict/Record/Files.antt =====
-- Files of records.
use linux_programming.Base.{
  ℕ, ◌≡◌, refl, ap, List, [], ◌∷◌, ◌++◌, map, Option, none, some, arith, length, concat,
  length-append, take, drop, take-append, drop-append, le→ltb, if◌then◌else◌,
}
use mathlib.Core.List.{append_assoc}
use linux_programming.Cstr.{Bytes, streq}
use linux_programming.Dict.Record.{
  Dictrec, IsRecord, record_bytes, word_str, fread, word_size, text_size, record_size,
}

-- The bytes of a file of these records.
abbrev pub file_of : List Dictrec → Bytes
file_of rs = concat (map record_bytes rs)

take-exact : (n : ℕ) (xs ys : Bytes) → length xs ≡ n → take n (xs ++ ys) ≡ xs
take-exact n xs ys e = rw (← e) (take-append xs ys)

drop-exact : (n : ℕ) (xs ys : Bytes) → length xs ≡ n → drop n (xs ++ ys) ≡ ys
drop-exact n xs ys e = rw (← e) (drop-append xs ys)

abbrev first_of : Bytes → Dictrec
first_of file = record { word = take word_size file; text = take text_size (drop word_size file) }

pub first_of-record :
    (r : Dictrec) (rest : Bytes) → IsRecord r → first_of (record_bytes r ++ rest) ≡ r
first_of-record r rest v = rw (append_assoc r.word r.text rest) (
    rw
      (
        take-exact word_size r.word (r.text ++ rest) v.word_fits,
        drop-exact word_size r.word (r.text ++ rest) v.word_fits,
      )
      (rw (take-exact text_size r.text rest v.text_fits) refl))

pub length-record_bytes : (r : Dictrec) → IsRecord r → length (record_bytes r) ≡ record_size
length-record_bytes r v = omega (arith, length-append r.word r.text, v.word_fits, v.text_fits)

pub drop-record :
    (r : Dictrec) (rest : Bytes) → IsRecord r → drop record_size (record_bytes r ++ rest) ≡ rest
drop-record r rest v = drop-exact record_size (record_bytes r) rest (length-record_bytes r v)

pub fread-record :
    (r : Dictrec) (rest : Bytes) → IsRecord r → fread (record_bytes r ++ rest) ≡ some (r, rest)
unfolding fread
fread-record r rest v =
    rw
      (le→ltb (length (record_bytes r ++ rest)) record_size
        (omega (arith, length-append (record_bytes r) rest, length-record_bytes r v)))
      (ap some (λ i. (first_of-record r rest v i, drop-record r rest v i)))

-- The first record with this word.
unfoldable pub find_record : Bytes → List Dictrec → Option Dictrec
find_record key [] = none
find_record key (r ∷ rs) = if streq (word_str r) key then some r else find_record key rs
