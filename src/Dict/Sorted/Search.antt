-- ===== src/Dict/Sorted/Search.antt =====
-- The search of lookup5.c in a sorted file of records, beside that of lookup1.c.
use Prim.Native.Nat.{Ordering}
use linux_programming.Base.{
  ◌*◌, ◌≡◌, refl, sym, ap, ◌∙◌, true, false, List, [], ◌∷◌, Option, none, some, arith, length, All,
  length-append, Bool-cases, Option-cases, inl, inr, ◌⊎◌,
}
use linux_programming.Cstr.{Bytes, streq, strcmp, strcpy}
use linux_programming.Cstr.Compare.{streq_refl, streq→eq}
use linux_programming.Dict.Record.{
  Dictrec, IsRecord, Answer, notfound, Call, returns, word_str, text_str, answer_found,
  record_bytes, record_size,
}
use linux_programming.Dict.Record.Files.{
  file_of, first_of-record, drop-record, length-record_bytes, find_record,
}
use linux_programming.Dict.Linear.{opened}
use linux_programming.Dict.Linear.Search.{found_in, search_stream-file_of}
use linux_programming.Dict.Linear.Entries.{heard}
use linux_programming.Dict.Linear as Linear
use linux_programming.Dict.Sorted.{
  Static, start, File, numrec, table_records, dict_eq, search, lookup,
}

-- Each word comes before the words of all records behind it.
abbrev pub Ascending : List Dictrec → Type 0
Ascending [] = Unit
Ascending (r ∷ rs) = All (λ r'. strcmp (word_str r) (word_str r') ≡ Ordering.lt) rs × Ascending rs

-- The record is one of the table.
abbrev pub Among : Dictrec → List Dictrec → Type 0
Among r [] = ⊥
Among r (x ∷ xs) = (r ≡ x) ⊎ Among r xs

-- What the manual of `bsearch` says of an array in ascending order: the result is an element that
-- compares equal to the key, or NULL where no element does.
pub record BsearchLaws (bsearch : Bytes → List Dictrec → Option Dictrec) : Type 0 where
  pub found_matches :
      (key : Bytes) (table : List Dictrec) (r : Dictrec)
      → Ascending table
      → bsearch key table ≡ some r
      → Among r table × (dict_eq key r ≡ true)
  pub null_absent :
      (key : Bytes) (table : List Dictrec)
      → Ascending table
      → bsearch key table ≡ none
      → All (λ r. dict_eq key r ≡ false) table

table_records-file_of :
    (rs : List Dictrec) → All IsRecord rs → table_records (length rs) (file_of rs) ≡ rs
unfolding table_records
table_records-file_of [] h = refl
table_records-file_of (r ∷ rs) h =
    rw (drop-record r (file_of rs) h.0)
      (rw (table_records-file_of rs h.1) (ap (λ x. x ∷ rs) (first_of-record r (file_of rs) h.0)))

length-file_of :
    (rs : List Dictrec) → All IsRecord rs → length (file_of rs) ≡ length rs * record_size
length-file_of [] h = refl
length-file_of (r ∷ rs) h = omega (
  arith,
  length-append (record_bytes r) (file_of rs),
  length-record_bytes r h.0,
  length-file_of rs h.1,
)

numrec-file_of : (rs : List Dictrec) → All IsRecord rs → numrec (file_of rs) ≡ length rs
numrec-file_of rs h = omega (arith, length-file_of rs h)

streq_sym : (a b : Bytes) → streq a b ≡ true → streq b a ≡ true
streq_sym a b h = rw (streq→eq a b h) (streq_refl b)

find_record-absent :
    (key : Bytes) (rs : List Dictrec)
    → All (λ r. dict_eq key r ≡ false) rs
    → find_record key rs ≡ none
unfolding find_record
find_record-absent key [] h = refl
find_record-absent key (r ∷ rs) h = elim (Bool-cases (streq (word_str r) key)) [
  | inl e ↦ cc (streq_sym (word_str r) key e, h.0)
  | inr e ↦ rw e (find_record-absent key rs h.1)
]

strcmp_refl : (a : Bytes) → strcmp a a ≡ Ordering.eq
unfolding strcmp
strcmp_refl [] = refl
strcmp_refl (x ∷ xs) = ground (arith, strcmp_refl xs)

lt_ne : (a b : Bytes) → strcmp a b ≡ Ordering.lt → streq a b ≡ false
unfolding streq
lt_ne a b h = rw (streq, h) refl

below :
    (r x : Dictrec) (rs : List Dictrec)
    → All (λ r'. strcmp (word_str x) (word_str r') ≡ Ordering.lt) rs
    → Among r rs
    → streq (word_str x) (word_str r) ≡ false
below r x [] h m = absurd m
below r x (y ∷ rs) h (inl e) = rw e (lt_ne (word_str x) (word_str y) h.0)
below r x (y ∷ rs) h (inr m) = below r x rs h.1 m

find_record-Among :
    (key : Bytes) (r : Dictrec) (rs : List Dictrec)
    → Ascending rs
    → Among r rs
    → dict_eq key r ≡ true
    → find_record key rs ≡ some r
unfolding find_record
find_record-Among key r [] a m e = absurd m
find_record-Among key r (x ∷ rs) a (inl p) e =
    let h : streq (word_str x) key ≡ true = rw (← p) (streq_sym key (word_str r) e) in
    rw h (ap some (sym p))
find_record-Among key r (x ∷ rs) a (inr m) e =
    let h : streq (word_str x) key ≡ false =
      rw (streq→eq key (word_str r) e) (below r x rs a.0 m) in
    rw h (find_record-Among key r rs a.1 m e)

bsearch-find_record :
    (bsearch : Bytes → List Dictrec → Option Dictrec)
    → BsearchLaws bsearch
    → (key : Bytes) (rs : List Dictrec) → Ascending rs
    → bsearch key rs ≡ find_record key rs
bsearch-find_record bsearch laws key rs a = elim (Option-cases (bsearch key rs)) [
  | inl e ↦ e ∙ sym (find_record-absent key rs (laws.null_absent key rs a e))
  | inr (r, e) ↦
      let (m, eq) = laws.found_matches key rs r a e in e ∙ sym (find_record-Among key r rs a m eq)
]

-- The static data once the file is mapped.
abbrev pub mapped : Bytes → Static
mapped bytes = record { first_time = false; table = bytes }

-- What the search of a mapped file of these records comes to.
abbrev pub outcome : Bytes → Option Dictrec → Dictrec → Call (Static × Answer × Dictrec)
outcome file none sought = returns (mapped file, notfound, sought)
outcome file (some r) sought = answer_found (mapped file) sought (text_str r)

search-outcome :
    (bsearch : Bytes → List Dictrec → Option Dictrec) (rs : List Dictrec) (sought : Dictrec)
    → BsearchLaws bsearch
    → All IsRecord rs
    → Ascending rs
    → search bsearch (mapped (file_of rs)) sought
      ≡ outcome (file_of rs) (find_record (word_str sought) rs) sought
unfolding search
search-outcome bsearch rs sought laws h a =
    rw (search, numrec-file_of rs h)
      (rw (table_records-file_of rs h) (
        rw (bsearch-find_record bsearch laws (word_str sought) rs a)
          (elim (Option-cases (find_record (word_str sought) rs)) [
            | inl e ↦ rw e refl
            | inr (r, e) ↦ rw e refl
          ])))

-- The states between calls.
abbrev pub Ready : Bytes → Static → Type 0
Ready file s = (s ≡ start) ⊎ (s ≡ mapped file)

-- A file that opens and can be mapped.
abbrev pub file_with : Bytes → File
file_with bytes = record { content = some bytes; maps = true }

pub lookup-outcome :
    (bsearch : Bytes → List Dictrec → Option Dictrec) (rs : List Dictrec) (s : Static)
    (sought : Dictrec)
    → BsearchLaws bsearch
    → All IsRecord rs
    → Ascending rs
    → Ready (file_of rs) s
    → lookup bsearch (file_with (file_of rs)) s sought
      ≡ outcome (file_of rs) (find_record (word_str sought) rs) sought
unfolding lookup
lookup-outcome bsearch rs s sought laws h a (inl e) =
    rw (e, lookup) (search-outcome bsearch rs sought laws h a)
lookup-outcome bsearch rs s sought laws h a (inr e) =
    rw (e, lookup) (search-outcome bsearch rs sought laws h a)

heard_same :
    (s : Static) (s' : Linear.Static) (sought : Dictrec) (text : Bytes)
    → heard (answer_found s sought text) ≡ heard (answer_found s' sought text)
unfolding answer_found
heard_same s s' sought text = elim (Option-cases (strcpy sought.text text)) [
  | inl f ↦ rw (heard, answer_found, f) refl
  | inr (array, f) ↦ rw (heard, answer_found, f) refl
]

heard-outcome :
    (file : Bytes) (o : Option Dictrec) (sought : Dictrec)
    → heard (outcome file o sought) ≡ heard (found_in file o sought)
heard-outcome file none sought = refl
heard-outcome file (some r) sought = heard_same (mapped file) _ sought (text_str r)

-- In a file of records in ascending order of their words, which opens and can be mapped, the binary
-- search gives every call, the first or a later one, the answer and the text that the linear
-- search of lookup1.c gives as the first call of a process. What the manual says of `bsearch` is
-- assumed.
pub lookup-linear :
    (bsearch : Bytes → List Dictrec → Option Dictrec) (rs : List Dictrec) (s : Static)
    (sought : Dictrec)
    → BsearchLaws bsearch
    → All IsRecord rs
    → Ascending rs
    → Ready (file_of rs) s
    → heard (lookup bsearch (file_with (file_of rs)) s sought)
      ≡ heard (Linear.lookup (some (file_of rs)) Linear.start sought)
unfolding Linear.lookup
lookup-linear bsearch rs s sought laws h a r =
    rw
      (
        lookup-outcome bsearch rs s sought laws h a r,
        Linear.lookup,
        search_stream-file_of rs sought h,
      )
      (heard-outcome (file_of rs) (find_record (word_str sought) rs) sought)
