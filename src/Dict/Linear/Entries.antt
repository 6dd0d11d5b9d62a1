-- ===== src/Dict/Linear/Entries.antt =====
-- The search of lookup1.c in the file that convert.c writes for a dictionary.
use linux_programming.Base.{
  ◌<◌, ◌≡◌, ◌≢◌, refl, ap, List, [], ◌∷◌, ◌++◌, map, Option, none, some, arith, length, All,
  length-append, All-append, if◌then◌else◌, ◌>>=◌, Bool-cases, inl, inr,
}
use linux_programming.Cstr.{Bytes, newline, streq}
use linux_programming.Cstr.Arrays.{IsString, strcpy-fits}
use linux_programming.Dict.Record.{
  Dictrec, IsRecord, Answer, found, notfound, Call, returns, dies, faults, word_str, text_str,
  answer_found, record_bytes, text_size, word_size,
}
use linux_programming.Dict.Record.Padded.{padded, length-padded, c_str-padded, c_str-padded_append}
use linux_programming.Dict.Record.Files.{file_of, find_record}
use linux_programming.Dict.Convert.{convert}
use linux_programming.Dict.Convert.Entries.{
  Entry, IsEntry, IsTextLine, lines_bytes, render, record_of, records_bytes,
}
use linux_programming.Dict.Convert.Loop.{convert-render}
use linux_programming.Dict.Linear.{Static, start, lookup}
use linux_programming.Dict.Linear.Search.{found_in, search_stream-file_of}

-- The text that a dictionary gives for a word: that of its first entry.
unfoldable pub text_of : Bytes → List Entry → Option Bytes
text_of w [] = none
text_of w (e ∷ es) = if streq e.word w then some (e.word ++ lines_bytes e.lines) else text_of w es

pub IsRecord-record_of : (e : Entry) → IsEntry e → IsRecord (record_of e)
IsRecord-record_of e v = record {
  word_fits = length-padded word_size e.word (omega (arith, v.word_fits));
  text_fits =
      length-padded text_size (e.word ++ lines_bytes e.lines)
        (omega (arith, v.text_fits, length-append e.word (lines_bytes e.lines)));
}

IsString-lines_bytes : (ls : List Bytes) → All IsTextLine ls → IsString (lines_bytes ls)
IsString-lines_bytes [] h = tt
IsString-lines_bytes (l ∷ ls) h =
    All-append (λ c. c ≢ 0) l (newline ∷ lines_bytes ls) h.0.2
      ((λ e. absurd (omega arith)), IsString-lines_bytes ls h.1)

pub IsString-text : (e : Entry) → IsEntry e → IsString (e.word ++ lines_bytes e.lines)
IsString-text e v =
    All-append (λ c. c ≢ 0) e.word (lines_bytes e.lines) v.word_string
      (IsString-lines_bytes e.lines v.lines_text)

pub text_str-record_of :
    (e : Entry) → IsEntry e → text_str (record_of e) ≡ e.word ++ lines_bytes e.lines
text_str-record_of e v =
    c_str-padded text_size (e.word ++ lines_bytes e.lines) (IsString-text e v)
      (omega (arith, v.text_fits, length-append e.word (lines_bytes e.lines)))

pub word_str-record_of : (e : Entry) → IsEntry e → word_str (record_of e) ≡ e.word
word_str-record_of e v =
    c_str-padded_append word_size e.word (padded text_size (e.word ++ lines_bytes e.lines))
      v.word_string v.word_fits

pub All-IsRecord : (es : List Entry) → All IsEntry es → All IsRecord (map record_of es)
All-IsRecord [] h = tt
All-IsRecord (e ∷ es) h = (IsRecord-record_of e h.0, All-IsRecord es h.1)

pub records_bytes-file_of : (es : List Entry) → records_bytes es ≡ file_of (map record_of es)
records_bytes-file_of [] = refl
records_bytes-file_of (e ∷ es) =
    ap (λ t. record_bytes (record_of e) ++ t) (records_bytes-file_of es)

-- What a caller sees of a result: FOUND and the string in the text, or another answer.
abbrev pub heard {ℓ} : {S : Type ℓ} → Call (S × Answer × Dictrec) → Call (Answer × Option Bytes)
heard (returns (s, found, d)) = returns (found, some (text_str d))
heard (returns (s, a, d)) = returns (a, none)
heard dies = dies
heard faults = faults

abbrev pub answer_of : Option Bytes → Answer × Option Bytes
answer_of none = (notfound, none)
answer_of (some t) = (found, some t)

heard-answer_found :
    (s : Static) (sought : Dictrec) (text : Bytes)
    → IsRecord sought
    → IsString text
    → length text < text_size
    → heard (answer_found s sought text) ≡ returns (found, some text)
unfolding answer_found
heard-answer_found s sought text v str h =
    let (array, copied, size, string) =
      strcpy-fits sought.text text (omega (arith, v.text_fits)) str in
    rw (heard, answer_found, copied) (rw string refl)

heard-found_in :
    (file : Bytes) (es : List Entry) (sought : Dictrec)
    → All IsEntry es
    → IsRecord sought
    → heard (found_in file (find_record (word_str sought) (map record_of es)) sought)
      ≡ returns (answer_of (text_of (word_str sought) es))
unfolding find_record text_of
heard-found_in file [] sought h v = refl
heard-found_in file (e ∷ es) sought h v =
    rw (word_str-record_of e h.0) (elim (Bool-cases (streq e.word (word_str sought))) [
      | inl b ↦ rw b (
          rw (text_str-record_of e h.0) (
            heard-answer_found _ sought (e.word ++ lines_bytes e.lines) v (IsString-text e h.0)
              (omega (arith, h.0.text_fits, length-append e.word (lines_bytes e.lines)))))
      | inr b ↦ rw b (heard-found_in file es sought h.1 v)
    ])

-- The program `look` on the file that `convert` writes for a dictionary in the text format, whose
-- words and definitions fit: the first lookup answers FOUND with the word and the lines of the
-- first entry for the word asked, and NOTFOUND where there is none; no array is overrun.
pub lookup-convert :
    (es : List Entry) (sought : Dictrec)
    → All IsEntry es
    → IsRecord sought
    → (convert (render es) >>= λ file. some (heard (lookup (some file) start sought)))
      ≡ some (returns (answer_of (text_of (word_str sought) es)))
unfolding lookup
lookup-convert es sought h v = rw (convert-render es h) (
    rw (records_bytes-file_of es) (
      rw (search_stream-file_of (map record_of es) sought (All-IsRecord es h))
        (ap some (heard-found_in _ es sought h v))))
