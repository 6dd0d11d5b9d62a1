-- ===== src/Dict/Look/Files.antt =====
-- The program of main.c and lookup5.c on the file that convert.c writes for a sorted dictionary.
use linux_programming.Base.{
  ◌<◌, ◌≡◌, refl, sym, ap, ◌∙◌, List, [], ◌∷◌, ◌++◌, map, Option, none, some, arith, length, All,
  length-append, Bool-cases, inl, inr, ◌>>=◌, ◌==◌,
}
use linux_programming.Cstr.{Bytes, streq, c_str}
use linux_programming.Cstr.Arrays.{IsString, strcpy-fits}
use linux_programming.Dict.Record.{
  Dictrec, IsRecord, found, returns, word_str, text_str, text_size, answer_found,
}
use linux_programming.Dict.Record.Files.{file_of, find_record}
use linux_programming.Dict.Convert.{convert}
use linux_programming.Dict.Convert.Entries.{Entry, IsEntry, lines_bytes, render, record_of}
use linux_programming.Dict.Convert.Loop.{convert-render}
use linux_programming.Dict.Linear.Entries.{
  text_of, All-IsRecord, records_bytes-file_of, text_str-record_of, word_str-record_of,
  IsString-text,
}
use linux_programming.Dict.Sorted.{start, lookup}
use linux_programming.Dict.Sorted.Search.{
  Ascending, BsearchLaws, Ready, file_with, mapped, lookup-outcome,
}
use linux_programming.Dict.Look.{done, main}
use linux_programming.Dict.Look.Answers.{Answers, Terminated, IsWord, input_of, replies, main-words}

-- A string that ends inside its array does not reach what stands behind it.
c_str_inside :
    (array rest : Bytes) → length (c_str array) < length array → c_str (array ++ rest) ≡ c_str array
unfolding c_str
c_str_inside [] rest h = absurd (omega arith)
c_str_inside (c ∷ cs) rest h = elim (Bool-cases (c == 0)) [
  | inl e ↦ rw e refl
  | inr e ↦
      let h' : length (c_str cs) < length cs = omega (arith, (rw (c_str, e) at h)) in
      rw e (ap (λ t. c ∷ t) (c_str_inside cs rest h'))
]

pub text_found :
    (w : Bytes) (es : List Entry) (t : Bytes)
    → All IsEntry es
    → text_of w es ≡ some t
    → (e : Entry) × IsEntry e
      × (find_record w (map record_of es) ≡ some (record_of e))
      × (text_str (record_of e) ≡ t)
unfolding text_of find_record
text_found w [] t h p = cc
text_found w (e ∷ es) t h p = rw (word_str-record_of e h.0) (elim (Bool-cases (streq e.word w)) [
  | inl b ↦
      let q : some (e.word ++ lines_bytes e.lines) ≡ some t = rw (text_of, b) at p in
      (e, h.0, rw b refl, text_str-record_of e h.0 ∙ cc)
  | inr b ↦ rw b (text_found w es t h.1 (rw (text_of, b) at p))
])

pub text_absent :
    (w : Bytes) (es : List Entry)
    → All IsEntry es
    → text_of w es ≡ none
    → find_record w (map record_of es) ≡ none
unfolding text_of find_record
text_absent w [] h p = refl
text_absent w (e ∷ es) h p = rw (word_str-record_of e h.0) (elim (Bool-cases (streq e.word w)) [
  | inl b ↦ let q : some (e.word ++ lines_bytes e.lines) ≡ none = rw (text_of, b) at p in cc
  | inr b ↦ rw b (text_absent w es h.1 (rw (text_of, b) at p))
])

pub answer_found-fits :
    {S : Type 0} (s : S) (d : Dictrec) (t : Bytes)
    → IsRecord d
    → Terminated d
    → IsString t
    → length t < text_size
    → (d' : Dictrec) × (answer_found s d t ≡ returns (s, found, d'))
      × IsRecord d'
      × (word_str d' ≡ word_str d)
      × (text_str d' ≡ t)
unfolding answer_found
answer_found-fits s d t v z str h =
    let (array, copied, size, string) = strcpy-fits d.text t (omega (arith, v.text_fits)) str in
    let inside : length (c_str d.word) < length d.word = omega (arith, v.word_fits) in
    (
      record { word = d.word; text = array },
      rw (answer_found, copied) refl,
      record { word_fits = v.word_fits; text_fits = size ∙ v.text_fits },
      c_str_inside d.word array inside ∙ sym (c_str_inside d.word d.text inside),
      string,
    )

-- The binary search keeps to what main.c relies on.
lookup-Answers :
    (bsearch : Bytes → List Dictrec → Option Dictrec) (es : List Entry)
    → BsearchLaws bsearch
    → All IsEntry es
    → Ascending (map record_of es)
    → Answers
        (lookup bsearch (file_with (file_of (map record_of es))))
        (Ready (file_of (map record_of es)))
        (λ w. text_of w es)
lookup-Answers bsearch es laws h a =
    let rs = map record_of es in
    record {
      present = λ s d t r v z p.
          let (e, ve, at, text) = text_found (word_str d) es t h p in
          let str = IsString-text e ve in
          let size : length (e.word ++ lines_bytes e.lines) < text_size =
            omega (arith, ve.text_fits, length-append e.word (lines_bytes e.lines)) in
          let text' = text_str-record_of e ve in
          let (d', answered, v', word, string) =
            answer_found-fits (mapped (file_of rs)) d (e.word ++ lines_bytes e.lines) v z str
              size in
          let looked = lookup-outcome bsearch rs s d laws (All-IsRecord es h) a r in
          (
            mapped (file_of rs),
            d',
            looked ∙ rw (at, text') answered,
            inr refl,
            v',
            word,
            string ∙ sym text' ∙ text,
          );
      absent = λ s d r v z p. (
        mapped (file_of rs),
        lookup-outcome bsearch rs s d laws (All-IsRecord es h) a r
            ∙ rw (text_absent (word_str d) es h p) refl,
        inr refl,
      );
    }

-- The whole way: a dictionary in the text format, with its words in strictly ascending order, is
-- converted, and the file, which opens and is mapped, is searched by the program of main.c and
-- lookup5.c. Each word of the input is answered with the text of its entry, or not found, to the
-- end of the input. What the manual says of `bsearch` is assumed; words and definitions fit their
-- arrays, and the words of the input have at most 30 bytes and no NUL.
pub look-convert :
    (bsearch : Bytes → List Dictrec → Option Dictrec) (es : List Entry) (ws : List Bytes)
    (d : Dictrec)
    → BsearchLaws bsearch
    → All IsEntry es
    → Ascending (map record_of es)
    → All IsWord ws
    → IsRecord d
    → (convert (render es) >>= λ file.
        main (lookup bsearch (file_with file)) 2 start d (input_of ws))
      ≡ some (replies (λ w. text_of w es) ws, done)
look-convert bsearch es ws d laws h a words v = rw (convert-render es h) (
    rw (records_bytes-file_of es) (
      main-words (lookup bsearch (file_with (file_of (map record_of es))))
        (Ready (file_of (map record_of es))) (λ w. text_of w es)
        (lookup-Answers bsearch es laws h a) ws start d words (inl refl) v))
