-- ===== src/Dict/Tests.antt =====
-- Runs of the dictionary's programs on a small dictionary, and each theorem at a concrete input.
use linux_programming.Base.{
  ℕ, ◌≡◌, ◌≢◌, inl, inr, refl, sym, ◌∙◌, Bool, true, false, List, [], ◌∷◌, map, Option, none, some,
  arith, All, ◌==◌, ◌>>=◌, if◌then◌else◌, Bool-cases,
}
use linux_programming.Cstr.{Bytes, codes, newline, streq, strcmp, c_str}
use linux_programming.Cstr.Arrays.{IsString}
use linux_programming.Cstr.Streams.{IsLine}
use linux_programming.Cstr.Compare.{ne_of_streq}
use linux_programming.Dict.Record.{
  Dictrec, IsRecord, Answer, found, notfound, Call, returns, faults, word_str, text_str,
}
use linux_programming.Dict.Record.Files.{file_of, find_record}
use linux_programming.Dict.Convert.{convert}
use linux_programming.Dict.Convert.Entries.{
  Entry, IsEntry, IsTextLine, render, record_of, records_bytes,
}
use linux_programming.Dict.Convert.Loop.{convert-render}
use linux_programming.Dict.Linear as Linear
use linux_programming.Dict.Linear.Entries.{text_of, heard, answer_of, lookup-convert, All-IsRecord}
use linux_programming.Dict.Linear.Calls.{calls, calls-absent}
use linux_programming.Dict.Sorted as Sorted
use linux_programming.Dict.Sorted.Search.{Ascending, Among, BsearchLaws, file_with, lookup-linear}
use linux_programming.Dict.Remote.{marker}
use linux_programming.Dict.Remote.Dialogue.{remote, remote-lookup}
use linux_programming.Dict.Look.{done, main}
use linux_programming.Dict.Look.Answers.{Answers, IsWord, input_of, replies, main-words}
use linux_programming.Dict.Look.Files.{look-convert}

-- No byte is NUL or a newline.
pub plain : Bytes → Bool
plain [] = true
plain (c ∷ cs) =
    let rest = plain cs in if c == 0 then false else if c == newline then false else rest

pub IsLine-plain : (s : Bytes) → plain s ≡ true → IsLine s × IsString s
unfolding plain
IsLine-plain [] h = (tt, tt)
IsLine-plain (c ∷ cs) h = elim (Bool-cases (c == 0)) [
  | inl e ↦ absurd (ground (arith, e, h))
  | inr e ↦ elim (Bool-cases (c == newline)) [
    | inl f ↦ absurd (ground (arith, e, f, h))
    | inr f ↦
        let h' : plain cs ≡ true = ground (arith, e, f, h) in
        let (l, s) = IsLine-plain cs h' in (((ground (arith, f)), l), ((ground (arith, e)), s))
  ]
]

abbrev ant : Entry
ant = record { word = codes "ant"; lines = codes "small" ∷ [] }

abbrev bee : Entry
bee = record { word = codes "bee"; lines = codes "buzzes" ∷ codes "flies" ∷ [] }

abbrev pub insects : List Entry
insects = ant ∷ bee ∷ []

text_line : (c : ℕ) (s : Bytes) → plain (c ∷ s) ≡ true → IsTextLine (c ∷ s)
text_line c s h =
    let (l, str) = IsLine-plain (c ∷ s) h in
    ((λ e. absurd (ne_of_streq (c ∷ s) [] (unfold streq in refl) e)), l, str)

pub plain-ant : plain (codes "ant") ≡ true
unfolding plain
plain-ant = refl

pub plain-bee : plain (codes "bee") ≡ true
unfolding plain
plain-bee = refl

plain-small : plain (codes "small") ≡ true
unfolding plain
plain-small = refl

plain-buzzes : plain (codes "buzzes") ≡ true
unfolding plain
plain-buzzes = refl

plain-flies : plain (codes "flies") ≡ true
unfolding plain
plain-flies = refl

IsEntry-ant : IsEntry ant
IsEntry-ant = record {
  word_line = (IsLine-plain (codes "ant") plain-ant).0;
  word_string = (IsLine-plain (codes "ant") plain-ant).1;
  word_fits = omega arith;
  lines_text = (text_line _ _ plain-small, tt);
  text_fits = omega arith;
}

IsEntry-bee : IsEntry bee
IsEntry-bee = record {
  word_line = (IsLine-plain (codes "bee") plain-bee).0;
  word_string = (IsLine-plain (codes "bee") plain-bee).1;
  word_fits = omega arith;
  lines_text = (text_line _ _ plain-buzzes, (text_line _ _ plain-flies, tt));
  text_fits = omega arith;
}

pub IsEntry-insects : All IsEntry insects
IsEntry-insects = (IsEntry-ant, (IsEntry-bee, tt))

convert-render_example : convert (render insects) ≡ some (records_bytes insects)
convert-render_example = convert-render insects IsEntry-insects

abbrev cat : Entry
cat = record { word = codes "cat"; lines = [] }

pub plain-cat : plain (codes "cat") ≡ true
unfolding plain
plain-cat = refl

IsEntry-cat : IsEntry cat
IsEntry-cat = record {
  word_line = (IsLine-plain (codes "cat") plain-cat).0;
  word_string = (IsLine-plain (codes "cat") plain-cat).1;
  word_fits = omega arith;
  lines_text = tt;
  text_fits = omega arith;
}

-- Questions: the records of entries serve.
IsRecord-ant : IsRecord (record_of ant)
IsRecord-ant = (All-IsRecord (ant ∷ []) (IsEntry-ant, tt)).0

pub IsRecord-cat : IsRecord (record_of cat)
IsRecord-cat = (All-IsRecord (cat ∷ []) (IsEntry-cat, tt)).0

abbrev table : List Dictrec
table = map record_of insects

IsRecord-table : All IsRecord table
IsRecord-table = All-IsRecord insects IsEntry-insects

lookup-convert_example :
    (convert (render insects) >>= λ file.
    some (heard (Linear.lookup (some file) Linear.start (record_of ant))))
    ≡ some (returns (answer_of (text_of (word_str (record_of ant)) insects)))
lookup-convert_example = lookup-convert insects (record_of ant) IsEntry-insects IsRecord-ant

find_record-ant : find_record (word_str (record_of ant)) table ≡ some (record_of ant)
unfolding find_record streq c_str
find_record-ant = refl

find_record-cat : find_record (word_str (record_of cat)) table ≡ none
unfolding find_record streq c_str
find_record-cat = refl

here-ant : find_record (word_str (record_of ant)) table ≢ none
here-ant e = let p : some (record_of ant) ≡ none = sym find_record-ant ∙ e in absurd cc

calls-absent_example :
    calls (some (file_of table)) Linear.start (record_of cat ∷ record_of ant ∷ [])
    ≡ returns (notfound, record_of cat) ∷ faults ∷ []
calls-absent_example =
    calls-absent table (record_of cat) (record_of ant) [] IsRecord-table find_record-cat

-- A `bsearch`: the first element that compares equal.
bsearch : Bytes → List Dictrec → Option Dictrec
bsearch key [] = none
bsearch key (r ∷ rs) = let rest = bsearch key rs in if streq key (word_str r) then some r else rest

bsearch-some :
    (key : Bytes) (rs : List Dictrec) (r : Dictrec)
    → bsearch key rs ≡ some r
    → Among r rs × (streq key (word_str r) ≡ true)
unfolding bsearch
bsearch-some key [] r e = cc
bsearch-some key (x ∷ rs) r e = elim (Bool-cases (streq key (word_str x))) [
  | inl b ↦ let p : some x ≡ some r = rw (bsearch, b) at e in let q : r ≡ x = cc in (inl q, rw q b)
  | inr b ↦
      let p : bsearch key rs ≡ some r = rw (bsearch, b) at e in
      let (m, q) = bsearch-some key rs r p in (inr m, q)
]

bsearch-none :
    (key : Bytes) (rs : List Dictrec)
    → bsearch key rs ≡ none
    → All (λ r. streq key (word_str r) ≡ false) rs
unfolding bsearch
bsearch-none key [] e = tt
bsearch-none key (x ∷ rs) e = elim (Bool-cases (streq key (word_str x))) [
  | inl b ↦ let p : some x ≡ none = rw (bsearch, b) at e in absurd cc
  | inr b ↦ (b, bsearch-none key rs (rw (bsearch, b) at e))
]

bsearch-BsearchLaws : BsearchLaws bsearch
bsearch-BsearchLaws = record {
  found_matches = λ key rs r a e. bsearch-some key rs r e;
  null_absent = λ key rs a e. bsearch-none key rs e;
}

Ascending-table : Ascending table
unfolding strcmp c_str
Ascending-table = ((refl, tt), (tt, tt))

lookup-linear_example :
    heard (Sorted.lookup bsearch (file_with (file_of table)) Sorted.start (record_of ant))
    ≡ heard (Linear.lookup (some (file_of table)) Linear.start (record_of ant))
lookup-linear_example =
    lookup-linear bsearch table Sorted.start (record_of ant) bsearch-BsearchLaws IsRecord-table
      Ascending-table (inl refl)

-- A lookup that finds every word with the text of its question.
abbrev echo : Bool → Dictrec → Call (Bool × Answer × Dictrec)
echo s d = returns (s, found, d)

unlike : streq (text_str (record_of ant)) marker ≡ false
unfolding streq c_str
unlike = refl

text-ant : text_str (record_of ant) ≢ marker
text-ant = ne_of_streq (text_str (record_of ant)) marker unlike

remote-lookup_example : heard (remote echo true (record_of ant)) ≡ heard (echo true (record_of ant))
remote-lookup_example =
    remote-lookup echo true true (record_of ant) (record_of ant) found refl IsRecord-ant
      (inr (refl, text-ant))

Answers-echo_none :
    Answers (λ (s : Bool) (d : Dictrec). returns (s, notfound, d)) (λ s. Unit) (λ w. none)
Answers-echo_none = record {
  present = λ s d t r v z p. absurd cc;
  absent = λ s d r v z p. (s, refl, tt);
}

IsWord-ant : IsWord (codes "ant")
IsWord-ant = (
  (IsLine-plain (codes "ant") plain-ant).0,
  (IsLine-plain (codes "ant") plain-ant).1,
  omega arith,
)

abbrev questions : List Bytes
questions = codes "ant" ∷ codes "ant" ∷ []

main-words_example :
    main
      (λ (s : Bool) (d : Dictrec). returns (s, notfound, d))
      2
      true
      (record_of ant)
      (input_of questions)
    ≡ some (replies (λ w. none) questions, done)
main-words_example =
    main-words (λ (s : Bool) (d : Dictrec). returns (s, notfound, d)) (λ s. Unit) (λ w. none)
      Answers-echo_none questions true (record_of ant) (IsWord-ant, (IsWord-ant, tt)) tt
      IsRecord-ant

look-convert_example :
    (convert (render insects) >>= λ file.
    main
      (Sorted.lookup bsearch (file_with file))
      2
      Sorted.start
      (record_of cat)
      (input_of questions))
    ≡ some (replies (λ w. text_of w insects) questions, done)
look-convert_example =
    look-convert bsearch insects questions (record_of cat) bsearch-BsearchLaws IsEntry-insects
      Ascending-table (IsWord-ant, (IsWord-ant, tt)) IsRecord-cat
