-- ===== src/Dict/Convert/Entries.antt =====
-- The text format of a dictionary, and what `convert` makes of it.
use linux_programming.Base.{
  ◌+◌, ◌<◌, ◌≡◌, ◌≢◌, refl, true, false, List, [], ◌∷◌, ◌++◌, map, some, arith, length, All, concat,
  length-append,
}
use linux_programming.Cstr.{Bytes, newline, chomp}
use linux_programming.Cstr.Arrays.{IsString}
use linux_programming.Cstr.Streams.{IsLine}
use linux_programming.Dict.Record.{Dictrec, blank, record_bytes, word_size, text_size}
use linux_programming.Dict.Record.Padded.{padded, strcpy-padded, strcat-padded}
use linux_programming.Dict.Convert.{starts_newline, State, take_word, take_text, convert_line}

-- A word and the lines of its definition.
pub record Entry : Type 0 where
  pub word : Bytes
  pub lines : List Bytes

-- Each line and its newline.
abbrev pub lines_bytes : List Bytes → Bytes
lines_bytes [] = []
lines_bytes (l ∷ ls) = l ++ newline ∷ lines_bytes ls

-- A line of a definition: not empty, no newline and no NUL in it.
abbrev pub IsTextLine : Bytes → Type 0
IsTextLine l = (l ≢ []) × IsLine l × IsString l

-- The word fits its array; word and definition together fit the array of the text.
pub record IsEntry (e : Entry) : Type 0 where
  pub word_line : IsLine e.word
  pub word_string : IsString e.word
  pub word_fits : length e.word < word_size
  pub lines_text : All IsTextLine e.lines
  pub text_fits : length e.word + length (lines_bytes e.lines) < text_size

-- The record that `convert` makes: its text starts with the word.
abbrev pub record_of : Entry → Dictrec
record_of e = record {
  word = padded word_size e.word;
  text = padded text_size (e.word ++ lines_bytes e.lines);
}

abbrev pub entry_bytes : Entry → Bytes
entry_bytes e = e.word ++ newline ∷ lines_bytes e.lines

-- The dictionary as text: an empty line behind each entry.
abbrev pub render : List Entry → Bytes
render [] = []
render (e ∷ es) = entry_bytes e ++ newline ∷ render es

abbrev pub records_bytes : List Entry → Bytes
records_bytes es = concat (map (λ e. record_bytes (record_of e)) es)

chomp-line : (s : Bytes) → IsLine s → chomp (s ++ newline ∷ []) ≡ s
unfolding chomp
chomp-line [] h = refl
chomp-line (c ∷ s) h = ground (arith, chomp-line s h.1)

-- Inside an entry: the word is there, and the text so far.
abbrev pub within : Bytes → Bytes → Bytes → State
within w t out = record {
  dr = record { word = padded word_size w; text = padded text_size t };
  is_word = false;
  out = out;
}

abbrev pub fresh : Bytes → State
fresh out = record { dr = blank; is_word = true; out = out }

take_text-add :
    (w t out line : Bytes)
    → starts_newline line ≡ false
    → IsString t
    → length t + length line < text_size
    → take_text (within w t out) line ≡ some (within w (t ++ line) out)
unfolding take_text
take_text-add w t out line n str h = rw n (rw (strcat-padded text_size t line str h) refl)

starts_newline-line : (w : Bytes) → IsLine w → starts_newline w ≡ false
starts_newline-line [] h = refl
starts_newline-line (c ∷ w) h = ground (arith, h.0)

pub convert_line-word :
    (w out : Bytes)
    → IsLine w
    → IsString w
    → length w < word_size
    → convert_line (fresh out) (w ++ newline ∷ []) ≡ some (within w w out)
unfolding convert_line take_word
convert_line-word w out l str h =
    rw (chomp-line w l, strcpy-padded word_size [] w (omega arith) h)
      (take_text-add w [] out w (starts_newline-line w l) tt (omega arith))

pub convert_line-text :
    (w t out l : Bytes)
    → IsTextLine l
    → IsString t
    → length t + length l + 1 < text_size
    → convert_line (within w t out) (l ++ newline ∷ [])
      ≡ some (within w (t ++ (l ++ newline ∷ [])) out)
unfolding convert_line take_word
convert_line-text w t out [] n str h = absurd (n.0 refl)
convert_line-text w t out (c ∷ l) n str h =
    take_text-add w t out (c ∷ (l ++ newline ∷ [])) (ground (arith, n.1.0)) str
      (omega (arith, length-append l (newline ∷ [])))

pub convert_line-empty :
    (w t out : Bytes)
    → convert_line (within w t out) (newline ∷ [])
      ≡ some (fresh (out ++ (padded word_size w ++ padded text_size t)))
unfolding convert_line take_word take_text
convert_line-empty w t out = refl
