-- ===== src/Dict/Convert/Loop.antt =====
-- The main loop of convert.c over a dictionary in the text format.
use linux_programming.Base.{
  ℕ, zero, suc, ◌+◌, ◌<◌, ◌≡◌, ◌≢◌, refl, ◌∙◌, List, [], ◌∷◌, ◌++◌, Option, some, arith, length,
  All, length-append, All-append,
}
use mathlib.Core.List.{append_assoc, append-nil}
use linux_programming.Cstr.{Bytes, newline}
use linux_programming.Cstr.Arrays.{IsString}
use linux_programming.Cstr.Streams.{IsLine, fgets-line}
use linux_programming.Dict.Record.{record_bytes, text_size}
use linux_programming.Dict.Convert.{State, convert_line, convert_loop, convert}
use linux_programming.Dict.Convert.Entries.{
  Entry, IsEntry, IsTextLine, lines_bytes, entry_bytes, render, records_bytes, record_of, within,
  fresh, convert_line-word, convert_line-text, convert_line-empty,
}

loop_line :
    (fuel : ℕ) (s s' : State) (l rest : Bytes)
    → IsLine l
    → length l < 511
    → convert_line s (l ++ newline ∷ []) ≡ some s'
    → convert_loop (suc fuel) s (l ++ newline ∷ rest) ≡ convert_loop fuel s' rest
unfolding convert_loop
loop_line fuel s s' l rest line h e = rw (fgets-line 511 l rest line h, convert_loop) (rw e refl)

-- What the loop gives from `s` on `rest`, with any fuel above its length.
abbrev Gives : State → Bytes → Option State → Type 0
Gives s rest r = (fuel : ℕ) → length rest < fuel → convert_loop fuel s rest ≡ r

Gives-line :
    (s s' : State) (l rest : Bytes) (r : Option State)
    → IsLine l
    → length l < 511
    → convert_line s (l ++ newline ∷ []) ≡ some s'
    → Gives s' rest r
    → Gives s (l ++ newline ∷ rest) r
Gives-line s s' l rest r line h e k zero f = absurd (omega arith)
Gives-line s s' l rest r line h e k (suc fuel) f =
    loop_line fuel s s' l rest line h e ∙ k fuel (omega (arith, length-append l (newline ∷ rest)))

IsString-line : (l : Bytes) → IsString l → IsString (l ++ newline ∷ [])
IsString-line l h = All-append (λ c. c ≢ 0) l (newline ∷ []) h ((λ e. absurd (omega arith)), tt)

Gives-lines :
    (ls : List Bytes) (w t out rest : Bytes) (r : Option State)
    → All IsTextLine ls
    → IsString t
    → length t + length (lines_bytes ls) < text_size
    → Gives (within w (t ++ lines_bytes ls) out) rest r
    → Gives (within w t out) (lines_bytes ls ++ rest) r
Gives-lines [] w t out rest r h str f k = rw (← append-nil t) k
Gives-lines (l ∷ ls) w t out rest r h str f k =
    let t' = t ++ (l ++ newline ∷ []) in
    let whole : t' ++ lines_bytes ls ≡ t ++ lines_bytes (l ∷ ls) = simp append_assoc in
    let size : length t' ≡ length t + length l + 1 =
      omega (arith, length-append t (l ++ newline ∷ []), length-append l (newline ∷ [])) in
    let full : length (lines_bytes (l ∷ ls)) ≡ length l + suc (length (lines_bytes ls)) =
      length-append l (newline ∷ lines_bytes ls) in
    rw (append_assoc l (newline ∷ lines_bytes ls) rest) (
      Gives-line (within w t out) (within w t' out) l (lines_bytes ls ++ rest) r h.0.1 (omega arith)
        (convert_line-text w t out l h.0 str (omega arith))
        (Gives-lines ls w t' out rest r h.1
          (All-append (λ c. c ≢ 0) t (l ++ newline ∷ []) str (IsString-line l h.0.2)) (omega arith)
          (rw whole k)))

-- One entry and the empty line behind it.
Gives-entry :
    (e : Entry) (out rest : Bytes) (r : Option State)
    → IsEntry e
    → Gives (fresh (out ++ record_bytes (record_of e))) rest r
    → Gives (fresh out) (entry_bytes e ++ newline ∷ rest) r
Gives-entry e out rest r v k =
    rw (append_assoc e.word (newline ∷ lines_bytes e.lines) (newline ∷ rest)) (
      Gives-line (fresh out) (within e.word e.word out) e.word _ r v.word_line
        (omega (arith, v.word_fits))
        (convert_line-word e.word out v.word_line v.word_string v.word_fits)
        (Gives-lines e.lines e.word e.word out (newline ∷ rest) r v.lines_text v.word_string
          v.text_fits
          (Gives-line _ _ [] rest r tt (omega arith)
            (convert_line-empty e.word (e.word ++ lines_bytes e.lines) out) k)))

Gives-entries :
    (es : List Entry) (out rest : Bytes) (r : Option State)
    → All IsEntry es
    → Gives (fresh (out ++ records_bytes es)) rest r
    → Gives (fresh out) (render es ++ rest) r
Gives-entries [] out rest r h k = rw (← append-nil out) k
Gives-entries (e ∷ es) out rest r h k =
    rw (append_assoc (entry_bytes e) (newline ∷ render es) rest) (
      Gives-entry e out (render es ++ rest) r h.0 (
        Gives-entries es (out ++ record_bytes (record_of e)) rest r h.1
          (rw (append_assoc out (record_bytes (record_of e)) (records_bytes es)) k)))

Gives-end : (s : State) → Gives s [] (some s)
Gives-end s zero h = absurd (omega arith)
Gives-end s (suc fuel) h = unfold convert_loop in refl

Gives-last :
    (e : Entry) (out : Bytes)
    → IsEntry e
    → Gives
        (within e.word e.word out)
        (lines_bytes e.lines)
        (some (within e.word (e.word ++ lines_bytes e.lines) out))
Gives-last e out v = rw (append-nil (lines_bytes e.lines)) at (
    Gives-lines e.lines e.word e.word out []
      (some (within e.word (e.word ++ lines_bytes e.lines) out)) v.lines_text v.word_string
      v.text_fits (Gives-end _))

convert-Gives :
    (input : Bytes) (s : State) → Gives (fresh []) input (some s) → convert input ≡ some s.out
unfolding convert
convert-Gives input s g = rw (g (length input + 1) (omega arith)) refl

-- A dictionary in the text format, whose words and definitions fit the arrays of a record, is
-- converted with no write past an array into one record for each entry, in order. The text of a
-- record is the word followed by the lines of its definition.
pub convert-render :
    (es : List Entry) → All IsEntry es → convert (render es) ≡ some (records_bytes es)
convert-render es h = convert-Gives (render es) (fresh (records_bytes es)) (
    rw (← append-nil (render es))
      (Gives-entries es [] [] _ h (Gives-end (fresh (records_bytes es)))))

-- An entry at the end of the file with no empty line behind it is lost: the output is that of the
-- entries before it.
pub convert-unfinished :
    (es : List Entry) (e : Entry)
    → All IsEntry es
    → IsEntry e
    → convert (render es ++ entry_bytes e) ≡ some (records_bytes es)
convert-unfinished es e h v =
    convert-Gives (render es ++ entry_bytes e)
      (within e.word (e.word ++ lines_bytes e.lines) (records_bytes es))
      (Gives-entries es [] (entry_bytes e) _ h (
        Gives-line (fresh (records_bytes es)) (within e.word e.word (records_bytes es)) e.word _ _
          v.word_line (omega (arith, v.word_fits))
          (convert_line-word e.word (records_bytes es) v.word_line v.word_string v.word_fits)
          (Gives-last e (records_bytes es) v)))
