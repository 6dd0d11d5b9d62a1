-- ===== src/Dict/Look/Answers.antt =====
-- The loop of main.c with a lookup that keeps to an interface.
use linux_programming.Base.{
  ℕ, zero, suc, ◌+◌, ◌-◌, ◌<◌, ◌≡◌, refl, ap, true, List, [], ◌∷◌, ◌++◌, Option, none, some, arith,
  length, set, drop, All, length-append, lt→ltb, ltb, length-drop, Option-cases, inl, inr,
}
use mathlib.Core.List.{append_assoc}
use linux_programming.Cstr.{Bytes, newline, c_str, strcpy, fgets}
use linux_programming.Cstr.Arrays.{IsString, c_str-append_nul}
use linux_programming.Cstr.Streams.{IsLine, fgets-line}
use linux_programming.Dict.Record.{
  Dictrec, IsRecord, Answer, found, notfound, Call, returns, word_str, text_str, word_size,
}
use linux_programming.Dict.Look.{colon, not_found, done, cut_last, read_word, loop, main}

-- The word's array holds a NUL.
abbrev pub Terminated : Dictrec → Type 0
Terminated d = length (c_str d.word) < word_size

-- What a client relies on of a lookup: in a state that is `Ready` it answers each word as `spec`
-- says, leaves the word, and is ready again.
pub record Answers {S : Type 0} (lookup : S → Dictrec → Call (S × Answer × Dictrec))
    (Ready : S → Type 0) (spec : Bytes → Option Bytes) : Type 0 where
  pub present :
      (s : S) (d : Dictrec) (t : Bytes)
      → Ready s
      → IsRecord d
      → Terminated d
      → spec (word_str d) ≡ some t
      → (s' : S) × (d' : Dictrec) × (lookup s d ≡ returns (s', found, d'))
        × Ready s'
        × IsRecord d'
        × (word_str d' ≡ word_str d)
        × (text_str d' ≡ t)
  pub absent :
      (s : S) (d : Dictrec)
      → Ready s
      → IsRecord d
      → Terminated d
      → spec (word_str d) ≡ none
      → (s' : S) × (lookup s d ≡ returns (s', notfound, d)) × Ready s'

-- The lines of an input, each with its newline.
abbrev pub input_of : List Bytes → Bytes
input_of [] = []
input_of (w ∷ ws) = w ++ newline ∷ input_of ws

-- What is to be printed for the words.
abbrev pub reply_text : Option Bytes → Bytes
reply_text none = not_found
reply_text (some t) = t

abbrev pub replies : (Bytes → Option Bytes) → List Bytes → Bytes
replies spec [] = []
replies spec (w ∷ ws) = w ++ (colon ++ (reply_text (spec w) ++ replies spec ws))

-- A word that fits the array with its newline.
abbrev pub IsWord : Bytes → Type 0
IsWord w = IsLine w × IsString w × (length w < 31)

set-last : (w : Bytes) (c : ℕ) (rest : Bytes) → set (w ++ c ∷ rest) (length w) 0 ≡ w ++ 0 ∷ rest
set-last [] c rest = refl
set-last (x ∷ w) c rest = ap (λ t. x ∷ t) (set-last w c rest)

IsString-newline : (w : Bytes) → IsString w → IsString (w ++ newline ∷ [])
IsString-newline [] h = ((λ e. absurd (omega arith)), tt)
IsString-newline (c ∷ w) h = (h.0, IsString-newline w h.1)

cut_last-line :
    (w rest : Bytes)
    → IsString w
    → cut_last (w ++ newline ∷ (0 ∷ rest)) ≡ some (w ++ 0 ∷ (0 ∷ rest))
unfolding cut_last
cut_last-line w rest h =
    let n : length (w ++ newline ∷ []) ≡ suc (length w) =
      omega (arith, length-append w (newline ∷ [])) in
    let m : suc (length w) - 1 ≡ length w = omega arith in
    rw
      (
        cut_last,
        ← append_assoc w (newline ∷ []) (0 ∷ rest),
        c_str-append_nul (w ++ newline ∷ []) rest (IsString-newline w h),
        n,
      )
      (rw (append_assoc w (newline ∷ []) (0 ∷ rest), m, set-last w newline (0 ∷ rest))
        (ground arith))

-- The record once the word is read.
abbrev asked : Dictrec → Bytes → Dictrec
asked d w = record {
  word = w ++ 0 ∷ (0 ∷ drop (length (w ++ newline ∷ []) + 1) d.word);
  text = d.text;
}

IsRecord-asked : (d : Dictrec) (w : Bytes) → IsRecord d → IsWord w → IsRecord (asked d w)
IsRecord-asked d w v h =
    let behind = drop (length (w ++ newline ∷ []) + 1) d.word in
    record {
      word_fits = omega (
        arith,
        length-append w (0 ∷ (0 ∷ behind)),
        length-drop (length (w ++ newline ∷ []) + 1) d.word,
        length-append w (newline ∷ []),
        v.word_fits,
        h.2,
      );
      text_fits = v.text_fits;
    }

word_str-asked : (d : Dictrec) (w : Bytes) → IsString w → word_str (asked d w) ≡ w
word_str-asked d w h =
    let behind = drop (length (w ++ newline ∷ []) + 1) d.word in
    rw (append_assoc w (0 ∷ (0 ∷ behind)) d.text) (c_str-append_nul w ((0 ∷ behind) ++ d.text) h)

Terminated-asked : (d : Dictrec) (w : Bytes) → IsWord w → Terminated (asked d w)
Terminated-asked d w h =
    let behind = drop (length (w ++ newline ∷ []) + 1) d.word in
    rw (c_str-append_nul w (0 ∷ behind) h.1) (omega (arith, h.2))

read_word-line :
    (d : Dictrec) (w rest : Bytes)
    → IsRecord d
    → IsWord w
    → read_word d (w ++ newline ∷ rest) ≡ some (some (asked d w), rest)
unfolding read_word strcpy
read_word-line d w rest v h =
    let line = w ++ newline ∷ [] in
    let fits : ltb (length line) (length d.word) ≡ true =
      lt→ltb (length line) (length d.word)
        (omega (arith, length-append w (newline ∷ []), v.word_fits, h.2)) in
    rw (read_word, fgets-line 31 w rest h.0 h.2)
      (rw (fits) (
        rw (append_assoc w (newline ∷ []) (0 ∷ drop (length line + 1) d.word))
          (rw (cut_last-line w (drop (length line + 1) d.word) h.1) refl)))

module _ {S : Type 0} (lookup : S → Dictrec → Call (S × Answer × Dictrec)) (Ready : S → Type 0)
    (spec : Bytes → Option Bytes) (laws : Answers lookup Ready spec) where
  loop-words :
      (ws : List Bytes) (fuel : ℕ) (s : S) (d : Dictrec)
      → All IsWord ws
      → length (input_of ws) < fuel
      → Ready s
      → IsRecord d
      → loop lookup fuel s d (input_of ws) ≡ some (replies spec ws, done)
  unfolding loop
  loop-words ws zero s d h f r v = absurd (omega arith)
  loop-words [] (suc fuel) s d h f r v = unfold read_word in unfold fgets in refl
  loop-words (w ∷ ws) (suc fuel) s d h f r v =
      let q = asked d w in
      let vq = IsRecord-asked d w v h.0 in
      let word = word_str-asked d w h.0.1 in
      let z = Terminated-asked d w h.0 in
      let f' : length (input_of ws) < fuel =
        omega (arith, length-append w (newline ∷ input_of ws)) in
      elim (Option-cases (spec w)) [
        | inl e ↦
            let (s', looked, r') = laws.absent s q r vq z (rw word e) in
            rw (loop, read_word-line d w (input_of ws) v h.0)
              (rw (looked) (rw (loop-words ws fuel s' q h.1 f' r' vq, word, e) refl))
        | inr (t, e) ↦
            let (s', d', looked, r', v', word', text) = laws.present s q t r vq z (rw word e) in
            rw (loop, read_word-line d w (input_of ws) v h.0)
              (rw (looked) (rw (loop-words ws fuel s' d' h.1 f' r' v', word', word, text, e) refl))
      ]

  -- The program `look` over a lookup that keeps to the interface: for an input of words, each of
  -- at most 30 bytes with no NUL in it, it prints for each word, in order, the word and its text
  -- or that it is not found, and ends with the input.
  pub main-words :
      (ws : List Bytes) (s : S) (d : Dictrec)
      → All IsWord ws
      → Ready s
      → IsRecord d
      → main lookup 2 s d (input_of ws) ≡ some (replies spec ws, done)
  unfolding main
  main-words ws s d h r v = loop-words ws (length (input_of ws) + 1) s d h (omega arith) r v
