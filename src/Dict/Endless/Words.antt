-- ===== src/Dict/Endless/Words.antt =====
-- The rounds of main.c with a lookup that answers the words that it has.
use linux_programming.Base.{
  ℕ, zero, suc, ◌+◌, ◌<◌, ◌≡◌, refl, ap, ◌∙◌, List, [], ◌∷◌, ◌++◌, Option, none, some, arith,
  length, drop, replicate, map, All, length-append, length-drop, lt→ltb,
}
use mathlib.Core.List.{append_assoc}
use linux_programming.Cstr.{Bytes, codes, newline, c_str, strcpy}
use linux_programming.Cstr.Arrays.{IsString, c_str-append_nul}
use linux_programming.Cstr.Streams.{IsLine}
use linux_programming.Dict.Record.{
  Dictrec, IsRecord, Answer, found, Call, returns, text_str, word_str, word_size,
}
use linux_programming.Dict.Look.Answers.{Terminated, input_of}
use linux_programming.Dict.Endless.{gets_line, read_word, reply, round, rounds}

-- A word that fits the array with its NUL.
abbrev pub IsWord : Bytes → Type 0
IsWord w = IsLine w × IsString w × (length w < 32)

-- What a round prints for a word.
abbrev pub answered : Bytes → Option Bytes → Bytes
answered w none = w ++ codes " : Not Found!\n"
answered w (some t) = w ++ codes " : " ++ t ++ codes "\n"

abbrev pub prompted : (Bytes → Option Bytes) → Bytes → Bytes
prompted spec w = codes "What word do you want : " ++ answered w (spec w)

-- The last word, or the first record's for no word.
abbrev pub last_word : Bytes → List Bytes → Bytes
last_word w [] = w
last_word w (v ∷ vs) = last_word v vs

gets_line-line : (w rest : Bytes) → IsLine w → gets_line (w ++ newline ∷ rest) ≡ (w, rest)
unfolding gets_line
gets_line-line [] rest h = refl
gets_line-line (c ∷ w) rest h = ground (arith, h.0, gets_line-line w rest h.1)

-- The record once the word is read.
abbrev pub asked : Dictrec → Bytes → Dictrec
asked d w = record { word = w ++ 0 ∷ drop (length w + 1) d.word; text = d.text }

pub read_word-line :
    (d : Dictrec) (w rest : Bytes)
    → IsRecord d
    → IsWord w
    → read_word d (w ++ newline ∷ rest) ≡ some (asked d w, rest)
unfolding read_word strcpy
read_word-line d [] rest v h =
    unfold gets_line in rw (read_word, lt→ltb 0 (length d.word) (omega (arith, v.word_fits))) refl
read_word-line d (c ∷ w) rest v h =
    rw
      (
        read_word,
        gets_line-line (c ∷ w) rest h.0,
        lt→ltb (length (c ∷ w)) (length d.word) (omega (arith, v.word_fits, h.2)),
      )
      (rw (gets_line-line (c ∷ w) rest h.0) refl)

-- A NUL within the word's array.
c_str-front :
    (xs ys : Bytes) → length (c_str (xs ++ ys)) < length xs → length (c_str xs) < length xs
unfolding c_str
c_str-front [] ys h = absurd (omega (arith, h))
c_str-front (c ∷ xs) ys h = ground (arith, h, c_str-front xs ys)

pub Terminated-word_str :
    (d : Dictrec) → IsRecord d → length (word_str d) < word_size → Terminated d
Terminated-word_str d v h =
    omega (arith, v.word_fits, c_str-front d.word d.text (omega (arith, h, v.word_fits)))

pub IsRecord-asked : (d : Dictrec) (w : Bytes) → IsRecord d → IsWord w → IsRecord (asked d w)
IsRecord-asked d w v h = record {
  word_fits = omega (
    arith,
    length-append w (0 ∷ drop (length w + 1) d.word),
    length-drop (length w + 1) d.word,
    v.word_fits,
    h.2,
  );
  text_fits = v.text_fits;
}

pub word_str-asked : (d : Dictrec) (w : Bytes) → IsWord w → word_str (asked d w) ≡ w
word_str-asked d w h =
    ap c_str (append_assoc w (0 ∷ drop (length w + 1) d.word) d.text)
    ∙ c_str-append_nul w (drop (length w + 1) d.word ++ d.text) h.1

-- What a round relies on of a lookup: in a state that is `Ready` it answers each word that `spec`
-- has with its text, leaves the word, and is ready again.
pub record Finds {S : Type 0} (lookup : S → Dictrec → Call (S × Answer × Dictrec))
    (Ready : S → Type 0) (spec : Bytes → Option Bytes) : Type 0 where
  pub present :
      (s : S) (d : Dictrec) (t : Bytes)
      → Ready s
      → IsRecord d
      → Terminated d
      → spec (word_str d) ≡ some t
      → (s' : S) × (d' : Dictrec) × (lookup s d ≡ returns (s', found, d'))
        × Ready s'
        × IsRecord d'
        × (word_str d' ≡ word_str d)
        × (text_str d' ≡ t)

-- A word that has a text.
abbrev pub Known : (Bytes → Option Bytes) → Bytes → Type 0
Known spec w = (t : Bytes) × (spec w ≡ some t)

-- Outputs in front of those of further rounds.
abbrev pub prepend : List Bytes → Option (List Bytes) → Option (List Bytes)
prepend outs none = none
prepend outs (some more) = some (outs ++ more)

prepend-prepend :
    (out : Bytes) (outs : List Bytes) (r : Option (List Bytes))
    → prepend (out ∷ []) (prepend outs r) ≡ prepend (out ∷ outs) r
prepend-prepend out outs none = refl
prepend-prepend out outs (some more) = refl

pub rounds_step :
    {S : Type 0} (lookup : S → Dictrec → Call (S × Answer × Dictrec)) (n : ℕ) (s : S) (d : Dictrec)
    (input out : Bytes) (s' : S) (d' : Dictrec) (rest : Bytes) (r : Option (List Bytes))
    → round lookup s d input ≡ some (out, s', d', rest)
    → rounds lookup n s' d' rest ≡ r
    → rounds lookup (suc n) s d input ≡ prepend (out ∷ []) r
rounds_step lookup n s d input out s' d' rest none e f = unfold rounds in rw (rounds, e) (rw f refl)
rounds_step lookup n s d input out s' d' rest (some more) e f =
    unfold rounds in rw (rounds, e) (rw f refl)

module _ {S : Type 0} (lookup : S → Dictrec → Call (S × Answer × Dictrec)) (Ready : S → Type 0)
    (spec : Bytes → Option Bytes) (laws : Finds lookup Ready spec) where
  -- What a round leaves for the next one, once the word `w` was asked for.
  pub record Next (w : Bytes) (s : S) (d : Dictrec) : Type 0 where
    pub ready : Ready s
    pub is_record : IsRecord d
    pub word : word_str d ≡ w

  -- A round whose read gives a record with a word in it.
  round-asked :
      (w : Bytes) (s : S) (d q : Dictrec) (input rest : Bytes)
      → read_word d input ≡ some (q, rest)
      → Next w s q
      → length w < word_size
      → Known spec w
      → (s' : S) × (d' : Dictrec) × (round lookup s d input ≡ some (prompted spec w, s', d', rest))
        × Next w s' d'
  round-asked w s d q input rest e v l (t, some_for) =
      let z = Terminated-word_str q v.is_record (rw v.word l) in
      let (s', d', looked, r', v', word', text) =
        laws.present s q t v.ready v.is_record z (rw v.word some_for) in
      (
        s',
        d',
        unfold round reply in rw (round, e) (rw looked (rw (word', v.word, text, some_for) refl)),
        record { ready = r'; is_record = v'; word = word' ∙ v.word },
      )

  -- Rounds at the end of the input.
  pub rounds-end :
      (k : ℕ) (w : Bytes) (s : S) (d : Dictrec)
      → Next w s d
      → length w < word_size
      → Known spec w
      → rounds lookup k s d [] ≡ some (map (prompted spec) (replicate k w))
  rounds-end zero w s d v l t = unfold rounds in refl
  rounds-end (suc k) w s d v l t =
      let (s', d', e, v') = round-asked w s d d [] [] (unfold read_word in refl) v l t in
      rounds_step lookup k s d [] (prompted spec w) s' d' []
        (some (map (prompted spec) (replicate k w))) e (rounds-end k w s' d' v' l t)

  -- One round for a line.
  round-line :
      (w : Bytes) (s : S) (d : Dictrec) (rest : Bytes)
      → IsWord w
      → Known spec w
      → Ready s
      → IsRecord d
      → (s' : S) × (d' : Dictrec) × (round lookup s d (w ++ newline ∷ rest)
          ≡ some (prompted spec w, s', d', rest))
        × Next w s' d'
  round-line w s d rest h t r v =
      round-asked w s d (asked d w) (w ++ newline ∷ rest) rest (read_word-line d w rest v h)
        (record { ready = r; is_record = IsRecord-asked d w v h; word = word_str-asked d w h }) h.2
        t

  -- Rounds for some words, and what comes behind them.
  pub rounds-over :
      (w : Bytes) (ws : List Bytes) (n : ℕ) (s : S) (d : Dictrec) (rest : Bytes)
      (r : Option (List Bytes))
      → All IsWord (w ∷ ws)
      → All (Known spec) (w ∷ ws)
      → Ready s
      → IsRecord d
      → ((s' : S) (d' : Dictrec) → Next (last_word w ws) s' d' → rounds lookup n s' d' rest ≡ r)
      → rounds lookup (length (w ∷ ws) + n) s d (input_of (w ∷ ws) ++ rest)
        ≡ prepend (map (prompted spec) (w ∷ ws)) r
  rounds-over w [] n s d rest r h t ready v more =
      let (s', d', e, next) = round-line w s d rest h.0 t.0 ready v in
      let count : length (w ∷ []) + n ≡ suc n = omega arith in
      rw (count, append_assoc w (newline ∷ []) rest)
        (rounds_step lookup n s d (w ++ newline ∷ rest) (prompted spec w) s' d' rest r e
          (more s' d' next))
  rounds-over w (u ∷ us) n s d rest r h t ready v more =
      let behind : Bytes = input_of (u ∷ us) ++ rest in
      let (s', d', e, next) = round-line w s d behind h.0 t.0 ready v in
      let count : length (w ∷ (u ∷ us)) + n ≡ suc (length (u ∷ us) + n) = omega arith in
      rw (count, append_assoc w (newline ∷ input_of (u ∷ us)) rest)
        (rounds_step lookup (length (u ∷ us) + n) s d (w ++ newline ∷ behind) (prompted spec w) s'
            d' behind _ e (rounds-over u us n s' d' rest r h.1 t.1 next.ready next.is_record more)
          ∙ prepend-prepend (prompted spec w) (map (prompted spec) (u ∷ us)) r)
