-- ===== src/Shell/Parse/RoundTrip.antt =====
-- parse.c on command lines that are written from words with blanks between them.
use linux_programming.Base.{
  ℕ, ◌≡◌, ◌≢◌, refl, ap, ◌∙◌, true, false, List, [], ◌∷◌, ◌++◌, map, some, All,
}
use linux_programming.Cstr.{Bytes, break_at}
use linux_programming.Cstr.Tokens.{words, words-break_at}
use linux_programming.Shell.Parse.{is_delim, parse}
use linux_programming.Shell.Parse.Loop.{argv_of, parse-words}

abbrev pub IsBlank : Bytes → Type 0
IsBlank = All (λ c. is_delim c ≡ true)

-- A word: some bytes, none of them SPACE, TAB or NL.
abbrev pub IsWord : Bytes → Type 0
IsWord w = (w ≢ []) × All (λ c. is_delim c ≡ false) w

words-blank : (b s : Bytes) → IsBlank b → words is_delim (b ++ s) ≡ words is_delim s
unfolding words
words-blank [] s h = refl
words-blank (c ∷ b) s h = rw (h.0) (words-blank b s h.1)

break_at-word :
    (w s : Bytes) (d : ℕ)
    → All (λ c. is_delim c ≡ false) w
    → is_delim d ≡ true
    → break_at is_delim (w ++ d ∷ s) ≡ (w, s)
unfolding break_at
break_at-word [] s d h k = rw k
break_at-word (c ∷ w) s d h k = rw (h.0, break_at-word w s d h.1 k)

words-word :
    (w s : Bytes) (d : ℕ)
    → IsWord w
    → is_delim d ≡ true
    → words is_delim (w ++ d ∷ s) ≡ w ∷ words is_delim s
words-word [] s d h k = absurd (h.0 refl)
words-word (c ∷ w) s d h k =
    words-break_at is_delim c (w ++ d ∷ s) h.1.0 ∙ rw (break_at-word w s d h.1.1 k)

-- A word, the delimiter that ends it, and the blanks behind that.
pub record Spaced : Type 0 where
  pub word : Bytes
  pub mark : ℕ
  pub blank : Bytes

abbrev pub IsSpaced : Spaced → Type 0
IsSpaced p = IsWord p.word × (is_delim p.mark ≡ true) × IsBlank p.blank

abbrev pub spaced_bytes : List Spaced → Bytes
spaced_bytes [] = []
spaced_bytes (p ∷ ps) = p.word ++ p.mark ∷ (p.blank ++ spaced_bytes ps)

words-spaced :
    (ps : List Spaced) → All IsSpaced ps → words is_delim (spaced_bytes ps) ≡ map (λ p. p.word) ps
unfolding words
words-spaced [] h = refl
words-spaced (p ∷ ps) h =
    words-word p.word (p.blank ++ spaced_bytes ps) p.mark h.0.0 h.0.1
    ∙ ap (◌∷◌ p.word) (words-blank p.blank (spaced_bytes ps) h.0.2 ∙ words-spaced ps h.1)

-- A line that is written from words, with one or more delimiters behind each word and any number
-- in front of the first, is parsed into these words, in order.
pub parse-spaced :
    (lead : Bytes) (ps : List Spaced)
    → IsBlank lead
    → All IsSpaced ps
    → parse (some (lead ++ spaced_bytes ps)) ≡ some (argv_of (map (λ p. p.word) ps))
parse-spaced lead ps b h =
    parse-words (lead ++ spaced_bytes ps)
    ∙ ap (λ ws. some (argv_of ws)) (words-blank lead (spaced_bytes ps) b ∙ words-spaced ps h)
