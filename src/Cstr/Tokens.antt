-- ===== src/Cstr/Tokens.antt =====
-- What a series of `strtok` calls yields: the words of the string.
use linux_programming.Base.{
  ℕ, ◌<◌, ◌≤◌, ◌≡◌, refl, sym, ◌∙◌, Bool, true, false, List, [], ◌∷◌, ◌++◌, Option, none, some,
  arith, if◌then◌else◌, length,
}
use linux_programming.Cstr.{Bytes, break_at, skip, cut, strtok}

module _ (delim : ℕ → Bool) where
  glue : ℕ → List Bytes → List Bytes
  glue c [] = (c ∷ []) ∷ []
  glue c (w ∷ ws) = (c ∷ w) ∷ ws

  attach : ℕ → Bytes → List Bytes → List Bytes
  unfolding glue
  attach c [] ws = (c ∷ []) ∷ []
  attach c (d ∷ cs) ws = if delim d then (c ∷ []) ∷ ws else glue c ws

  -- The maximal runs of bytes that are no delimiters, in order.
  unfoldable pub words : Bytes → List Bytes
  unfolding attach
  words [] = []
  words (c ∷ cs) = if delim c then words cs else attach c cs (words cs)

  words-skip : (s : Bytes) → words (skip delim s) ≡ words s
  unfolding words skip
  words-skip [] = refl
  words-skip (c ∷ cs) = ground (arith, words-skip cs)

  pub words-break_at :
      (c : ℕ) (cs : Bytes)
      → delim c ≡ false
      → words (c ∷ cs) ≡ (c ∷ (break_at delim cs).0) ∷ words (break_at delim cs).1
  unfolding words break_at
  words-break_at c [] h = rw h
  words-break_at c (d ∷ cs) h = ground (arith, words-break_at d cs)

  length-break_at-le : (cs : Bytes) → length (break_at delim cs).1 ≤ length cs
  unfolding break_at
  length-break_at-le [] = omega arith
  length-break_at-le (c ∷ cs) = ground (arith, length-break_at-le cs)

  length-skip-le : (cs : Bytes) → length (skip delim cs) ≤ length cs
  unfolding skip
  length-skip-le [] = omega arith
  length-skip-le (c ∷ cs) = ground (arith, length-skip-le cs)

  skip-head : (s : Bytes) (c : ℕ) (cs : Bytes) → skip delim s ≡ c ∷ cs → delim c ≡ false
  unfolding skip
  skip-head [] c cs h = cc
  skip-head (d ∷ ds) c cs h = ground (arith, skip-head ds c cs)

  break_at-cons :
      (c : ℕ) (cs : Bytes)
      → delim c ≡ false
      → break_at delim (c ∷ cs) ≡ (c ∷ (break_at delim cs).0, (break_at delim cs).1)
  unfolding break_at
  break_at-cons c cs h = rw h

  -- One call: no token is left, or the first of the words comes off.
  abbrev pub Yields : Bytes → Option Bytes × Bytes → Type 0
  Yields s (none, rest) = words s ≡ []
  Yields s (some w, rest) = (words s ≡ w ∷ words rest) × (length rest < length s)

  cut-Yields :
      (t : Bytes) → ((c : ℕ) (cs : Bytes) → t ≡ c ∷ cs → delim c ≡ false) → Yields t (cut delim t)
  unfolding cut
  cut-Yields [] h = unfold words in refl
  cut-Yields (c ∷ cs) h =
      rw (break_at-cons c cs (h c cs refl))
        (words-break_at c cs (h c cs refl), omega (arith, length-break_at-le cs))

  Yields-skip : (s : Bytes) (r : Option Bytes × Bytes) → Yields (skip delim s) r → Yields s r
  Yields-skip s (none, rest) y = sym (words-skip s) ∙ y
  Yields-skip s (some w, rest) y = (sym (words-skip s) ∙ y.0, omega (arith, length-skip-le s))

  pub strtok-Yields : (s : Bytes) → Yields s (strtok delim s)
  unfolding strtok
  strtok-Yields s = Yields-skip s _ (cut-Yields (skip delim s) (skip-head s))

  -- A delimiter at the end adds no word.
  pub words-end : (s : Bytes) (d : ℕ) → delim d ≡ true → words (s ++ d ∷ []) ≡ words s
  unfolding words
  words-end [] d h = rw h refl
  words-end (c ∷ []) d h = ground arith
  words-end (c ∷ e ∷ s) d h = ground (arith, words-end (e ∷ s) d h)
