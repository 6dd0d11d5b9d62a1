-- ===== src/Tail/Lines.antt =====
-- The backward scan of tail.c.
use linux_programming.Base.{
  ℕ, zero, suc, ◌+◌, ◌<◌, ◌≤◌, ◌≡◌, ◌≢◌, refl, sym, ap, ◌∙◌, true, false, [], ◌∷◌, ◌++◌, some, ◌==◌,
  if◌then◌else◌, arith, length, take, drop, length-append, drop-append, Bool-cases, ◌⊎◌, inl, inr,
}
use mathlib.Core.List.{append_assoc, append-nil}
use linux_programming.Cstr.{Bytes, newline}
use linux_programming.Tail.{byte_at, is_start, find_cur, tail}

-- How many newlines.
abbrev pub newlines : Bytes → ℕ
newlines [] = 0
newlines (c ∷ cs) = if c == newline then suc (newlines cs) else newlines cs

byte_at-append : (xs ys : Bytes) (c : ℕ) → byte_at (xs ++ c ∷ ys) (length xs) ≡ c
byte_at-append [] ys c = refl
byte_at-append (x ∷ xs) ys c = byte_at-append xs ys c

pub find_newline :
    (buf : Bytes) (n lines i : ℕ)
    → byte_at buf i ≡ newline
    → find_cur buf n lines (suc i) ≡ find_cur buf n (lines + 1) i
unfolding find_cur
find_newline buf n lines i e = rw (find_cur, e) refl

pub find_other :
    (buf : Bytes) (n lines i : ℕ)
    → (byte_at buf i == newline) ≡ false
    → is_start buf n lines i ≡ false
    → find_cur buf n lines (suc i) ≡ find_cur buf n lines i
unfolding find_cur
find_other buf n lines i e f = rw (find_cur, e, f) refl

find_start :
    (buf : Bytes) (n lines i : ℕ)
    → (byte_at buf i == newline) ≡ false
    → is_start buf n lines i ≡ true
    → find_cur buf n lines (suc i) ≡ some i
unfolding find_cur
find_start buf n lines i e f = rw (find_cur, e, f) refl

-- No line starts at index `i`, or the count is too low for it to be the one sought.
abbrev Passes : Bytes → ℕ → ℕ → ℕ → Type 0
Passes buf n lines zero = Unit
Passes buf n lines (suc i) = (byte_at buf i ≢ newline) ⊎ (lines + 1 < n)

is_start-Passes :
    (buf : Bytes) (n lines i : ℕ) → Passes buf n lines i → is_start buf n lines i ≡ false
is_start-Passes buf n lines zero h = refl
is_start-Passes buf n lines (suc i) (inl h) = ground arith
is_start-Passes buf n lines (suc i) (inr h) = ground arith

Passes-less : (buf : Bytes) (n k l i : ℕ) → k ≤ l → Passes buf n l i → Passes buf n k i
Passes-less buf n k l zero h p = tt
Passes-less buf n k l (suc i) h (inl p) = inl p
Passes-less buf n k l (suc i) h (inr p) = inr (omega arith)

-- The scan goes over `xs`, which stands behind `pre`, and counts its newlines.
find_cur-over :
    (buf xs pre post : Bytes) (n lines : ℕ)
    → buf ≡ pre ++ (xs ++ post)
    → lines + newlines xs < n
    → Passes buf n (lines + newlines xs) (length pre)
    → find_cur buf n lines (length pre + length xs)
      ≡ find_cur buf n (lines + newlines xs) (length pre)
find_cur-over buf [] pre post n lines e h p =
    let i : length pre + 0 ≡ length pre = omega arith in
    let l : lines + 0 ≡ lines = omega arith in rw (i, l) refl
find_cur-over buf (x ∷ xs) pre post n lines e h p =
    let pre' = pre ++ x ∷ [] in
    let len : length pre' ≡ suc (length pre) = omega (arith, length-append pre (x ∷ [])) in
    let here : byte_at buf (length pre) ≡ x =
      ap (λ b. byte_at b (length pre)) e ∙ byte_at-append pre (xs ++ post) x in
    let whole : buf ≡ pre' ++ (xs ++ post) = e ∙ sym (append_assoc pre (x ∷ []) (xs ++ post)) in
    let index : length pre + suc (length xs) ≡ length pre' + length xs = omega (arith, len) in
    elim (Bool-cases (x == newline)) [
      | inl b ↦
          let count : newlines (x ∷ xs) ≡ suc (newlines xs) = rw b refl in
          let passes : Passes buf n (lines + newlines xs) (suc (length pre)) =
            inr (omega (arith, count, h)) in
          ap (find_cur buf n lines) index
          ∙ find_cur-over buf xs pre' post n lines whole (omega (arith, count, h)) (rw len passes)
          ∙ ap (find_cur buf n (lines + newlines xs)) len
          ∙ find_newline buf n (lines + newlines xs) (length pre) (here ∙ ground (arith, b))
          ∙ ap (λ l. find_cur buf n l (length pre)) (omega (arith, count))
      | inr b ↦
          let count : newlines (x ∷ xs) ≡ newlines xs = rw b refl in
          let p' : Passes buf n (lines + newlines xs) (length pre) = rw count at p in
          let other : x ≢ newline = ground (arith, b) in
          let passes : Passes buf n (lines + newlines xs) (suc (length pre)) =
            inl (rw here other) in
          ap (find_cur buf n lines) index
          ∙ find_cur-over buf xs pre' post n lines whole (omega (arith, count, h)) (rw len passes)
          ∙ ap (find_cur buf n (lines + newlines xs)) len
          ∙ find_other buf n (lines + newlines xs) (length pre) (rw here b)
              (is_start-Passes buf n (lines + newlines xs) (length pre) p')
          ∙ ap (λ l. find_cur buf n l (length pre)) (omega (arith, count))
    ]

pub take_whole : (xs : Bytes) (n : ℕ) → length xs ≤ n → take n xs ≡ xs
take_whole [] zero h = refl
take_whole [] (suc n) h = refl
take_whole (x ∷ xs) zero h = absurd (omega arith)
take_whole (x ∷ xs) (suc n) h = ap (λ t. x ∷ t) (take_whole xs n (omega arith))

-- In a file of at most 1024 bytes, the output for `n` lines starts behind the newline that has
-- n - 1 more newlines behind it, where the line there is not empty. What stands behind the last
-- newline counts as a line: of a file that ends with a newline, n - 1 lines are printed.
pub tail-drop :
    (front rest : Bytes) (c n : ℕ)
    → c ≢ newline
    → newlines rest + 1 ≡ n
    → length front + length rest + 2 ≤ 1024
    → tail n (front ++ newline ∷ (c ∷ rest)) ≡ c ∷ rest
unfolding tail
tail-drop front rest c n h k size =
    let buf = front ++ newline ∷ (c ∷ rest) in
    let pre = front ++ newline ∷ [] in
    let pre' = pre ++ c ∷ [] in
    let buf_pre : buf ≡ pre ++ (c ∷ rest) = sym (append_assoc front (newline ∷ []) (c ∷ rest)) in
    let whole : buf ≡ pre' ++ (rest ++ []) =
      buf_pre
      ∙ sym (append_assoc pre (c ∷ []) rest)
      ∙ ap (λ t. pre' ++ t) (sym (append-nil rest)) in
    let len : length pre ≡ suc (length front) = omega (arith, length-append front (newline ∷ [])) in
    let len' : length pre' ≡ suc (suc (length front)) =
      omega (arith, len, length-append pre (c ∷ [])) in
    let total : length buf ≡ length pre' + length rest =
      omega (arith, len', length-append front (newline ∷ (c ∷ rest))) in
    let here : byte_at buf (suc (length front)) ≡ c =
      ap (byte_at buf) (sym len)
      ∙ ap (λ b. byte_at b (length pre)) buf_pre
      ∙ byte_at-append pre rest c in
    let before : byte_at buf (length front) ≡ newline = byte_at-append front (c ∷ rest) newline in
    let passes : Passes buf n (0 + newlines rest) (suc (suc (length front))) = inl (rw here h) in
    let found : find_cur buf n 0 (length buf) ≡ some (suc (length front)) =
      ap (find_cur buf n 0) total
      ∙ find_cur-over buf rest pre' [] n 0 whole (omega arith) (rw len' passes)
      ∙ ap (find_cur buf n (0 + newlines rest)) len'
      ∙ find_start buf n (0 + newlines rest) (suc (length front)) (rw here (ground arith))
          (rw before (ground (arith, k))) in
    rw (tail, take_whole buf 1024 (omega (arith, total, len')), found)
      (ap (λ i. drop i buf) (sym len)
        ∙ ap (λ b. drop (length pre) b) buf_pre
        ∙ drop-append pre (c ∷ rest))
