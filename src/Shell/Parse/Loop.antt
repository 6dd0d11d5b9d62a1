-- ===== src/Shell/Parse/Loop.antt =====
-- parse.c: the loop, the array that it grows, and the words of the line.
use linux_programming.Base.{
  ℕ, zero, suc, ◌+◌, ◌-◌, ◌<◌, ◌≡◌, refl, sym, ap, ◌∙◌, List, [], ◌∷◌, ◌++◌, map, Option, none,
  some, arith, length, take, set, length-append, lt→ltb, inl, inr, Bool-cases,
}
use mathlib.Core.List.{append_assoc, append-nil, map-append}
use linux_programming.Cstr.{Bytes, codes, streq, strtok}
use linux_programming.Cstr.Tokens.{words, Yields, strtok-Yields}
use linux_programming.Cstr.Compare.{streq→eq}
use linux_programming.Shell.Parse.{
  Slot, garbage, null, str, is_delim, realloc, write, parse_loop, parse_from, parse, free_argv,
}

-- The array for a list of words, with its NULL.
abbrev pub slots_of : List Bytes → List Slot
slots_of ws = map str ws ++ null ∷ []

-- What `parse` returns for the words of a line: NULL where there are none.
abbrev pub argv_of : List Bytes → Option (List Slot)
argv_of [] = none
argv_of (w ∷ ws) = some (slots_of (w ∷ ws))

take-length : (xs : List Slot) → take (suc (length xs)) xs ≡ xs
take-length [] = refl
take-length (x ∷ xs) = ap (◌∷◌ x) (take-length xs)

-- Growing an array by one cell.
realloc-length : (xs : List Slot) (n : ℕ) → n ≡ suc (length xs) → realloc xs n ≡ xs ++ garbage ∷ []
realloc-length xs n e =
    let one : n - length xs ≡ suc zero = omega arith in rw (one, e, take-length xs)

set-append :
    (xs ys : List Slot) (y v : Slot) (i : ℕ) → i ≡ length xs → set (xs ++ y ∷ ys) i v ≡ xs ++ v ∷ ys
set-append [] ys y v i e = rw e
set-append (x ∷ xs) ys y v i e = rw e (ap (◌∷◌ x) (set-append xs ys y v (length xs) refl))

-- Writing the cell behind the words that are there.
write-append :
    (xs ys : List Slot) (y v : Slot) (i : ℕ)
    → i ≡ length xs
    → write (xs ++ y ∷ ys) i v ≡ some (xs ++ v ∷ ys)
write-append xs ys y v i e =
    rw (lt→ltb i (length (xs ++ y ∷ ys)) (omega (arith, length-append xs (y ∷ ys))))
      (ap some (set-append xs ys y v i e))

length-map-str : (ws : List Bytes) → length (map str ws) ≡ length ws
length-map-str [] = refl
length-map-str (w ∷ ws) = ap suc (length-map-str ws)

-- The array between two rounds: the words so far, and one cell more.
abbrev grown : List Bytes → List Slot
grown ws = map str ws ++ garbage ∷ []

install :
    (ws : List Bytes) (w : Bytes) (count : ℕ)
    → count ≡ length ws
    → write (realloc (grown ws) (count + 2)) count (str w) ≡ some (grown (ws ++ w ∷ []))
install ws w count e =
    let size : length (grown ws) ≡ suc (length ws) =
      omega (arith, length-append (map str ws) (garbage ∷ []), length-map-str ws) in
    rw (realloc-length (grown ws) (count + 2) (omega arith)) (
      rw append_assoc (
        write-append (map str ws) (garbage ∷ []) garbage (str w) count
          (omega (arith, length-map-str ws))
        ∙ ap some (
            sym (
              ap (λ l. l ++ garbage ∷ []) (map-append str ws (w ∷ []))
              ∙ append_assoc (map str ws) (str w ∷ []) (garbage ∷ [])))))

-- What one call of the loop returns: all the words, in an array with one cell to spare.
abbrev Done : List Bytes → Option (List Slot × ℕ) → Type 0
Done ws r = r ≡ some (grown ws, length ws)

after_strtok :
    (fuel : ℕ) (saved : Bytes) (ws : List Bytes) (count : ℕ) (r : Option Bytes × Bytes)
    → strtok is_delim saved ≡ r
    → Yields is_delim saved r
    → length saved < suc fuel
    → count ≡ length ws
    → ((rest : Bytes) (vs : List Bytes) (n : ℕ)
        → length rest < fuel
        → n ≡ length vs
        → Done (vs ++ words is_delim rest) (parse_loop fuel rest (grown vs) n))
    → Done (ws ++ words is_delim saved) (parse_loop (suc fuel) saved (grown ws) count)
unfolding parse_loop
after_strtok fuel saved ws count (none, rest) e y h c loop =
    rw (e, parse_loop) (rw (y, append-nil ws) (ap (λ n. some (grown ws, n)) c))
after_strtok fuel saved ws count (some w, rest) e y h c loop =
    rw (e, parse_loop)
      (rw (install ws w count c, y.0, e)
        (rw (← append_assoc ws (w ∷ []) (words is_delim rest)) (
          loop rest (ws ++ w ∷ []) (count + 1) (omega (arith, y.1))
            (omega (arith, length-append ws (w ∷ []))))))

-- Enough fuel: one round for each byte left, and one more.
pub parse_loop-words :
    (fuel : ℕ) (saved : Bytes) (ws : List Bytes) (count : ℕ)
    → length saved < fuel
    → count ≡ length ws
    → Done (ws ++ words is_delim saved) (parse_loop fuel saved (grown ws) count)
parse_loop-words zero saved ws count h e = absurd (omega arith)
parse_loop-words (suc fuel) saved ws count h e =
    after_strtok fuel saved ws count _ refl (strtok-Yields is_delim saved) h e
      (parse_loop-words fuel)

pub parse_from-words :
    (fuel : ℕ) (line : Bytes) (r : Option Bytes × Bytes)
    → Yields is_delim line r
    → length line < fuel
    → parse_from fuel r ≡ some (argv_of (words is_delim line))
unfolding parse_from
parse_from-words fuel line (none, saved) y h = rw y
parse_from-words fuel line (some w, saved) y h =
    let ws : List Bytes = w ∷ words is_delim saved in
    rw (y.0, parse_loop-words fuel saved (w ∷ []) 1 (omega (arith, y.1)) refl)
      (rw (write-append (map str ws) [] garbage null (length ws) (sym (length-map-str ws))) refl)

newline_words : words is_delim (codes "\n") ≡ []
unfolding words is_delim
newline_words = refl

-- For every line, `parse` makes no write outside the array that it grows, and returns the words
-- of the line, each in a string of its own and in order, with NULL behind the last of them; for a
-- line without words it returns NULL. The fuel of the model is enough.
pub parse-words : (line : Bytes) → parse (some line) ≡ some (argv_of (words is_delim line))
unfolding parse
parse-words line = elim (Bool-cases (streq line (codes "\n"))) [
  | inl e ↦ rw (e, streq→eq line (codes "\n") e, newline_words) refl
  | inr e ↦
      rw e (parse_from-words (length line + 1) line _ (strtok-Yields is_delim line) (omega arith))
]

pub free_argv-slots_of : (ws : List Bytes) → free_argv (slots_of ws) ≡ some ws
unfolding free_argv
free_argv-slots_of [] = refl
free_argv-slots_of (w ∷ ws) = rw (free_argv-slots_of ws)

free_argv-argv_of :
    (ws : List Bytes) {argv : List Slot} → argv_of ws ≡ some argv → free_argv argv ≡ some ws
free_argv-argv_of [] h = cc
free_argv-argv_of (w ∷ ws) {argv} h =
    let e : slots_of (w ∷ ws) ≡ argv = cc in rw (← e) (free_argv-slots_of (w ∷ ws))

-- What `parse` returns can be freed: `free_argv` reads no cell outside the array and none that was
-- not written, and frees the string of every word once.
pub free_argv-parse :
    (line : Bytes) {argv : List Slot}
    → parse (some line) ≡ some (some argv)
    → free_argv argv ≡ some (words is_delim line)
free_argv-parse line h = free_argv-argv_of (words is_delim line) (cc (parse-words line))
