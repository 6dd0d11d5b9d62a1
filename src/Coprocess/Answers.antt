-- ===== src/Coprocess/Answers.antt =====
-- What the parent prints for each line.
use linux_programming.Base.{
  ℕ, zero, suc, ◌+◌, ◌<◌, ◌≡◌, ◌≢◌, refl, sym, ap, ◌∙◌, inl, inr, List, [], ◌∷◌, ◌++◌, Option, none,
  some, arith, length, take, drop, set, map, All, All-append, Bool-cases, length-append, lt→ltb,
  ◌==◌,
}
use linux_programming.Cstr.{Bytes, c_str, fgets, newline}
use linux_programming.Cstr.Arrays.{IsString, c_str_whole}
use linux_programming.Cstr.Streams.{fgets-line, IsLine}
use linux_programming.Shell.Session.Lines.{text_of, length-text_of}
use linux_programming.Coprocess.{answer, maxline, add2, over, round, loop, main}

-- A NUL at an index of a string cuts it there, if it is as long.
c_str-set : (s rest : Bytes) (n : ℕ) → c_str (set (s ++ 0 ∷ rest) n 0) ≡ take n (c_str s)
unfolding c_str
c_str-set [] rest zero = refl
c_str-set [] rest (suc n) = refl
c_str-set (c ∷ s) rest zero = refl
c_str-set (c ∷ s) rest (suc n) = elim (Bool-cases (c == 0)) [
  | inl e ↦ rw (c_str, e) refl
  | inr e ↦ rw (c_str, e) (ap (◌∷◌ c) (c_str-set s rest n))
]

abbrev pub answer_to : Bytes → Option Bytes
answer_to l = answer (l ++ newline ∷ [])

abbrev pub or_nothing : Option Bytes → Bytes
or_nothing none = []
or_nothing (some s) = s

-- The reply to a line, as far as the line is long.
abbrev pub printed_of : Bytes → Bytes
printed_of l = take (length l + 1) (c_str (or_nothing (answer_to l)))

-- A line that `fgets` reads whole, with no NUL in it.
abbrev pub Fits : Bytes → Type 0
Fits l = IsLine l × (length l < 4094) × IsString l

-- The numbers that are read of a line and their sum are of the type `int`.
abbrev pub InRange : Bytes → Type 0
InRange l = (r : Bytes) × (answer_to l ≡ some r)

length-line : (l : Bytes) → length (l ++ newline ∷ []) ≡ length l + 1
length-line l = length-append l (newline ∷ [])

line-IsString : (l : Bytes) → IsString l → IsString (l ++ newline ∷ [])
line-IsString l h = All-append (λ c. c ≢ 0) l (newline ∷ []) h ((λ e. omega (arith, e)), tt)

add2-answer : (s : Bytes) → IsString s → length s < maxline → add2 s ≡ answer s
add2-answer s h l = unfold add2 in rw (add2, lt→ltb (length s) maxline l, c_str_whole s h) refl

round_reply :
    (array line reply : Bytes)
    → c_str line ≡ line
    → add2 line ≡ some reply
    → round array line
      ≡ some (
        c_str (set (over reply (over line array)) (length line) 0),
        set (over reply (over line array)) (length line) 0,
      )
round_reply array line reply whole e = unfold round in rw (round, whole, e) (rw whole refl)

round-line :
    (array l : Bytes)
    → Fits l
    → InRange l
    → (array' : Bytes) × (round array (l ++ newline ∷ []) ≡ some (printed_of l, array'))
round-line array l (h, size, str) (r, e) =
    let line : Bytes = l ++ newline ∷ [] in
    let whole = c_str_whole line (line-IsString l str) in
    let replies = add2-answer line (line-IsString l str) (omega (arith, size, length-line l)) ∙ e in
    let array' : Bytes = set (over r (over line array)) (length line) 0 in
    let cut : c_str array' ≡ printed_of l =
      c_str-set r (drop (length r + 1) (over line array)) (length line)
      ∙ ap (λ n. take n (c_str r)) (length-line l)
      ∙ ap (λ a. take (length l + 1) (c_str (or_nothing a))) (sym e) in
    (array', round_reply array line r whole replies ∙ ap (λ p. some (p, array')) cut)

loop_step :
    (fuel : ℕ) (array array' stdin line rest printed : Bytes) (more : List Bytes)
    → fgets maxline stdin ≡ some (line, rest)
    → round array line ≡ some (printed, array')
    → loop fuel array' rest ≡ some more
    → loop (suc fuel) array stdin ≡ some (printed ∷ more)
loop_step fuel array array' stdin line rest printed more e f g =
    unfold loop in rw (loop, e) (rw f (rw g refl))

loop-lines :
    (ls : List Bytes) (fuel : ℕ) (array : Bytes)
    → All Fits ls
    → All InRange ls
    → length ls < fuel
    → loop fuel array (text_of ls) ≡ some (map printed_of ls)
loop-lines ls zero array h g f = absurd (omega (arith, f))
loop-lines [] (suc fuel) array h g f = unfold loop fgets in refl
loop-lines (l ∷ ls) (suc fuel) array h g f =
    let (array', e) = round-line array l h.0 g.0 in
    loop_step fuel array array' (text_of (l ∷ ls)) (l ++ newline ∷ []) (text_of ls) (printed_of l)
      (map printed_of ls) (fgets-line 4095 l (text_of ls) h.0.0 (omega (arith, h.0.1))) e
      (loop-lines ls fuel array' h.1 g.1 (omega (arith, f)))

-- On a text of lines of fewer than 4094 bytes with no NUL in them, of which the numbers that are
-- read and their sum are in the range of `int`, whatever the array holds at first: the two
-- processes answer the lines in order and the parent comes to its end: for each line it prints the
-- answer of add2, but no more bytes of it than the line has with its newline.
pub main-answers :
    (array : Bytes) (ls : List Bytes)
    → All Fits ls
    → All InRange ls
    → main array (text_of ls) ≡ some (map printed_of ls)
main-answers array ls h g =
    unfold main in
    loop-lines ls (length (text_of ls) + 1) array h g (omega (arith, length-text_of ls))
