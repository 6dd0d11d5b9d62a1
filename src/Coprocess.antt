-- ===== src/Coprocess.antt =====
-- quiz/quiz5: a program that adds two numbers of a line, and one that sends it the lines of
-- standard input through a pipe and prints what comes back through another.
pub mod Answers
pub mod Pipes
mod Tests
use linux_programming.Base.{
  ℕ, zero, suc, ◌+◌, ◌-◌, ◌*◌, ◌^◌, ◌&&◌, Bool, true, false, List, [], ◌∷◌, ◌++◌, Option, none,
  some, ltb, ◌==◌, if◌then◌else◌, length, drop, set,
}
use linux_programming.Cstr.{Bytes, codes, c_str, fgets, is_space, is_digit, skip}
use linux_programming.Cstr.Numbers.{decimal}

-- Integers, `negsuc n` for -(n + 1).
pub data ℤ : Type 0 where
  pos negsuc : ℕ → ℤ

-- `m - n`
abbrev minus : ℕ → ℕ → ℤ
minus m n = if ltb m n then negsuc (n - m - 1) else pos (m - n)

infixl 60 ◌+ℤ◌
abbrev pub ◌+ℤ◌ : ℤ → ℤ → ℤ
pos m +ℤ pos n = pos (m + n)
pos m +ℤ negsuc n = minus m (n + 1)
negsuc m +ℤ pos n = minus n (m + 1)
negsuc m +ℤ negsuc n = negsuc (m + n + 1)

abbrev pub negative : ℕ → ℤ
negative zero = pos 0
negative (suc n) = negsuc n

-- `%d` of printf
abbrev print_int : ℤ → Bytes
print_int (pos n) = decimal n
print_int (negsuc n) = codes "-" ++ decimal (n + 1)

-- The number that the digits in front make, behind those read so far, and what stands behind them.
unfoldable pub digits : ℕ → Bytes → ℕ × Bytes
digits acc [] = (acc, [])
digits acc (c ∷ cs) =
    let more = digits (acc * 10 + (c - b'0')) cs in if is_digit c then more else (acc, c ∷ cs)

-- Digits, at least one.
unfoldable pub unsigned : Bytes → Option (ℕ × Bytes)
unfolding digits
unsigned [] = none
unsigned (c ∷ cs) = if is_digit c then some (digits 0 (c ∷ cs)) else none

abbrev signed : (ℕ → ℤ) → Option (ℕ × Bytes) → Option (ℤ × Bytes)
signed f none = none
signed f (some (n, rest)) = some (f n, rest)

-- `%d` of sscanf: white space, a sign or none, and digits; what is left of the string.
unfoldable scan_int : Bytes → Option (ℤ × Bytes)
unfolding skip unsigned
scan_int s = elim (skip is_space s) [
  | [] ↦ none
  | c ∷ cs ↦
      if c == b'-'
      then signed negative (unsigned cs)
      else if c == b'+'
      then signed pos (unsigned cs)
      else signed pos (unsigned (c ∷ cs))
]

-- The values of an `int` of 32 bits.
abbrev pub in_int : ℤ → Bool
in_int (pos n) = ltb n (2 ^ 31)
in_int (negsuc n) = ltb n (2 ^ 31)

-- What add2.c writes for a string that it has read. `none`: a number that `%d` reads or the sum is
-- no `int`, which C leaves undefined.
unfoldable pub answer : Bytes → Option Bytes
unfolding scan_int
answer line = elim (scan_int line) [
  | none ↦ some (codes "invalid args\n")
  | some (int1, rest) ↦
      let second : Option Bytes = elim (scan_int rest) [
        | none ↦ some (codes "invalid args\n")
        | some (int2, rest') ↦
            if in_int int2 && in_int (int1 +ℤ int2)
            then some (print_int (int1 +ℤ int2) ++ codes "\n")
            else none
      ] in
      if in_int int1 then second else none
]

-- MAXLINE
abbrev pub maxline : ℕ
maxline = 4096

-- A round of the loop of add2.c, for the bytes that `read` gives. `line[n] = 0` is a write past the
-- end of the array where all of it was read.
unfoldable pub add2 : Bytes → Option Bytes
unfolding answer c_str
add2 bytes = if ltb (length bytes) maxline then answer (c_str bytes) else none

-- A string over the front of an array.
abbrev pub over : Bytes → Bytes → Bytes
over s array = s ++ 0 ∷ drop (length s + 1) array

-- A round of the parent's loop, for a line that `fgets` has put in its array: the bytes that are
-- sent, the answer over the array, the NUL at the index `n`, and what is printed; with the array
-- after it.
unfoldable pub round : Bytes → Bytes → Option (Bytes × Bytes)
unfolding add2 c_str
round array line =
    let n = length (c_str line) in
    elim (add2 (c_str line)) [
      | none ↦ none
      | some reply ↦
          let array' = set (over reply (over line array)) n 0 in some (c_str array', array')
    ]

-- The parent's loop; `none`: no fuel left, a write past an array, or a number that is no
-- `int`.
unfoldable pub loop : ℕ → Bytes → Bytes → Option (List Bytes)
unfolding round fgets
loop zero array stdin = none
loop (suc fuel) array stdin = elim (fgets maxline stdin) [
  | none ↦ some []
  | some (line, rest) ↦ elim (round array line) [
    | none ↦ none
    | some (printed, array') ↦ elim (loop fuel array' rest) [
      | none ↦ none
      | some more ↦ some (printed ∷ more)
    ]
  ]
]

-- `main` of quiz5.c: with one round for each byte of standard input and one more.
unfoldable pub main : Bytes → Bytes → Option (List Bytes)
unfolding loop
main array stdin = loop (length stdin + 1) array stdin
