-- ===== src/Tail/Tests.antt =====
-- Runs of tail.c, and each theorem at a concrete input.
use linux_programming.Base.{
  ◌-◌, ◌≡◌, refl, List, [], ◌∷◌, Option, none, some, ◌&&◌, ◌==◌, if◌then◌else◌,
}
use linux_programming.Cstr.{Bytes, codes}
use linux_programming.Cstr.Numbers.{read_digits}
use linux_programming.Tail.{tail}
use linux_programming.Coprocess.{ℤ, pos, negsuc}
use linux_programming.Tail.Options.{undefined, choose, output, main}

-- The file ends with a newline: one line less.
tail-two : tail 2 (codes "a\nb\nc\n") ≡ codes "c\n"
unfolding tail
tail-two = refl

-- Numbers with at most one sign.
abbrev atoi : Bytes → ℤ
atoi [] = pos 0
atoi (c ∷ cs) = if c == 45 then negsuc (read_digits 0 cs - 1) else pos (read_digits 0 (c ∷ cs))

-- An option "-n" in front, with its argument as a word of its own or in the same word.
abbrev behind_n : Bytes → Option Bytes
behind_n (a ∷ b ∷ cs) = if (a == 45) && (b == 110) then some cs else none
behind_n _ = none

abbrev getopt : List Bytes → List (Option Bytes) × List Bytes
getopt (prog ∷ word ∷ argv) = elim (behind_n word) [
  | none ↦ ([], prog ∷ word ∷ argv)
  | some [] ↦ elim argv [
    | [] ↦ (none ∷ [], prog ∷ word ∷ [])
    | num ∷ more ↦ (some num ∷ [], prog ∷ word ∷ num ∷ more)
  ]
  | some (c ∷ cs) ↦ (some (c ∷ cs) ∷ [], prog ∷ word ∷ argv)
]
getopt argv = ([], argv)

abbrev files : Bytes → Option Bytes
files name = some (codes "a\nb\nc\nd")

-- "-n2" is one word, and the file is taken from behind the arguments.
main-joined : main atoi getopt files (codes "tail" ∷ codes "-n2" ∷ []) ≡ undefined
unfolding main choose output
main-joined = refl

abbrev content : Bytes
content = codes "a\nb\nc\nd"
