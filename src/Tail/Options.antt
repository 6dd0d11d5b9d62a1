-- ===== src/Tail/Options.antt =====
-- The options of homework/hw2/1/tail.c and its `main`. `atoi` and `getopt` are parameters: `getopt`
-- gives for the arguments what its calls return one after the other, the argument of an "n" or
-- none for another option, and the arguments in the order in which it leaves them.
use linux_programming.Base.{
  ℕ, suc, ◌-◌, ◌^◌, ◌<◌, ◌≡◌, refl, ap, ◌∙◌, arith, false, List, [], ◌∷◌, Option, none, some,
  length, get_elem?, ◌||◌, ◌==◌, if◌then◌else◌,
}
use linux_programming.Cstr.{Bytes, codes}
use linux_programming.Coprocess.{ℤ, pos, negsuc}
use linux_programming.Tail.{tail}

-- `numLines` and `fileArgvIndex`.
pub record Choice : Type 0 where
  pub num_lines : ℤ
  pub file_argv_index : ℕ

abbrev pub default_choice : Choice
default_choice = record { num_lines = pos 10; file_argv_index = 1 }

-- How the program ends; `undefined` where the index is behind the arguments or a product is no
-- `int`.
pub data Ending : Type 0 where
  usage cannot_open undefined : Ending
  wrote : Bytes → Ending

-- The loop over the lines finds no line where `numLines` is below 1. `numLines - 1` is not bounded
-- here: it is no `int` where the argument of "-n" is the least one.
abbrev pub lines_of : ℤ → ℕ
lines_of (pos n) = n
lines_of (negsuc n) = 0

-- `n * -1`: above 0, or not, or no `int`, for the least one.
pub data Product : Type 0 where
  above : ℤ → Product
  not_above overflows : Product

abbrev pub opposite : ℤ → Product
opposite (pos n) = not_above
opposite (negsuc n) = if n == 2 ^ 31 - 1 then overflows else above (pos (suc n))

module _ (atoi : Bytes → ℤ) (getopt : List Bytes → List (Option Bytes) × List Bytes)
    (files : Bytes → Option Bytes) where
  -- The `while` over `getopt`.
  unfoldable pub choose : Choice → List (Option Bytes) → Choice
  choose c [] = c
  choose c (none ∷ opts) = choose c opts
  choose c (some arg ∷ opts) = choose (record { num_lines = atoi arg; file_argv_index = 3 }) opts

  -- `argc == 3 && atoi(argv[1]) * -1 > 0`, with the product.
  abbrev pub dash_number : List Bytes → Product
  dash_number (prog ∷ first ∷ file ∷ []) = opposite (atoi first)
  dash_number _ = not_above

  -- From the `open` on.
  unfoldable pub output : Choice → List Bytes → Ending
  output c argv = elim (get_elem? argv c.file_argv_index) [
    | none ↦ undefined
    | some name ↦ elim (files name) [
      | none ↦ cannot_open
      | some file ↦ wrote (tail (lines_of c.num_lines) file)
    ]
  ]

  unfoldable pub main : List Bytes → Ending
  unfolding choose output
  main argv = elim (dash_number argv) [
    | overflows ↦ undefined
    | above n ↦ output (record { num_lines = n; file_argv_index = 2 }) argv
    | not_above ↦
        if length argv == 2 || length argv == 4
        then output (choose default_choice (getopt argv).0) (getopt argv).1
        else usage
  ]

  choose_one :
      (num : Bytes) (n : ℤ)
      → atoi num ≡ n
      → choose default_choice (some num ∷ []) ≡ record { num_lines = n; file_argv_index = 3 }
  unfolding choose
  choose_one num n e = rw (choose, e) refl

  -- The three forms of the arguments, and the one that is refused.
  pub main-forms :
      (prog dash num other file content : Bytes) (k j : ℕ)
      → k < 2 ^ 31 - 1
      → files file ≡ some content
      → atoi dash ≡ negsuc k
      → atoi num ≡ pos (suc k)
      → atoi other ≡ pos j
      → getopt (prog ∷ codes "-n" ∷ num ∷ file ∷ [])
        ≡ (some num ∷ [], prog ∷ codes "-n" ∷ num ∷ file ∷ [])
      → getopt (prog ∷ file ∷ []) ≡ ([], prog ∷ file ∷ [])
      → (main (prog ∷ dash ∷ file ∷ []) ≡ wrote (tail (suc k) content))
        × (main (prog ∷ codes "-n" ∷ num ∷ file ∷ []) ≡ wrote (tail (suc k) content))
        × (main (prog ∷ file ∷ []) ≡ wrote (tail 10 content))
        × (main (prog ∷ other ∷ file ∷ []) ≡ usage)
  unfolding main
  main-forms prog dash num other file content k j small f d n o g g' = (
    rw (main, d) (rw (below k small) (rw (output, f) refl)),
    rw (main, g)
        (ap (λ c. output c (prog ∷ codes "-n" ∷ num ∷ file ∷ [])) (choose_one num (pos (suc k)) n)
          ∙ rw (output, f) refl),
    rw (main, g') (rw (output, f) refl),
    rw (main, o) refl,
  )
    where
      below : (k : ℕ) → k < 2 ^ 31 - 1 → (k == 2 ^ 31 - 1) ≡ false
      below k h = ground (arith, h)
