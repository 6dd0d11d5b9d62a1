-- ===== src/Cstr.antt =====
-- The string functions of the C library that the programs call. A string is the list of its bytes
-- up to the terminating NUL, which is not in the list; a character array is a list of its length.
-- `none` as the result of a write is a write past the end of the array.
pub mod Compare
pub mod Arrays
pub mod Streams
pub mod Tokens
pub mod Numbers
use Prim.Native.Nat.{compare, Ordering}
use Prim.Native.Char.{code}
use Prim.Native.String.{String}
use linux_programming.Base.{
  ℕ, zero, suc, ◌+◌, ◌-◌, ◌*◌, Bool, true, false, ◌&&◌, ◌||◌, List, [], ◌∷◌, ◌++◌, Option, none,
  some, ltb, leb, ◌==◌, if◌then◌else◌, length, drop,
}

abbrev pub Bytes : Type 0
Bytes = List ℕ

-- The bytes of an ASCII literal.
abbrev pub codes : String → Bytes
codes String.[] = []
codes (String.◌∷◌ c s) = code c ∷ codes s

abbrev pub newline : ℕ
newline = b'\n'

-- `strcmp`: the sign of its result, on unsigned bytes.
unfoldable pub strcmp : Bytes → Bytes → Ordering
strcmp [] [] = Ordering.eq
strcmp [] (y ∷ ys) = Ordering.lt
strcmp (x ∷ xs) [] = Ordering.gt
strcmp (x ∷ xs) (y ∷ ys) =
    let rest = strcmp xs ys in
    elim (compare x y) [
      | Ordering.lt ↦ Ordering.lt
      | Ordering.eq ↦ rest
      | Ordering.gt ↦ Ordering.gt
    ]

-- `strcmp(a, b) == 0`
unfoldable pub streq : Bytes → Bytes → Bool
unfolding strcmp
streq a b = elim (strcmp a b) [ Ordering.eq ↦ true | _ ↦ false ]

-- The string that an array holds: its bytes before the first NUL.
unfoldable pub c_str : Bytes → Bytes
c_str [] = []
c_str (c ∷ cs) = if c == 0 then [] else c ∷ c_str cs

-- `strcpy(array, s)`: the bytes and the NUL must fit.
unfoldable pub strcpy : Bytes → Bytes → Option Bytes
strcpy array s =
    if ltb (length s) (length array) then some (s ++ (0 ∷ drop (length s + 1) array)) else none

-- `strcat(array, s)`
unfoldable pub strcat : Bytes → Bytes → Option Bytes
unfolding c_str strcpy
strcat array s = strcpy array (c_str array ++ s)

-- `s[strcspn(s, "\n")] = '\0'`: the string up to its first newline.
unfoldable pub chomp : Bytes → Bytes
chomp [] = []
chomp (c ∷ cs) = if c == newline then [] else c ∷ chomp cs

-- `isspace` and `isdigit` of the C locale.
abbrev pub is_space : ℕ → Bool
is_space c = c == b' ' || (leb 9 c && leb c 13)

abbrev pub is_digit : ℕ → Bool
is_digit c = leb b'0' c && leb c b'9'

-- One line as `fgets` reads it with room for `n` bytes: up to and with the first newline.
unfoldable pub take_line : ℕ → Bytes → Bytes × Bytes
take_line zero cs = ([], cs)
take_line (suc n) [] = ([], [])
take_line (suc n) (c ∷ cs) =
    let rest = take_line n cs in if c == newline then (c ∷ [], cs) else (c ∷ rest.0, rest.1)

-- `fgets(line, size, stream)`: the line and the rest of the stream, `none` at its end.
unfoldable pub fgets : ℕ → Bytes → Option (Bytes × Bytes)
fgets size [] = none
fgets size (c ∷ cs) = some (take_line (size - 1) (c ∷ cs))

-- The bytes before the first delimiter, and what stands behind that delimiter.
unfoldable pub break_at : (ℕ → Bool) → Bytes → Bytes × Bytes
break_at delim [] = ([], [])
break_at delim (c ∷ cs) =
    let rest = break_at delim cs in if delim c then ([], cs) else (c ∷ rest.0, rest.1)

-- The string behind its leading delimiters.
unfoldable pub skip : (ℕ → Bool) → Bytes → Bytes
skip delim [] = []
skip delim (c ∷ cs) = if delim c then skip delim cs else c ∷ cs

unfoldable pub cut : (ℕ → Bool) → Bytes → Option Bytes × Bytes
unfolding break_at
cut delim [] = (none, [])
cut delim (c ∷ cs) = let token = break_at delim (c ∷ cs) in (some token.0, token.1)

-- `strtok(NULL, delim)`, where the string is what the call before left: the token, and what this
-- call leaves. `strtok(s, delim)` is the same on the whole of `s`.
unfoldable pub strtok : (ℕ → Bool) → Bytes → Option Bytes × Bytes
unfolding skip cut
strtok delim s = cut delim (skip delim s)
