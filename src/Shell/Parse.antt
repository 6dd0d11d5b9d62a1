-- ===== src/Shell/Parse.antt =====
-- homework/hw5/5-2/parse.c: the line is cut into an array of strings that ends in NULL.
pub mod Loop
pub mod RoundTrip
use linux_programming.Base.{
  ℕ, zero, suc, ◌+◌, ◌-◌, Bool, true, false, ◌||◌, List, [], ◌∷◌, ◌++◌, Option, none, some, ltb,
  ◌==◌, if◌then◌else◌, length, take, replicate, set, ◌>>=◌,
}
use linux_programming.Cstr.{Bytes, codes, streq, strtok}

-- One `char *` of an array: not yet written, NULL, or a string of its own (`strdup`).
pub data Slot : Type 0 where
  garbage null : Slot
  str : Bytes → Slot

-- `delim`: SPACE or TAB or NL.
unfoldable pub is_delim : ℕ → Bool
is_delim c = c == b' ' || c == b'\t' || c == b'\n'

-- `malloc(n * sizeof(char *))`
abbrev pub malloc : ℕ → List Slot
malloc n = replicate n garbage

-- `realloc(slots, n * sizeof(char *))`
abbrev pub realloc : List Slot → ℕ → List Slot
realloc slots n = take n slots ++ replicate (n - length slots) garbage

-- `slots[i] = v`; `none` outside the array.
abbrev pub write : List Slot → ℕ → Slot → Option (List Slot)
write slots i v = if ltb i (length slots) then some (set slots i v) else none

-- The `while (token)` loop, on what `strtok` has left: the array and `count`. `none` also stands
-- for no fuel left.
unfoldable pub parse_loop : ℕ → Bytes → List Slot → ℕ → Option (List Slot × ℕ)
unfolding is_delim strtok
parse_loop zero saved slots count = none
parse_loop (suc fuel) saved slots count =
    let next = strtok is_delim saved in
    elim next.0 [
      | none ↦ some (slots, count)
      | some token ↦ elim (write (realloc slots (count + 2)) count (str token)) [
        | none ↦ none
        | some slots' ↦ parse_loop fuel next.1 slots' (count + 1)
      ]
    ]

-- The rest of `parse`, from the first token on.
unfoldable pub parse_from : ℕ → Option Bytes × Bytes → Option (Option (List Slot))
unfolding parse_loop
parse_from fuel (none, saved) = some none
parse_from fuel (some token, saved) = do
  slots ← write (malloc 2) 0 (str token)
  (slots', count) ← parse_loop fuel saved slots 1
  argv ← write slots' count null
  some (some argv)

-- `parse(line)`: the outer `none` is a write outside the array, the inner one is NULL.
unfoldable pub parse : Option Bytes → Option (Option (List Slot))
unfolding parse_from streq
parse none = some none
parse (some line) =
    if streq line (codes "\n")
    then some none
    else parse_from (length line + 1) (strtok is_delim line)

-- The loop of `free_argv`: the strings freed, in order; `none` where it reads outside the array
-- or frees what was never written.
unfoldable pub free_argv : List Slot → Option (List Bytes)
free_argv [] = none
free_argv (garbage ∷ slots) = none
free_argv (null ∷ slots) = some []
free_argv (str s ∷ slots) = do freed ← free_argv slots; some (s ∷ freed)
