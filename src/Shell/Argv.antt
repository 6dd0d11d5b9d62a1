-- ===== src/Shell/Argv.antt =====
-- homework/hw5/5-2: is_background.c and pipe_present.c, the searches through `argv`.
pub mod Split
use linux_programming.Base.{
  ℕ, zero, suc, ◌+◌, Bool, true, false, ◌||◌, List, [], ◌∷◌, Option, none, some, ◌==◌,
  if◌then◌else◌,
}
use linux_programming.Cstr.{Bytes, codes, streq}

abbrev pub bar : Bytes
bar = codes "|"

abbrev pub ampersand : Bytes
ampersand = codes "&"

abbrev pub is_null : List Bytes → Bool
is_null [] = true
is_null (w ∷ ws) = false

-- The loop of `is_background`: `none` where the function ends without a return statement.
unfoldable pub find_ampersand : List Bytes → Option Bool
find_ampersand [] = none
find_ampersand (w ∷ ws) = if streq w ampersand then some true else find_ampersand ws

unfoldable pub is_background : List Bytes → Option Bool
unfolding find_ampersand
is_background [] = some false
is_background (w ∷ ws) = find_ampersand (w ∷ ws)

-- The loop of `pipe_present`, at `index`.
unfoldable pub present_from : ℕ → List Bytes → Option ℕ
present_from index [] = some 0
present_from index (w ∷ ws) =
    if streq w bar
    then if index == 0 || is_null ws then none else some index
    else present_from (index + 1) ws

-- `none` is the result -1.
unfoldable pub pipe_present : List Bytes → Option ℕ
unfolding present_from
pipe_present argv = present_from 0 argv

-- The search of `redirect_in` and `redirect_out`: the index of the first string equal to `mark`.
unfoldable pub find_from : Bytes → ℕ → List Bytes → Option ℕ
find_from mark i [] = none
find_from mark i (w ∷ ws) = if streq w mark then some i else find_from mark (i + 1) ws
