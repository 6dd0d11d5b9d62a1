-- ===== src/Tail.antt =====
-- homework/hw2/1/tail.c: the last lines of the first 1024 bytes of a file. The number of lines is a
-- parameter here, and Tail/Options has the options that give it.
pub mod Lines
pub mod Options
pub mod Whole
mod Tests
use linux_programming.Base.{
  ℕ, zero, suc, ◌+◌, ◌-◌, Bool, true, false, ◌&&◌, List, [], ◌∷◌, Option, none, some, ◌==◌,
  if◌then◌else◌, length, take, drop,
}
use linux_programming.Cstr.{Bytes, newline}

-- `buf[i]`; 0 behind what was read.
abbrev pub byte_at : Bytes → ℕ → ℕ
byte_at [] i = 0
byte_at (x ∷ xs) zero = x
byte_at (x ∷ xs) (suc i) = byte_at xs i

-- `i > 0 && lines == numLines - 1 && buf[i - 1] == '\n'`
abbrev pub is_start : Bytes → ℕ → ℕ → ℕ → Bool
is_start buf num_lines lines zero = false
is_start buf num_lines lines (suc i) = lines + 1 == num_lines && byte_at buf i == newline

-- The `for` loop from `i - 1` down to 0: the value that it gives `cur`, if any.
unfoldable pub find_cur : Bytes → ℕ → ℕ → ℕ → Option ℕ
find_cur buf num_lines lines zero = none
find_cur buf num_lines lines (suc i) =
    let after_newline = find_cur buf num_lines (lines + 1) i in
    let on = find_cur buf num_lines lines i in
    if byte_at buf i == newline
    then after_newline
    else if is_start buf num_lines lines i
    then some i
    else on

-- `cur = (cur == -1) ? 0 : cur`
abbrev pub cur_of : Option ℕ → ℕ
cur_of none = 0
cur_of (some i) = i

-- What is written: the bytes from `cur` on of those that `read` gives.
unfoldable pub tail : ℕ → Bytes → Bytes
unfolding find_cur
tail num_lines file =
    let buf = take 1024 file in drop (cur_of (find_cur buf num_lines 0 (length buf))) buf
