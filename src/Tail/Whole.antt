-- ===== src/Tail/Whole.antt =====
-- tail.c as a whole: its options and the lines that it writes.
use linux_programming.Base.{ℕ, ◌+◌, ◌<◌, ◌≡◌, ◌≢◌, ◌∷◌, ◌++◌}
use linux_programming.Cstr.{Bytes, newline}
use linux_programming.Tail.Lines.{newlines}

-- The last lines of a file, where what stands behind the last newline counts as a line: what begins
-- behind a newline with one newline less than lines behind it, where the line there is not empty;
-- or all of a file with fewer newlines than lines.
pub data LastLines (n : ℕ) : Bytes → Bytes → Type 0 where
  behind :
      (front rest : Bytes) (c : ℕ)
      → c ≢ newline
      → newlines rest + 1 ≡ n
      → LastLines n (front ++ newline ∷ (c ∷ rest)) (c ∷ rest)
  whole : (content : Bytes) → newlines content < n → LastLines n content content
