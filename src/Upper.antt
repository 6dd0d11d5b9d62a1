-- ===== src/Upper.antt =====
-- homework/hw6/6-1/toUpper.c: a child gets a line through a pipe and sends it back in upper case
-- through another.
pub mod Lines
mod Tests
use linux_programming.Base.{
  ℕ, ◌+◌, ◌-◌, Bool, true, false, ◌&&◌, List, [], ◌∷◌, ◌++◌, map, Option, none, some, leb,
  if◌then◌else◌, length, take, drop,
}
use linux_programming.Cstr.{Bytes, c_str, strcpy, fgets}

-- The body of the loop: 'a' to 'z' less 32.
abbrev pub to_upper : ℕ → ℕ
to_upper c = if leb b'a' c && leb c b'z' then c - 32 else c

-- What the child writes of the buffer it has read: `i - 1` bytes of it, where `i` is the length of
-- the string. For an empty string the `write` of -1 bytes fails, and nothing is sent.
unfoldable pub child : Bytes → Bytes
unfolding c_str
child buf = let upper = map to_upper (c_str buf) in take (length (c_str buf) - 1) upper

-- The parent's `read` over its buffer, and what it prints.
unfoldable pub parent : Bytes → Bytes → Bytes
unfolding c_str
parent buf sent = c_str (sent ++ drop (length sent) buf)

-- `main`: whether the pipes and the fork work, what the buffer holds at first, and the input.
-- `none`: with no input the buffer is used as it is, which need not hold a string.
unfoldable pub main : Bool → Bytes → Bytes → Option Bytes
unfolding child parent fgets strcpy
main works array stdin = elim (fgets 1024 stdin) [
  | none ↦ none
  | some (line, rest) ↦ elim (strcpy array line) [
    | none ↦ none
    | some buf ↦ if works then some (parent buf (child buf)) else some []
  ]
]
