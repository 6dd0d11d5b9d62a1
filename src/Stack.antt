-- ===== src/Stack.antt =====
-- quiz/quiz3: a stack of three numbers in shared memory (stack.h, stack.c), and the program that
-- works on it from child processes (process.c). A child holds the mutex for the whole of its
-- `push` or `pop`; a child that meets its condition waits, and as the parent waits for each child
-- before it forks the next, no other child can wake it.
pub mod Bounded
pub mod Messages
pub mod Process
pub mod Threads
mod Tests
use linux_programming.Base.{
  ℕ, zero, suc, ◌+◌, ◌-◌, ◌%◌, Bool, true, false, List, [], ◌∷◌, ◌++◌, Option, none, some, ◌==◌,
  if◌then◌else◌, set, get_elem?, replicate,
}
use linux_programming.Cstr.{Bytes, newline}
use linux_programming.Cstr.Numbers.{decimal}

-- STACK_SIZE
abbrev pub stack_size : ℕ
stack_size = 3

-- The struct `data` less its mutex and its condition variable.
pub record Data : Type 0 where
  pub index : ℕ
  pub buffer : List ℕ

-- The map of a new file: zeros.
abbrev pub new_stack : Data
new_stack = record { index = 0; buffer = replicate stack_size 0 }

-- What a child prints.
pub data Event : Type 0 where
  pushed : ℕ → ℕ → Event
  popped : ℕ → ℕ → Event

-- `push(globalStack, oneInt)`; none: the child waits on the condition.
unfoldable pub push : Data → ℕ → Option (Data × Event)
push d n =
    if d.index == stack_size
    then none
    else some (
      record { index = d.index + 1; buffer = set d.buffer d.index n },
      pushed n (d.index + 1 - 1),
    )

-- `buffer[i]`; 0 where there is no such element.
abbrev pub buffer_at : List ℕ → ℕ → ℕ
buffer_at [] i = 0
buffer_at (x ∷ xs) zero = x
buffer_at (x ∷ xs) (suc i) = buffer_at xs i

-- `pop(globalStack)`; none: the child waits on the condition.
unfoldable pub pop : Data → Option (Data × Event)
pop d =
    if d.index == 0
    then none
    else some (
      record { index = d.index - 1; buffer = d.buffer },
      popped (buffer_at d.buffer (d.index - 1)) (d.index - 1),
    )

-- How the program ends: after all children, or blocked in the `wait` for one that waits.
pub data End : Type 0 where
  finished blocked : End

-- What the child calls, on `random` and `num`, behind the line with its pid (Stack/Process).
unfoldable pub child : Data → ℕ → ℕ → Option (Data × Event)
unfolding push pop
child d random num = if random == 0 then push d num else pop d

-- The calls of the children, in the order of the `for` of process.c, on the results of `rand()`,
-- two for each child.
unfoldable pub run : Data → List (ℕ × ℕ) → List Event × End
unfolding child
run d [] = ([], finished)
run d ((r, n) ∷ rands) = elim (child d (r % 2) (n % 100)) [
  | none ↦ ([], blocked)
  | some (d', event) ↦ let rest = run d' rands in (event ∷ rest.0, rest.1)
]

-- "Pushed:\tInt: ", "Pop:\tInt: ", "\tindex "
abbrev pushed_int : Bytes
pushed_int = 80 ∷ 117 ∷ 115 ∷ 104 ∷ 101 ∷ 100 ∷ 58 ∷ 9 ∷ 73 ∷ 110 ∷ 116 ∷ 58 ∷ 32 ∷ []

abbrev pop_int : Bytes
pop_int = 80 ∷ 111 ∷ 112 ∷ 58 ∷ 9 ∷ 73 ∷ 110 ∷ 116 ∷ 58 ∷ 32 ∷ []

abbrev index_text : Bytes
index_text = 9 ∷ 105 ∷ 110 ∷ 100 ∷ 101 ∷ 120 ∷ 32 ∷ []

-- The string that `sprintf` makes, less its NUL.
unfoldable pub message : Event → Bytes
unfolding decimal
message (pushed n i) = pushed_int ++ (decimal n ++ (index_text ++ (decimal i ++ newline ∷ [])))
message (popped n i) = pop_int ++ (decimal n ++ (index_text ++ (decimal i ++ newline ∷ [])))
