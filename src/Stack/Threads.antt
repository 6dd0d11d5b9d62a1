-- ===== src/Stack/Threads.antt =====
-- quiz/quiz3/stack.c with `push` and `pop` called by many processes at once: the mutex, the
-- condition and each access to the shared data as a step of its own.
pub mod Replay
pub mod Invariant
pub mod Refinement
pub mod Progress
mod Tests
use linux_programming.Base.{
  ℕ, zero, suc, ◌+◌, ◌-◌, ◌<◌, ◌≡◌, ◌≢◌, Bool, true, false, List, [], ◌∷◌, ◌++◌, Option, none, some,
  ◌==◌, if◌then◌else◌, set,
}
use linux_programming.Stack.{Data, Event, pushed, popped, stack_size, buffer_at, new_stack}

-- What a process calls.
pub data Op : Type 0 where
  push : ℕ → Op
  pop : Op

-- Where it stands: before `pthread_mutex_lock` (or woken, before it has the mutex again), at the
-- test of the `while`, in `pthread_cond_wait`, behind the store of its number, behind the decrement
-- of the index, behind the `printf`, behind the signal, and behind the unlock.
pub data Pc : Type 0 where
  arriving testing asleep dropped printed signalled finished : Pc
  stored : ℕ → Pc

-- The shared data, who holds the mutex, where each process stands, and what was printed.
pub record System : Type 0 where
  pub index : ℕ
  pub buffer : List ℕ
  pub owner : Option ℕ
  pub pc : ℕ → Pc
  pub log : List Event

abbrev pub update : (ℕ → Pc) → ℕ → Pc → ℕ → Pc
update f i p j = if i == j then p else f j

abbrev pub goes : System → ℕ → Pc → System
goes s i p = record s { pc = update s.pc i p }

-- A step of process `i` of the first `n`; `ops` says what each calls.
pub data Step (ops : ℕ → Op) (n : ℕ) (s : System) : System → Type 0 where
  lock :
      (i : ℕ)
      → i < n
      → s.pc i ≡ arriving
      → s.owner ≡ none
      → Step ops n s (record s { owner = some i; pc = update s.pc i testing })
  wait_full :
      (i v : ℕ)
      → i < n
      → s.pc i ≡ testing
      → ops i ≡ push v
      → s.index ≡ stack_size
      → Step ops n s (record s { owner = none; pc = update s.pc i asleep })
  wait_empty :
      (i : ℕ)
      → i < n
      → s.pc i ≡ testing
      → ops i ≡ pop
      → s.index ≡ 0
      → Step ops n s (record s { owner = none; pc = update s.pc i asleep })
  store :
      (i v : ℕ)
      → i < n
      → s.pc i ≡ testing
      → ops i ≡ push v
      → s.index ≢ stack_size
      → Step ops n s (record s { buffer = set s.buffer s.index v; pc = update s.pc i (stored v) })
  count :
      (i v : ℕ)
      → i < n
      → s.pc i ≡ stored v
      → Step ops n s (record s {
        index = s.index + 1;
        pc = update s.pc i printed;
        log = s.log ++ pushed v (s.index + 1 - 1) ∷ [];
      })
  drop :
      (i : ℕ)
      → i < n
      → s.pc i ≡ testing
      → ops i ≡ pop
      → s.index ≢ 0
      → Step ops n s (record s { index = s.index - 1; pc = update s.pc i dropped })
  take :
      (i : ℕ)
      → i < n
      → s.pc i ≡ dropped
      → Step ops n s (record s {
        pc = update s.pc i printed;
        log = s.log ++ popped (buffer_at s.buffer s.index) s.index ∷ [];
      })
  signal :
      (i j : ℕ)
      → i < n
      → s.pc i ≡ printed
      → j < n
      → s.pc j ≡ asleep
      → Step ops n s (record s { pc = update (update s.pc j arriving) i signalled })
  signal_none :
      (i : ℕ)
      → i < n
      → s.pc i ≡ printed
      → ((j : ℕ) → j < n → s.pc j ≢ asleep)
      → Step ops n s (record s { pc = update s.pc i signalled })
  unlock :
      (i : ℕ)
      → i < n
      → s.pc i ≡ signalled
      → Step ops n s (record s { owner = none; pc = update s.pc i finished })

-- Every process before its call, on a new stack.
abbrev pub init : System
init = record {
  index = new_stack.index;
  buffer = new_stack.buffer;
  owner = none;
  pc = λ i. arriving;
  log = [];
}

-- The states that can be reached; `pthread_cond_wait` may also return without a signal.
pub data Reach (ops : ℕ → Op) (n : ℕ) : System → Type 0 where
  start : Reach ops n init
  next : {s t : System} → Reach ops n s → Step ops n s t → Reach ops n t
  spurious :
      {s : System} (i : ℕ)
      → Reach ops n s
      → i < n
      → s.pc i ≡ asleep
      → Reach ops n (record s { pc = update s.pc i arriving })
