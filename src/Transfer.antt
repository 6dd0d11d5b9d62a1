-- ===== src/Transfer.antt =====
-- quiz/quiz4/quiz4.c: a thread that reads into a shared array, and one that writes it out once a
-- semaphore lets it.
pub mod Order
mod Tests
use linux_programming.Base.{
  ℕ, suc, ◌+◌, ◌≤◌, Bool, true, false, ◌≡◌, Option, none, some, length, take, drop, ◌++◌,
}
use linux_programming.Cstr.{Bytes}

-- Where the reader stands: before `read`, before the store of `cnt`, before `sem_post`, or at its
-- end.
pub data Reader : Type 0 where
  reading : Reader
  counting : ℕ → Reader
  posting done : Reader

-- Where the writer stands: before `sem_wait`, before `write`, or at its end.
pub data Writer : Type 0 where
  waiting writing finished : Writer

-- BUF_SIZE
abbrev pub buf_size : ℕ
buf_size = 1024

-- The shared data with the value of `sem_write`, the threads, and what went to standard output;
-- `running` is false once a call has failed and the process has exited.
pub record Shared : Type 0 where
  pub cnt : ℕ
  pub buf : Bytes
  pub sem : ℕ
  pub reader : Reader
  pub writer : Writer
  pub output : Option Bytes
  pub running : Bool

-- A step of either thread, where `read` gives these bytes of standard input.
pub data Step (input : Bytes) (s : Shared) : Shared → Type 0 where
  read :
      s.running ≡ true
      → s.reader ≡ reading
      → Step input s (record s {
        buf = take buf_size input ++ drop (length (take buf_size input)) s.buf;
        reader = counting (length (take buf_size input));
      })
  read_fails : s.running ≡ true → s.reader ≡ reading → Step input s (record s { running = false })
  count :
      (n : ℕ)
      → s.running ≡ true
      → s.reader ≡ counting n
      → Step input s (record s { cnt = n; reader = posting })
  post :
      s.running ≡ true
      → s.reader ≡ posting
      → Step input s (record s { sem = s.sem + 1; reader = done })
  wait :
      (k : ℕ)
      → s.running ≡ true
      → s.writer ≡ waiting
      → s.sem ≡ suc k
      → Step input s (record s { sem = k; writer = writing })
  write :
      (n : ℕ)
      → s.running ≡ true
      → s.writer ≡ writing
      → n ≤ s.cnt
      → Step input s (record s { output = some (take n s.buf); writer = finished })
  write_fails : s.running ≡ true → s.writer ≡ writing → Step input s (record s { running = false })

-- The threads are created; `sem_open` makes a semaphore of value 0, or opens one that is there.
abbrev pub init : ℕ → Bytes → Shared
init sem buf = record {
  cnt = 0;
  buf = buf;
  sem = sem;
  reader = reading;
  writer = waiting;
  output = none;
  running = true;
}

pub data Reach (input : Bytes) (first : Shared) : Shared → Type 0 where
  start : Reach input first first
  next : {s t : Shared} → Reach input first s → Step input s t → Reach input first t
