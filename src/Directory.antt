-- ===== src/Directory.antt =====
-- homework/hw12/main.c: a directory tree watched through inotify.
pub mod Events
pub mod Fuel
pub mod Watches
mod Tests
use linux_programming.Base.{
  ℕ, zero, suc, ◌+◌, ◌-◌, ◌*◌, ◌/◌, ◌%◌, Bool, true, false, List, [], ◌∷◌, ◌++◌, Option, none, some,
  ltb, ◌==◌, if◌then◌else◌, length, drop,
}
use linux_programming.Cstr.{Bytes, codes, c_str}
use linux_programming.Kernel.Defs.{Reply, ok, fail}

-- A byte of the buffer, 0 outside of it.
abbrev pub byte_at : Bytes → ℕ → ℕ
byte_at [] i = 0
byte_at (x ∷ xs) zero = x
byte_at (x ∷ xs) (suc i) = byte_at xs i

-- A `uint32_t` at an offset, low byte first.
abbrev word_at : Bytes → ℕ → ℕ
word_at buf i =
    byte_at buf i
    + 256 * byte_at buf (1 + i)
    + 65536 * byte_at buf (2 + i)
    + 16777216 * byte_at buf (3 + i)

-- The fields of `struct inotify_event` at the head of a buffer. The name is an array of `len` bytes
-- behind the 16 bytes of the other fields.
abbrev pub mask_of : Bytes → ℕ
mask_of ptr = word_at ptr 4

abbrev pub len_of : Bytes → ℕ
len_of ptr = word_at ptr 12

abbrev pub name_of : Bytes → Bytes
name_of ptr = c_str (drop 16 ptr)

-- `mask & flag` for the flag 2 ^ k, given as its value.
abbrev pub has : ℕ → ℕ → Bool
has mask zero = false
has mask (suc flag) = (mask / suc flag) % 2 == 1

-- What is printed for an event: IN_CREATE, IN_DELETE, IN_MOVED_FROM and IN_MOVED_TO.
unfoldable pub shown : ℕ → Bytes → List Bytes
shown mask name =
    if has mask 256
    then (codes "File/directory created: " ++ name ++ codes "\n") ∷ []
    else if has mask 512
    then (codes "File/directory deleted: " ++ name ++ codes "\n") ∷ []
    else if has mask 64
    then (codes "File/directory moved from: " ++ name ++ codes "\n") ∷ []
    else if has mask 128
    then (codes "File/directory moved to: " ++ name ++ codes "\n") ∷ []
    else []

-- The loop of `display_event`: the buffer from `ptr` on, and how many of its bytes were read.
unfoldable pub display : ℕ → Bytes → ℕ → List Bytes
unfolding shown
display zero ptr left = []
display (suc fuel) ptr left =
    let rest = display fuel (drop (len_of ptr) (drop 16 ptr)) (left - (16 + len_of ptr)) in
    if ltb 0 left then shown (mask_of ptr) (name_of ptr) ++ rest else []

-- `display_event` on an array and on what `read` gives; `none`: the program exits. An event moves
-- `ptr` on by 16 bytes at least, so that the bytes that were read are fuel enough.
unfoldable pub display_event : Bytes → Reply Bytes → Option (List Bytes)
unfolding display
display_event buffer (fail e) = none
display_event buffer (ok []) = none
display_event buffer (ok (c ∷ cs)) =
    some (display (length (c ∷ cs)) ((c ∷ cs) ++ drop (length (c ∷ cs)) buffer) (length (c ∷ cs)))

-- What `nftw` calls `processFile` with: a path, and whether its type flag is FTW_D.
pub record Visit : Type 0 where
  pub filepath : Bytes
  pub is_directory : Bool

-- `processFile` for the visits one after the other, with the paths that are watched already;
-- `none`: `inotify_add_watch` fails and the program exits.
unfoldable pub process_files : (Bytes → Reply ℕ) → List Bytes → List Visit → Option (List Bytes)
process_files add_watch watched [] = some watched
process_files add_watch watched (v ∷ vs) =
    let skipped = process_files add_watch watched vs in
    let added = process_files add_watch (watched ++ v.filepath ∷ []) vs in
    if v.is_directory
    then elim (add_watch v.filepath) [ fail e ↦ none | ok wd ↦ added ]
    else skipped

-- The endless loop, for a finite number of reads: what is printed, and whether the program is still
-- running behind them. With each read stands what its array holds before.
unfoldable pub monitor : List (Bytes × Reply Bytes) → List Bytes × Bool
unfolding display_event
monitor [] = ([], true)
monitor ((buffer, reply) ∷ reads) =
    let rest = monitor reads in
    elim (display_event buffer reply) [
      | none ↦ ([], false)
      | some messages ↦ (messages ++ rest.0, rest.1)
    ]

-- The state of a run of `main`: the paths that are watched, what is printed, and whether it runs.
pub record Run : Type 0 where
  pub watched : List Bytes
  pub printed : List Bytes
  pub running : Bool

-- `main`: whether `inotify_init` works, the walk of `nftw` over the tree below the argument and
-- whether it ends well, and the reads.
unfoldable pub main :
    Bool → (Bytes → Reply ℕ) → Bytes → List Visit → Bool → List (Bytes × Reply Bytes) → Run
unfolding process_files monitor
main inits add_watch path visits walks reads =
    let loop = monitor reads in
    let exited : Run = record { watched = []; printed = []; running = false } in
    if inits
    then elim (process_files add_watch [] visits) [
      | none ↦ exited
      | some paths ↦
          if walks
          then record {
            watched = paths;
            printed = (codes "Monitoring directory: " ++ path ++ codes "\n") ∷ loop.0;
            running = loop.1;
          }
          else exited
    ]
    else exited
