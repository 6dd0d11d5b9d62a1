-- ===== src/Directory/Watches.antt =====
-- Which directories are watched, and what a whole run prints.
use linux_programming.Base.{
  ℕ, ◌≡◌, inl, inr, refl, sym, ap, ◌∙◌, Bool, true, false, List, [], ◌∷◌, ◌++◌, none, some, map,
  All, if◌then◌else◌, Bool-cases,
}
use mathlib.Core.List.{append_assoc, append-nil}
use linux_programming.Cstr.{Bytes, codes}
use linux_programming.Kernel.Defs.{Reply, ok, fail, Reply-cases}
use linux_programming.Directory.{Visit, process_files, display_event, monitor, main}
use linux_programming.Directory.Events.{Event, IsEvent, encode_all, message, display_event-messages}

-- The directories of a walk, in its order.
abbrev pub directories : List Visit → List Bytes
directories [] = []
directories (v ∷ vs) = if v.is_directory then v.filepath ∷ directories vs else directories vs

-- A read: what the array holds before, and the events that it gives, at least one.
pub record Batch : Type 0 where
  pub buffer : Bytes
  pub first : Event
  pub more : List Event

abbrev pub reads_of : List Batch → List (Bytes × Reply Bytes)
reads_of [] = []
reads_of (b ∷ bs) = (b.buffer, ok (encode_all (b.first ∷ b.more))) ∷ reads_of bs

abbrev pub messages_of : List Batch → List Bytes
messages_of [] = []
messages_of (b ∷ bs) = map message (b.first ∷ b.more) ++ messages_of bs

abbrev IsBatch : Batch → Type 0
IsBatch b = All IsEvent (b.first ∷ b.more)

-- Every path can be watched.
abbrev pub Watches : (Bytes → Reply ℕ) → Type 0
Watches add_watch = (p : Bytes) → (wd : ℕ) × (add_watch p ≡ ok wd)

process_files-directories :
    (add_watch : Bytes → Reply ℕ) (watched : List Bytes) (vs : List Visit)
    → Watches add_watch
    → process_files add_watch watched vs ≡ some (watched ++ directories vs)
unfolding process_files
process_files-directories add_watch watched [] works = ap some (sym (append-nil watched))
process_files-directories add_watch watched (v ∷ vs) works = elim (Bool-cases v.is_directory) [
  | inl d ↦
      rw (process_files, directories, d, (works v.filepath).1)
        (process_files-directories add_watch (watched ++ v.filepath ∷ []) vs works
          ∙ ap some (append_assoc watched (v.filepath ∷ []) (directories vs)))
  | inr f ↦
      rw (process_files, directories, f) (process_files-directories add_watch watched vs works)
]

monitor-read :
    (buffer : Bytes) (reply : Reply Bytes) (messages : List Bytes)
    (reads : List (Bytes × Reply Bytes))
    → display_event buffer reply ≡ some messages
    → monitor ((buffer, reply) ∷ reads) ≡ (messages ++ (monitor reads).0, (monitor reads).1)
unfolding monitor
monitor-read buffer reply messages reads h = rw (monitor, h) refl

monitor-messages :
    (bs : List Batch) → All IsBatch bs → monitor (reads_of bs) ≡ (messages_of bs, true)
monitor-messages [] h = unfold monitor in refl
monitor-messages (b ∷ bs) h =
    monitor-read b.buffer (ok (encode_all (b.first ∷ b.more))) (map message (b.first ∷ b.more))
      (reads_of bs) (display_event-messages b.buffer b.first b.more h.0)
    ∙ ap (λ r. (map message (b.first ∷ b.more) ++ r.0, r.1)) (monitor-messages bs h.1)

-- A run in which the calls succeed and the reads give records of events: exactly the directories
-- of the walk are watched, in its order; the line with the argument is printed and then the
-- messages of all events, read by read and in their order; and the program is still running.
pub main-messages :
    (add_watch : Bytes → Reply ℕ) (path : Bytes) (visits : List Visit) (bs : List Batch)
    → Watches add_watch
    → All IsBatch bs
    → main true add_watch path visits true (reads_of bs) ≡ record {
      watched = directories visits;
      printed = (codes "Monitoring directory: " ++ path ++ codes "\n") ∷ messages_of bs;
      running = true;
    }
unfolding main
main-messages add_watch path visits bs works h =
    rw (main, process_files-directories add_watch [] visits works, monitor-messages bs h) refl

-- A directory that cannot be watched ends the program before its first read.
main-unwatched :
    (add_watch : Bytes → Reply ℕ) (path : Bytes) (before after : List Visit) (p : Bytes) (e : ℕ)
    (walks : Bool) (reads : List (Bytes × Reply Bytes))
    → add_watch p ≡ fail e
    → main true add_watch path
        (before ++ record { filepath = p; is_directory = true } ∷ after)
        walks
        reads
      ≡ record { watched = []; printed = []; running = false }
unfolding main
main-unwatched add_watch path before after p e walks reads h =
    rw (main, process_files-none [] before) refl
  where
    process_files-none :
        (watched : List Bytes) (vs : List Visit)
        → process_files add_watch watched
            (vs ++ record { filepath = p; is_directory = true } ∷ after)
          ≡ none
    process_files-none watched [] = rw (process_files, h) refl
    process_files-none watched (v ∷ vs) = elim (Bool-cases v.is_directory) [
      | inl d ↦ elim (Reply-cases (add_watch v.filepath)) [
        | inl (e', w) ↦ rw (process_files, d, w) refl
        | inr (wd, w) ↦
            rw (process_files, d, w) (process_files-none (watched ++ v.filepath ∷ []) vs)
      ]
      | inr f ↦ rw (process_files, f) (process_files-none watched vs)
    ]
