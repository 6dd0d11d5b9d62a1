-- ===== src/Listings/Open.antt =====
-- Which uses of a file `inspectFD` finds.
use linux_programming.Base.{
  ◌≡◌, ◌⊎◌, inl, inr, refl, ap, true, false, List, [], ◌∷◌, ◌++◌, Option, none, some, All,
  Bool-cases, if◌then◌else◌,
}
use linux_programming.Cstr.{Bytes}
use linux_programming.Listings.{FdEntry, Process, is_process, Use, inspect_entries, inspect_fd}

-- The descriptors of the processes whose directory can be opened, in their order.
abbrev entries_of : Option (List FdEntry) → List FdEntry
entries_of none = []
entries_of (some es) = es

-- All uses that the processes make of a file, if every directory could be opened.
unfoldable pub uses : Bytes → List Process → List Use
unfolding inspect_entries
uses path [] = []
uses path (p ∷ ps) =
    let here = inspect_entries path p.name (entries_of p.fds) in
    if is_process p.is_directory p.name then here ++ uses path ps else uses path ps

-- A process whose directory can be opened, or an entry that is no process.
abbrev Opens : Process → Type 0
Opens p = (is_process p.is_directory p.name ≡ false) ⊎ ((es : List FdEntry) × (p.fds ≡ some es))

found_in :
    (path : Bytes) (q : Process) (qs rest : List Process)
    → Opens q
    → inspect_fd path rest ≡ uses path qs
    → inspect_fd path (q ∷ rest) ≡ uses path (q ∷ qs)
unfolding inspect_fd uses
found_in path q qs rest (inl n) e = rw (inspect_fd, uses, n) e
found_in path q qs rest (inr (es, opens)) e = elim (Bool-cases (is_process q.is_directory q.name)) [
  | inl y ↦ rw (inspect_fd, uses, y, opens) (ap (λ r. inspect_entries path q.name es ++ r) e)
  | inr n ↦ rw (inspect_fd, uses, n) e
]

-- Where the directories of all processes in front of one can be opened and that one's cannot, the
-- uses in front of it are found, and nothing of the processes behind it is looked at; where all can
-- be opened, all uses are found.
pub inspect_fd-uses :
    (path : Bytes) (before after : List Process) (p : Process)
    → All Opens before
    → is_process p.is_directory p.name ≡ true
    → p.fds ≡ none
    → (inspect_fd path (before ++ p ∷ after) ≡ uses path before)
      × (inspect_fd path before ≡ uses path before)
inspect_fd-uses path [] after p h proc shut =
    (unfold inspect_fd uses in rw (inspect_fd, proc, shut) refl, unfold inspect_fd uses in refl)
inspect_fd-uses path (q ∷ qs) after p h proc shut =
    let (here, whole) = inspect_fd-uses path qs after p h.1 proc shut in
    (found_in path q qs (qs ++ p ∷ after) h.0 here, found_in path q qs qs h.0 whole)
