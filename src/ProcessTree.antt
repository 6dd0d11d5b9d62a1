-- ===== src/ProcessTree.antt =====
-- homework/hw4/4-2/getTree.c: the process tree that is built from /proc.
pub mod Chains
pub mod Fathers
pub mod Fuel
pub mod Kids
pub mod Layers
pub mod Places
pub mod Pointers
pub mod Ends
pub mod Print
pub mod Rows
pub mod Sorting
mod Tests
use linux_programming.Base.{
  ℕ, zero, suc, Bool, true, false, ◌&&◌, not, List, [], ◌∷◌, ◌++◌, Option, none, some, ◌>>=◌, ◌==◌,
  if◌then◌else◌, length, ltb,
}
use linux_programming.Cstr.{Bytes, codes, is_space, skip, break_at, fgets}
use linux_programming.Cstr.Numbers.{read_digits}

-- The fields of `struct ProcessNode` that do not change. `ppid` is `none` for -1.
pub record Node : Type 0 where
  pub pid : ℕ
  pub ppid : Option ℕ
  pub command : Bytes

-- The nodes in the order of `tmpLink` stand in a list, and a pointer is an index of it. The
-- pointers of all nodes; `none` is NULL, and for `parent` also what `malloc` left there.
pub record Links : Type 0 where
  pub child : ℕ → Option ℕ
  pub sibling : ℕ → Option ℕ
  pub parent : ℕ → Option ℕ

abbrev pub unlinked : Links
unlinked = record { child = λ i. none; sibling = λ i. none; parent = λ i. none }

abbrev pub update : (ℕ → Option ℕ) → ℕ → ℕ → ℕ → Option ℕ
update f i v j = if j == i then some v else f j

-- `find->pid == tmp_ppid`
abbrev pub has_pid : Option ℕ → ℕ → Bool
has_pid none pid = false
has_pid (some p) pid = pid == p

-- The inner loop: the first node with that pid.
unfoldable pub find_pid : Option ℕ → List Node → Option ℕ
find_pid ppid [] = none
find_pid ppid (n ∷ ns) =
    let on = find_pid ppid ns in
    if has_pid ppid n.pid then some 0 else elim on [ none ↦ none | some i ↦ some (suc i) ]

-- `while (sibling->sibling != NULL)`, where `none` is a loop that has not ended with the fuel.
unfoldable pub last_sibling : ℕ → (ℕ → Option ℕ) → ℕ → Option ℕ
last_sibling zero sibling i = none
last_sibling (suc fuel) sibling i = elim (sibling i) [
  | none ↦ some i
  | some j ↦ last_sibling fuel sibling j
]

-- The body of the loop over `cur` behind the inner loop: `cur` becomes the last child of `find`.
unfoldable pub attach : ℕ → ℕ → ℕ → Links → Option Links
unfolding last_sibling
attach fuel cur find t =
    let parent' = update t.parent cur find in
    elim (t.child find) [
      | none ↦
          some (record { child = update t.child find cur; sibling = t.sibling; parent = parent' })
      | some c ↦ elim (last_sibling fuel t.sibling c) [
        | none ↦ none
        | some s ↦
            some (record { child = t.child; sibling = update t.sibling s cur; parent = parent' })
      ]
    ]

-- The parent that the loop over `find` gives a node.
abbrev pub ppid_at : List Node → ℕ → Option ℕ
ppid_at [] i = none
ppid_at (n ∷ ns) zero = n.ppid
ppid_at (n ∷ ns) (suc i) = ppid_at ns i

unfoldable pub father : List Node → ℕ → Option ℕ
unfolding find_pid
father nodes cur = find_pid (ppid_at nodes cur) nodes

unfoldable pub visit : List Node → ℕ → Links → Option Links
unfolding father attach
visit nodes cur t = elim (father nodes cur) [
  | none ↦ some t
  | some find ↦ attach (length nodes) cur find t
]

-- The loop over `cur`, after a number of its turns.
unfoldable pub visit_first : List Node → ℕ → Option Links
unfolding visit
visit_first nodes zero = some unlinked
visit_first nodes (suc n) = visit_first nodes n >>= visit nodes n

-- `sortNode`: a node of pid 0 and ppid -1 goes before the others.
abbrev pub new_root : Node
new_root = record { pid = 0; ppid = none; command = codes "test" }

unfoldable pub sort_node : List Node → Option Links
unfolding visit_first
sort_node nodes = visit_first (new_root ∷ nodes) (length (new_root ∷ nodes))

-- `sscanf(line, "... %s", word)` for a format that starts with these bytes and a space.
unfoldable pub scan : Bytes → Bytes → Option Bytes
unfolding skip break_at
scan [] line =
    let word = (break_at is_space (skip is_space line)).0 in
    elim word [ [] ↦ none | c ∷ cs ↦ some (c ∷ cs) ]
scan (p ∷ ps) [] = none
scan (p ∷ ps) (c ∷ cs) = let rest = scan ps cs in if p == c then rest else none

-- The loop over the lines of a status file, from the command that it has so far. `none`: there is
-- no "PPid:", so that `PPid` keeps what the stack held, or a word does not fit its array.
unfoldable pub read_status : ℕ → Bytes → Bytes → Option (Bytes × ℕ)
unfolding scan fgets read_digits
read_status zero command stream = none
read_status (suc fuel) command stream = elim (fgets 1024 stream) [
  | none ↦ none
  | some (line, rest) ↦
      let on = read_status fuel command rest in
      elim (scan (codes "Name:") line) [
        | some word ↦ if ltb (length word) 255 then read_status fuel word rest else none
        | none ↦ elim (scan (codes "PPid:") line) [
          | some word ↦ if ltb (length word) 256 then some (command, read_digits 0 word) else none
          | none ↦ on
        ]
      ]
]

-- An entry of /proc: its name, whether it is a directory, and its status file if that can be
-- opened.
pub record Entry : Type 0 where
  pub name : Bytes
  pub is_directory : Bool
  pub status : Option Bytes

-- The loop over the entries. `atoi` is read for names and numbers without a sign.
unfoldable pub collect : List Entry → Option (List Node)
unfolding read_status
collect [] = some []
collect (e ∷ es) =
    let rest = collect es in
    if e.is_directory && not (read_digits 0 e.name == 0)
    then elim e.status [
      | none ↦ rest
      | some stream ↦ elim (read_status (suc (length stream)) [] stream) [
        | none ↦ none
        | some (command, ppid) ↦ rest >>= λ nodes.
            some
              (record { pid = read_digits 0 e.name; ppid = some ppid; command = command } ∷ nodes)
      ]
    ]
    else rest

-- `buildProcessTree`: the nodes behind the new root, and the pointers of all.
unfoldable pub build_process_tree : List Entry → Option (List Node × Links)
unfolding collect sort_node
build_process_tree entries = collect entries >>= λ nodes. sort_node nodes >>= λ t. some (nodes, t)
