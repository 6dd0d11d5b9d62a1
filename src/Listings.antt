-- ===== src/Listings.antt =====
-- homework/hw4/4-3/getAllProcess.c and homework/hw4/4-1/userProcess.c: the processes that have a
-- file open, and the processes of a user, as /proc lists them.
pub mod Open
pub mod Fuel
mod Tests
use linux_programming.Base.{
  ℕ, zero, suc, ◌-◌, Bool, true, false, ◌&&◌, not, List, [], ◌∷◌, ◌++◌, Option, none, some, ◌==◌,
  if◌then◌else◌, length, take,
}
use linux_programming.Cstr.{Bytes, codes, streq, fgets, is_space, is_digit, skip}
use linux_programming.Cstr.Numbers.{read_digits}
use linux_programming.ProcessTree.{scan}

-- An entry of a directory /proc/PID/fd: its name, whether it is a symbolic link, and where
-- `readlink` says that it leads.
pub record FdEntry : Type 0 where
  pub name : Bytes
  pub is_link : Bool
  pub target : Option Bytes

-- An entry of /proc: its name, whether it is a directory, and the entries of its directory "fd" if
-- that can be opened.
pub record Process : Type 0 where
  pub name : Bytes
  pub is_directory : Bool
  pub fds : Option (List FdEntry)

-- `entry->d_type == 4 && atoi(entry->d_name) != 0`, for names without a sign.
abbrev pub is_process : Bool → Bytes → Bool
is_process is_directory name = is_directory && not (read_digits 0 name == 0)

-- The PID, FD and targetFile of a line of the output.
pub record Use : Type 0 where
  pub pid : Bytes
  pub fd : Bytes
  pub target_file : Bytes

-- One entry of the inner loop. The array for the target takes 511 bytes of it.
unfoldable inspect_entry : Bytes → Bytes → FdEntry → List Use
inspect_entry path pid e =
    if e.is_link
    then elim e.target [
      | none ↦ []
      | some target ↦
          if streq (take 511 target) path
          then record { pid = pid; fd = e.name; target_file = take 511 target } ∷ []
          else []
    ]
    else []

-- The inner loop.
unfoldable pub inspect_entries : Bytes → Bytes → List FdEntry → List Use
unfolding inspect_entry
inspect_entries path pid [] = []
inspect_entries path pid (e ∷ es) = inspect_entry path pid e ++ inspect_entries path pid es

-- `inspectFD`: a directory that cannot be opened ends the function.
unfoldable pub inspect_fd : Bytes → List Process → List Use
unfolding inspect_entries
inspect_fd path [] = []
inspect_fd path (p ∷ ps) =
    let rest = inspect_fd path ps in
    if is_process p.is_directory p.name
    then elim p.fds [ none ↦ [] | some fds ↦ inspect_entries path p.name fds ++ rest ]
    else rest

-- `strtol(name, &endptr, 10)` with nothing left behind the number, for numbers without a sign.
abbrev all_digits : Bytes → Bool
all_digits [] = true
all_digits (c ∷ cs) = is_digit c && all_digits cs

unfoldable whole_number : Bytes → Option ℕ
unfolding skip read_digits
whole_number name = elim (skip is_space name) [
  | [] ↦ none
  | c ∷ cs ↦ if all_digits (c ∷ cs) then some (read_digits 0 (c ∷ cs)) else none
]

-- `userIdFromName`, over `getpwnam`; `none` is -1.
unfoldable pub user_id_from_name : (Bytes → Option ℕ) → Bytes → Option ℕ
unfolding whole_number
user_id_from_name getpwnam [] = none
user_id_from_name getpwnam (c ∷ cs) = elim (whole_number (c ∷ cs)) [
  | some u ↦ some u
  | none ↦ getpwnam (c ∷ cs)
]

-- `command[strlen(command) - 1] = '\0'`
abbrev pub without_last : Bytes → Bytes
without_last s = take (length s - 1) s

-- `uid == userId`; no process has the uid -1.
abbrev pub is_user : Option ℕ → Bytes → Bool
is_user none uid = false
is_user (some u) uid = read_digits 0 uid == u

-- The loop over the lines of a status file, from the command that it has so far: the command that
-- is printed, if any. A line with a "Uid:" has no "Name:".
unfoldable pub status_command : ℕ → Option ℕ → Bytes → Bytes → Option Bytes
unfolding scan fgets read_digits
status_command zero user command stream = none
status_command (suc fuel) user command stream = elim (fgets 256 stream) [
  | none ↦ none
  | some (line, rest) ↦
      let on = status_command fuel user command rest in
      elim (scan (codes "Uid:") line) [
        | some uid ↦ if is_user user uid then some command else on
        | none ↦ elim (scan (codes "Name:") line) [
          | some word ↦ status_command fuel user (without_last word) rest
          | none ↦ on
        ]
      ]
]

-- An entry of /proc with its status file if that can be opened.
pub record StatusEntry : Type 0 where
  pub name : Bytes
  pub is_directory : Bool
  pub status : Option Bytes

-- `main` of userProcess.c: the process IDs and command names that it prints.
unfoldable pub user_processes : Option ℕ → List StatusEntry → List (Bytes × Bytes)
unfolding status_command
user_processes user [] = []
user_processes user (e ∷ es) =
    let rest = user_processes user es in
    if is_process e.is_directory e.name
    then elim e.status [
      | none ↦ rest
      | some stream ↦ elim (status_command (suc (length stream)) user [] stream) [
        | none ↦ rest
        | some command ↦ (e.name, command) ∷ rest
      ]
    ]
    else rest
