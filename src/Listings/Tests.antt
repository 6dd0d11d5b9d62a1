-- ===== src/Listings/Tests.antt =====
-- Two processes that have a file open, with one between them that cannot be looked at.
use linux_programming.Base.{◌≡◌, refl, List, [], ◌∷◌, ◌++◌, true, false, none, some, inl, inr}
use linux_programming.Cstr.{codes, streq, take_line}
use linux_programming.Cstr.Numbers.{read_digits}
use linux_programming.Listings.{FdEntry, Process, inspect_fd, user_processes, user_id_from_name}
use linux_programming.Listings.Open.{uses, inspect_fd-uses}

abbrev null : FdEntry
null = record { name = codes "3"; is_link = true; target = some (codes "/dev/null") }

abbrev dot : FdEntry
dot = record { name = codes "."; is_link = false; target = none }

abbrev first_two : List Process
first_two =
    record { name = codes "fs"; is_directory = true; fds = none }
    ∷ record { name = codes "7"; is_directory = true; fds = some (dot ∷ null ∷ []) }
    ∷ []

abbrev shut : Process
shut = record { name = codes "9"; is_directory = true; fds = none }

abbrev last_one : List Process
last_one = record { name = codes "12"; is_directory = true; fds = some (null ∷ []) } ∷ []

inspect_fd-uses_example :
    (inspect_fd (codes "/dev/null") (first_two ++ shut ∷ last_one)
      ≡ uses (codes "/dev/null") first_two)
    × (inspect_fd (codes "/dev/null") first_two ≡ uses (codes "/dev/null") first_two)
unfolding read_digits
inspect_fd-uses_example =
    inspect_fd-uses (codes "/dev/null") first_two last_one shut (inl refl, (inr (_, refl), tt)) refl
      refl

uses_seven :
    uses (codes "/dev/null") first_two
    ≡ record { pid = codes "7"; fd = codes "3"; target_file = codes "/dev/null" } ∷ []
unfolding uses streq read_digits
uses_seven = refl

-- The last letter of the name is cut off.
user_processes-cut :
    user_processes (some 5) (
      record {
        name = codes "7";
        is_directory = true;
        status = some (codes "Name:\tbash\nUid:\t5\t5\t5\t5\n");
      }
      ∷ [])
    ≡ (codes "7", codes "bas") ∷ []
unfolding user_processes take_line
user_processes-cut = refl

user_id_from_number : user_id_from_name (λ name. none) (codes "1000") ≡ some 1000
unfolding user_id_from_name
user_id_from_number = refl
