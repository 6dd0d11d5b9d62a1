-- ===== src/ProcessTree/Tests.antt =====
-- A tree of three processes, from their entries in /proc.
use linux_programming.Base.{ℕ, ◌≡◌, refl, List, [], ◌∷◌, ◌++◌, true, none, some, All}
use linux_programming.Cstr.{codes, take_line}
use linux_programming.ProcessTree.{
  Node, Links, Entry, new_root, father, sort_node, collect, read_status, build_process_tree,
}
use linux_programming.ProcessTree.Chains.{Chain}
use linux_programming.ProcessTree.Kids.{kids}
use linux_programming.ProcessTree.Layers.{main-ends}
use linux_programming.ProcessTree.Print.{Line, print_node, text_of, main}
use linux_programming.ProcessTree.Rows.{Once}
use linux_programming.ProcessTree.Places.{IsPlaced}
use linux_programming.ProcessTree.Sorting.{sort_node-tree}

abbrev entries : List Entry
entries =
    record {
      name = codes "1";
      is_directory = true;
      status = some (codes "Name:\tinit\nPPid:\t0\n");
    }
    ∷ record { name = codes "fs"; is_directory = true; status = none }
    ∷ record {
      name = codes "7";
      is_directory = true;
      status = some (codes "Name:\tsh\nPid:\t7\nPPid:\t1\n");
    }
    ∷ record { name = codes "9"; is_directory = true; status = none }
    ∷ record {
      name = codes "12";
      is_directory = true;
      status = some (codes "Name:\tls\nPPid:\t1\n");
    }
    ∷ []

abbrev three : List Node
three =
    record { pid = 1; ppid = some 0; command = codes "init" }
    ∷ record { pid = 7; ppid = some 1; command = codes "sh" }
    ∷ record { pid = 12; ppid = some 1; command = codes "ls" }
    ∷ []

collect-three : collect entries ≡ some three
unfolding collect read_status take_line
collect-three = refl

kids_of_init : kids (new_root ∷ three) 4 1 ≡ 2 ∷ 3 ∷ []
unfolding kids
kids_of_init = refl

sort_node-tree_example :
    (t : Links) × (sort_node three ≡ some t)
    × ((i : ℕ) → Chain t.sibling (t.child i) (kids (new_root ∷ three) 4 i))
    × ((j : ℕ) → t.parent j ≡ father (new_root ∷ three) j)
sort_node-tree_example = sort_node-tree three

-- The tree above with "ls" as a child of "sh".
abbrev nested : List Entry
nested =
    record {
      name = codes "1";
      is_directory = true;
      status = some (codes "Name:\tinit\nPPid:\t0\n");
    }
    ∷ record {
      name = codes "7";
      is_directory = true;
      status = some (codes "Name:\tsh\nPPid:\t1\n");
    }
    ∷ record {
      name = codes "8";
      is_directory = true;
      status = some (codes "Name:\tsu\nPPid:\t1\n");
    }
    ∷ record {
      name = codes "12";
      is_directory = true;
      status = some (codes "Name:\tls\nPPid:\t8\n");
    }
    ∷ []

-- The child of the second node of a layer is not printed, since the loop goes down from the first.
main-nested :
    main nested
    ≡ some (
        codes
          "Process Tree:\nPID: 1, PPID: 0, Command: init\nPID: 7, PPID: 1, Command: sh\n    PID: 8, PPID: 1, Command: su\n")
unfolding main build_process_tree collect read_status take_line print_node
main-nested = refl

main-ends_example :
    (ls : List Line) × (main entries
      ≡ some (codes "Process Tree:\n" ++ text_of (new_root ∷ three) ((0, 1) ∷ ls)))
    × All (IsPlaced (new_root ∷ three)) ls
    × Once ((0, 1) ∷ ls)
main-ends_example = main-ends entries _ _ collect-three refl
