-- ===== src/Popen/Tests.antt =====
-- `custom_popen` on the simulated kernel, and the commands that `main` makes.
use linux_programming.Base.{◌≡◌, ◌≢◌, refl, [], ◌∷◌, none, some, replicate, ◌++◌}
use linux_programming.Cstr.{codes, take_line}
use linux_programming.Kernel.Simulated.{simulated, simulated-Laws, SimTable, terminal}
use linux_programming.Popen.{custom_popen, build_command, print_lines}
use linux_programming.Popen.Modes.{Reads, custom_popen-modes}

abbrev std : SimTable
std = some terminal ∷ some terminal ∷ some terminal ∷ []

output_open : simulated.at std 1 ≢ none
output_open e = cc

custom_popen-modes_example :
    Reads simulated simulated-Laws std
      (codes "ls")
      (custom_popen simulated std (codes "ls") (codes "r"))
    × ((u : SimTable) → (custom_popen simulated u (codes "ls") (codes "w")).stream ≡ none)
custom_popen-modes_example =
    custom_popen-modes simulated simulated-Laws std (codes "ls") 3 4 _ refl refl output_open
      (λ u. refl)

build_ls :
    build_command (replicate 32 7) (codes "ls") (codes "-l" ∷ [])
    ≡ some (codes "ls -l" ++ 0 ∷ replicate 26 7)
unfolding build_command
build_ls = refl

-- 32 bytes with their spaces do not fit.
build_long :
    build_command (replicate 32 7) (codes "0123456789abcdef") (codes "0123456789abcde" ∷ []) ≡ none
unfolding build_command
build_long = refl

print_two : print_lines 9 (codes "a\nbc\n") ≡ some (codes "a\nbc\n")
unfolding print_lines take_line
print_two = refl
