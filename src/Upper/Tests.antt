-- ===== src/Upper/Tests.antt =====
-- Runs of toUpper.c.
use linux_programming.Base.{◌≡◌, refl, [], true, none, some, replicate}
use linux_programming.Cstr.{codes, take_line}
use linux_programming.Upper.{main}

-- The newline is the one that the parent's own buffer still holds.
main-letters : main true (replicate 8 7) (codes "aZ-9\n") ≡ some (codes "AZ-9\n")
unfolding main take_line
main-letters = refl

main-nothing : main true (replicate 8 7) [] ≡ none
unfolding main take_line
main-nothing = refl
