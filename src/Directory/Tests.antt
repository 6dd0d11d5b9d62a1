-- ===== src/Directory/Tests.antt =====
-- A run over three paths and two reads.
use linux_programming.Base.{◌≡◌, ◌≢◌, refl, List, [], ◌∷◌, true, false, All, arith, replicate}
use linux_programming.Cstr.{codes}
use linux_programming.Kernel.Defs.{ok}
use linux_programming.Directory.{Visit, main}
use linux_programming.Directory.Events.{Event, created, deleted}
use linux_programming.Directory.Watches.{Batch, reads_of, main-messages}

abbrev visits : List Visit
visits =
    record { filepath = codes "d"; is_directory = true }
    ∷ record { filepath = codes "d/f"; is_directory = false }
    ∷ record { filepath = codes "d/e"; is_directory = true }
    ∷ []

abbrev new_file : Event
new_file = record {
  wd = 1;
  kind = created;
  on_directory = false;
  cookie = 0;
  name = codes "ab";
  padding = 13;
}

abbrev old_directory : Event
old_directory = record {
  wd = 2;
  kind = deleted;
  on_directory = true;
  cookie = 0;
  name = codes "x";
  padding = 14;
}

abbrev batches : List Batch
batches =
    record { buffer = replicate 60 9; first = new_file; more = old_directory ∷ [] }
    ∷ record { buffer = []; first = old_directory; more = [] }
    ∷ []

ab-IsString : All (λ c. c ≢ 0) (codes "ab")
ab-IsString = ((λ e. omega (arith, e)), ((λ e. omega (arith, e)), tt))

x-IsString : All (λ c. c ≢ 0) (codes "x")
x-IsString = ((λ e. omega (arith, e)), tt)

main-messages_example : main true (λ p. ok 1) (codes "d") visits true (reads_of batches) ≡ record {
  watched = codes "d" ∷ codes "d/e" ∷ [];
  printed =
      codes "Monitoring directory: d\n"
      ∷ codes "File/directory created: ab\n"
      ∷ codes "File/directory deleted: x\n"
      ∷ codes "File/directory deleted: x\n"
      ∷ [];
  running = true;
}
main-messages_example =
    main-messages (λ p. ok 1) (codes "d") visits batches (λ p. (1, refl))
      (
        ((omega arith, ab-IsString), ((omega arith, x-IsString), tt)),
        (((omega arith, x-IsString), tt), tt),
      )
