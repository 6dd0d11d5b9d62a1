-- ===== src/Exercises/Tests.antt =====
-- Runs of the programs, and each theorem at a concrete input.
use linux_programming.Base.{
  ℕ, ◌*◌, ◌<◌, ◌≤◌, ◌≡◌, ◌⊎◌, refl, true, [], ◌∷◌, ◌++◌, some, none, length, ltb, if◌then◌else◌,
  replicate, lt→ltb, le→ltb,
}
use linux_programming.Cstr.{Bytes, codes}
use linux_programming.Kernel.Defs.{Reply, ok, fail}
use linux_programming.Kernel.Simulated.{
  simulated, simulated-Laws, SimTable, entry, terminal, reader, writer,
}
use linux_programming.Shell.Builtin.{erange}
use linux_programming.Copy.{Reads, eof, broken, piece, Writes}
use linux_programming.Copy.Loop.{delivered}
use linux_programming.Exercises.{printed, print_dir, mycat, pipe_ls, reader_side}
use linux_programming.Exercises.Size.{print_dir-ends}
use linux_programming.Exercises.Listing.{pipe_ls-output}

abbrev home : Bytes
home = codes "/home/user"

abbrev getcwd : Bytes → ℕ → Reply Bytes
getcwd dir size = if ltb (length dir) size then ok dir else fail erange

-- A directory of 300 bytes does not fit the first buffer.
print_dir-long :
    print_dir (λ size. true) (getcwd (replicate 300 b'a')) 2 256
    ≡ some (printed (replicate 300 b'a') 512)
unfolding print_dir
print_dir-long = refl

print_dir-ends_example :
    (last : ℕ) × (print_dir (λ size. true) (getcwd home) 11 256 ≡ some (printed home last))
    × (10 < last)
    × ((last ≡ 256) ⊎ (last ≤ 2 * 10))
print_dir-ends_example =
    print_dir-ends (λ size. true) (getcwd home) home (λ size. refl)
      (λ size h. rw (lt→ltb 10 size h) refl) (λ size h. rw (le→ltb 10 size h) refl)

abbrev all : Writes
all file bs = ok (length bs)

-- Two pieces of a listing.
abbrev listing : Reads
listing = piece b'a' (codes "b\n") (piece b'c' (codes "\n") eof)

-- A read that fails is taken for the end, and the status is still 0.
mycat-broken : mycat 2 (ok (piece b'a' [] (broken 5))) all [] ≡ (0, codes "a")
unfolding mycat
mycat-broken = refl

abbrev table : SimTable
table = some terminal ∷ some terminal ∷ some terminal ∷ []

abbrev piped : SimTable
piped = table ++ (some (reader 3) ∷ some (writer 3) ∷ [])

pipe_ls-output_example :
    (p : ℕ) × (c : SimTable) × ((pipe_ls simulated table listing true all []).child ≡ some c)
    × (entry c 1 ≡ some (writer p))
    × (entry c 4 ≡ none)
    × (entry c 3 ≡ none)
    × (entry (reader_side simulated piped 4) 3 ≡ some (reader p))
    × (entry (reader_side simulated piped 4) 4 ≡ none)
    × ((pipe_ls simulated table listing true all []).output ≡ [] ++ delivered listing)
pipe_ls-output_example =
    pipe_ls-output simulated simulated-Laws table piped 3 4 terminal listing true all [] refl refl
      refl (λ file bs. refl)
