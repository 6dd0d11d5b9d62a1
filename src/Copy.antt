-- ===== src/Copy.antt =====
-- homework/hw1/1-2/cp.c, homework/hw9/49-1/cp.c and homework/hw1/1-1/tee.c: files copied by a loop
-- of `read` and `write`, and through two memory maps.
pub mod Loop
pub mod Maps
mod Tests
use linux_programming.Base.{
  ℕ, suc, ◌-◌, Bool, true, false, ◌&&◌, List, [], ◌∷◌, ◌++◌, Option, none, some, ltb, ◌==◌,
  if◌then◌else◌, length, take, drop, replicate,
}
use linux_programming.Cstr.{Bytes, codes}
use linux_programming.Kernel.Defs.{Reply, ok, fail}

-- What the calls of `read` on a descriptor give, one after the other: pieces of at least one byte,
-- and at last the end of the file or an error.
pub data Reads : Type 0 where
  eof : Reads
  broken : ℕ → Reads
  piece : ℕ → Bytes → Reads → Reads

-- What a call of `write` returns, from what the file holds and the bytes to write.
abbrev pub Writes : Type 0
Writes = Bytes → Bytes → Reply ℕ

-- How a program ends: the status that `main` returns or `exit` gets, or a fault.
pub data Exit : Type 0 where
  status : ℕ → Exit
  fault : Exit

-- The program's end, and what the target file holds then; `none`: there is no such file.
pub record Outcome : Type 0 where
  pub exit : Exit
  pub target : Option Bytes

abbrev pub outcome : Exit → Option Bytes → Outcome
outcome e t = record { exit = e; target = t }

-- The loop of cp.c, with what the target holds already.
unfoldable pub copy_loop : Writes → Bytes → Reads → Outcome
copy_loop write target eof = outcome (status 0) (some target)
copy_loop write target (broken e) = outcome (status 1) (some target)
copy_loop write target (piece b bs rest) = elim (write target (b ∷ bs)) [
  | fail e ↦ outcome (status 1) (some target)
  | ok n ↦
      let on = copy_loop write (target ++ take n (b ∷ bs)) rest in
      if n == length (b ∷ bs) then on else outcome (status 1) (some (target ++ take n (b ∷ bs)))
]

-- `main` of homework 1's cp.c: the source as it is opened, whether the target can be opened, and
-- what the target's name stood for before.
unfoldable pub cp : Reply Reads → Bool → Writes → Option Bytes → Outcome
unfolding copy_loop
cp (fail e) creates write old = outcome (status 1) old
cp (ok source) creates write old =
    if creates then copy_loop write [] source else outcome (status 1) old

-- Which of the calls of homework 9's cp.c succeed, beyond what the arguments of `mmap` decide.
pub record Works : Type 0 where
  pub opens : Bool
  pub stats : Bool
  pub maps : Bool
  pub creates : Bool
  pub truncates : Bool
  pub maps_target : Bool

-- `ftruncate`: a file of this size, with zeros behind what it held.
abbrev pub ftruncate : Bytes → ℕ → Bytes
ftruncate file size = take size file ++ replicate (size - length file) 0

-- `memcpy` of `n` bytes over the front of an array.
abbrev pub memcpy : Bytes → Bytes → ℕ → Bytes
memcpy dst src n = take n src ++ drop n dst

-- `main` of homework 9's cp.c, on what the source holds. `open` leaves an empty target. `mmap` of
-- no bytes fails, and the result of the second one is not looked at: `memcpy` then writes where
-- nothing is mapped. What it writes in a map that is shared is what the file holds.
unfoldable pub cp_mapped : ℕ → Works → Bytes → Option Bytes → Outcome
cp_mapped argc w source old =
    let st_size = length source in
    let sized = ftruncate [] st_size in
    if argc == 3 && w.opens && w.stats && w.maps && ltb 0 st_size
    then if w.creates
      then if w.truncates
        then if w.maps_target
          then outcome (status 0) (some (memcpy sized source st_size))
          else outcome fault (some sized)
        else outcome (status 1) (some [])
      else outcome (status 1) old
    else outcome (status 1) old

-- What tee.c has done: its end, its standard output, and the file.
pub record Teed : Type 0 where
  pub exit : Exit
  pub stdout : Bytes
  pub file : Bytes

abbrev pub teed : Exit → Bytes → Bytes → Teed
teed e s f = record { exit = e; stdout = s; file = f }

-- The bytes that reach a file by a call of `write` whose result is only compared with -1.
abbrev pub sent : Reply ℕ → Bytes → Bytes
sent (fail e) bs = []
sent (ok n) bs = take n bs

-- The loop of tee.c: `out` answers for the standard output, `write` for the file.
unfoldable pub tee_loop : Writes → Writes → Bytes → Bytes → Reads → Teed
tee_loop out write stdout file eof = teed (status 0) stdout file
tee_loop out write stdout file (broken e) = teed (status 1) stdout file
tee_loop out write stdout file (piece b bs rest) =
    let stdout' = stdout ++ sent (out stdout (b ∷ bs)) (b ∷ bs) in
    elim (write file (b ∷ bs)) [
      | fail e ↦ teed (status 1) stdout' file
      | ok n ↦ tee_loop out write stdout' (file ++ take n (b ∷ bs)) rest
    ]

-- The end of tee.c behind its loop: the `close`, and a last line that goes to the standard output.
abbrev pub tee_end : Bool → Teed → Teed
tee_end closes r = elim r.exit [
  | fault ↦ r
  | status n ↦
      if n == 0
      then if closes
        then teed (status 0) (r.stdout ++ codes "\nSuccess !\n") r.file
        else teed (status 1) r.stdout r.file
      else r
]

-- `main` of tee.c: whether `getopt` finds an option, the number of arguments, whether the file can
-- be opened and closed, and what it holds.
unfoldable pub tee : Bool → ℕ → Bool → Bool → Writes → Writes → Bytes → Reads → Teed
unfolding tee_loop
tee option argc opens closes out write file input =
    if option && argc == 3 && opens
    then tee_end closes (tee_loop out write [] file input)
    else teed (status 1) [] file
