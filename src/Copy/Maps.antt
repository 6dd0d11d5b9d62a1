-- ===== src/Copy/Maps.antt =====
-- The two programs called cp against each other.
use linux_programming.Base.{
  ℕ, zero, suc, ◌-◌, ◌≡◌, ◌≢◌, refl, ap, true, [], ◌∷◌, Option, some, lt→ltb, length, replicate,
  arith,
}
use linux_programming.Cstr.{Bytes}
use linux_programming.Kernel.Defs.{ok}
use linux_programming.Copy.{
  Reads, eof, broken, piece, Writes, status, Works, outcome, cp, copy_loop, cp_mapped, ftruncate,
  memcpy,
}
use linux_programming.Copy.Loop.{delivered, Ends, IsWhole, copy_loop-whole}

-- Every call that can fail for reasons of its own succeeds.
abbrev pub all_work : Works
all_work = record {
  opens = true;
  stats = true;
  maps = true;
  creates = true;
  truncates = true;
  maps_target = true;
}

ftruncate_new : (n : ℕ) → ftruncate [] n ≡ replicate n 0
ftruncate_new zero = refl
ftruncate_new (suc n) = let z : suc n - 0 ≡ suc n = omega arith in rw z refl

memcpy-replicate :
    (source : Bytes) → memcpy (replicate (length source) 0) source (length source) ≡ source
memcpy-replicate [] = refl
memcpy-replicate (b ∷ source) = ap (λ t. b ∷ t) (memcpy-replicate source)

-- All of the source over the zeros of a file that is as long.
memcpy-ftruncate :
    (source : Bytes) → memcpy (ftruncate [] (length source)) source (length source) ≡ source
memcpy-ftruncate source = rw (ftruncate_new (length source)) (memcpy-replicate source)

-- A file of at least one byte is copied alike by the two programs, however its bytes are cut into
-- reads: where all the calls succeed, the reads end well and every write is whole, both end with
-- status 0 and leave all that the source holds.
pub cp-cp_mapped :
    (write : Writes) (old old' : Option Bytes) (source : Reads)
    → IsWhole write
    → Ends source
    → source ≢ eof
    → (cp (ok source) true write old ≡ cp_mapped 3 all_work (delivered source) old')
      × (cp_mapped 3 all_work (delivered source) old'
          ≡ outcome (status 0) (some (delivered source)))
unfolding cp cp_mapped
cp-cp_mapped write old old' eof w h some_byte = absurd (some_byte refl)
cp-cp_mapped write old old' (broken e) w h some_byte = absurd h
cp-cp_mapped write old old' (piece b bs rest) w h some_byte =
    let maps = lt→ltb 0 (length (delivered (piece b bs rest))) (omega arith) in
    let whole = copy_loop-whole write [] (piece b bs rest) w h in
    (
      rw (cp_mapped, maps) (rw (memcpy-ftruncate (delivered (piece b bs rest))) whole),
      rw (cp_mapped, maps) (rw (memcpy-ftruncate (delivered (piece b bs rest))) refl),
    )

-- An empty file: the loop makes an empty target, the other program ends with status 1 and has not
-- touched the target's name, whatever the other calls do.
cp_mapped-empty :
    (argc : ℕ) (w : Works) (write : Writes) (old : Option Bytes)
    → (cp (ok eof) true write old ≡ outcome (status 0) (some []))
      × (cp_mapped argc w [] old ≡ outcome (status 1) old)
unfolding cp copy_loop cp_mapped
cp_mapped-empty argc w write old = (refl, ground arith)
