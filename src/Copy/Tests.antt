-- ===== src/Copy/Tests.antt =====
-- The programs that copy, on four bytes in two reads.
use linux_programming.Base.{◌≡◌, ◌≢◌, ◌⊎◌, refl, [], ◌∷◌, ◌++◌, none, some, true, length}
use linux_programming.Cstr.{Bytes, codes}
use linux_programming.Kernel.Defs.{ok, fail}
use linux_programming.Copy.{Reads, eof, piece, Writes, status, outcome, cp, cp_mapped, copy_loop}
use linux_programming.Copy.Loop.{cp-outcome, delivered}
use linux_programming.Copy.Maps.{all_work, cp-cp_mapped}

abbrev two_reads : Reads
two_reads = piece b'a' (b'b' ∷ b'c' ∷ []) (piece b'd' [] eof)

abbrev room : Writes
room file bs = ok (length bs)

-- A disk that is full after three bytes.
abbrev three : Writes
three [] bs = ok (length bs)
three (x ∷ xs) bs = fail 28

two_reads-some : two_reads ≢ eof
two_reads-some e = cc

cp-three : cp (ok two_reads) true three none ≡ outcome (status 1) (some (codes "abc"))
unfolding cp copy_loop
cp-three = refl

cp-outcome_example :
    ((s : Reads) × (ok two_reads ≡ ok s)
      × ((cp (ok two_reads) true room none).exit ≡ status 0)
      × ((cp (ok two_reads) true room none).target ≡ some (delivered s)))
    ⊎ (((cp (ok two_reads) true room none).exit ≡ status 1)
        × (((cp (ok two_reads) true room none).target ≡ none)
            ⊎ ((s : Reads) × (done : Bytes) × (rest : Bytes) × (ok two_reads ≡ ok s)
                × ((cp (ok two_reads) true room none).target ≡ some done)
                × (done ++ rest ≡ delivered s))))
cp-outcome_example = cp-outcome (ok two_reads) true room none

cp-cp_mapped_example :
    (cp (ok two_reads) true room none ≡ cp_mapped 3 all_work (codes "abcd") (some (codes "old")))
    × (cp_mapped 3 all_work (codes "abcd") (some (codes "old"))
        ≡ outcome (status 0) (some (codes "abcd")))
cp-cp_mapped_example =
    cp-cp_mapped room none (some (codes "old")) two_reads (λ f bs. refl) tt two_reads-some
