-- ===== src/Cstr/Streams.antt =====
-- Reading lines: `fgets` on a stream.
use linux_programming.Base.{
  ℕ, zero, suc, ◌-◌, ◌<◌, ◌≤◌, ◌≡◌, ◌≢◌, refl, ap, [], ◌∷◌, ◌++◌, some, arith, length, All,
}
use linux_programming.Cstr.{Bytes, newline, take_line, fgets}

-- What is read and what is left make up the stream.
pub take_line-append : (n : ℕ) (cs : Bytes) → (take_line n cs).0 ++ (take_line n cs).1 ≡ cs
unfolding take_line
take_line-append zero cs = refl
take_line-append (suc n) [] = refl
take_line-append (suc n) (c ∷ cs) = ground (arith, take_line-append n cs)

pub length-take_line-le : (n : ℕ) (cs : Bytes) → length (take_line n cs).1 ≤ length cs
unfolding take_line
length-take_line-le zero cs = omega arith
length-take_line-le (suc n) [] = omega arith
length-take_line-le (suc n) (c ∷ cs) = ground (arith, length-take_line-le n cs)

pub length-take_line-lt :
    (n c : ℕ) (cs : Bytes) → length (take_line (suc n) (c ∷ cs)).1 < suc (length cs)
unfolding take_line
length-take_line-lt n c cs = ground (arith, length-take_line-le n cs)

-- A text with no newline.
abbrev pub IsLine : Bytes → Type 0
IsLine = All (λ c. c ≢ newline)

-- A line that fits is read whole, with its newline.
pub take_line-line :
    (n : ℕ) (s rest : Bytes)
    → IsLine s
    → length s < n
    → take_line n (s ++ (newline ∷ rest)) ≡ (s ++ (newline ∷ []), rest)
unfolding take_line
take_line-line zero s rest l h = absurd (omega arith)
take_line-line (suc n) [] rest l h = refl
take_line-line (suc n) (c ∷ s) rest l h = ground (arith, take_line-line n s rest l.1 (omega arith))

some_rest : (p : Bytes × Bytes) (line rest : Bytes) → some p ≡ some (line, rest) → p.1 ≡ rest
some_rest p line rest e = ground arith

-- A line read off the stream leaves a shorter one.
pub fgets-shorter :
    (n : ℕ) (stdin line rest : Bytes)
    → fgets (suc (suc n)) stdin ≡ some (line, rest)
    → length rest < length stdin
unfolding fgets
fgets-shorter n [] line rest e = cc
fgets-shorter n (c ∷ cs) line rest e =
    let size : suc (suc n) - 1 ≡ suc n = omega arith in
    let same = some_rest (take_line (suc n) (c ∷ cs)) line rest (rw size at e) in
    rw same at (length-take_line-lt n c cs)

sub_one : (n : ℕ) → suc n - 1 ≡ n
sub_one n = omega arith

-- A line that fits is read whole.
pub fgets-line :
    (n : ℕ) (s rest : Bytes)
    → IsLine s
    → length s < n
    → fgets (suc n) (s ++ (newline ∷ rest)) ≡ some (s ++ (newline ∷ []), rest)
unfolding fgets
fgets-line n [] rest l h = rw (sub_one n) (ap some (take_line-line n [] rest l h))
fgets-line n (c ∷ s) rest l h = rw (sub_one n) (ap some (take_line-line n (c ∷ s) rest l h))
