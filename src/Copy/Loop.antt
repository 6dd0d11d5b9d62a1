-- ===== src/Copy/Loop.antt =====
-- What the loops of cp.c and tee.c leave in their files.
use linux_programming.Base.{
  ℕ, ◌≡◌, ◌⊎◌, inl, inr, refl, sym, ap, ◌∙◌, Bool, true, false, drop, take-append-drop, ==-refl, [],
  ◌∷◌, ◌++◌, Option, some, ◌==◌, length, take, Bool-cases, ==→eq,
}
use mathlib.Core.List.{append_assoc, append-nil}
use linux_programming.Cstr.{Bytes, codes}
use linux_programming.Kernel.Defs.{Reply, ok, fail, Reply-cases}
use linux_programming.Copy.{
  Reads, eof, broken, piece, Writes, status, Outcome, outcome, copy_loop, cp, teed, tee_loop,
  tee_end, tee,
}

-- All the bytes that the reads give.
abbrev pub delivered : Reads → Bytes
delivered eof = []
delivered (broken e) = []
delivered (piece b bs rest) = (b ∷ bs) ++ delivered rest

-- Whether the reads end with the end of the file.
abbrev pub Ends : Reads → Type 0
Ends eof = Unit
Ends (broken e) = ⊥
Ends (piece b bs rest) = Ends rest

-- A file system with room: each `write` takes all the bytes.
abbrev pub IsWhole : Writes → Type 0
IsWhole write = (file bs : Bytes) → write file bs ≡ ok (length bs)

take_all : (xs : Bytes) → take (length xs) xs ≡ xs
take_all [] = refl
take_all (x ∷ xs) = ap (◌∷◌ x) (take_all xs)

take_of_length : (n : ℕ) (xs : Bytes) → (n == length xs) ≡ true → take n xs ≡ xs
take_of_length n xs h = rw (==→eq n (length xs) h) (take_all xs)

-- What the loop has done from a target: it ends well with all that was to come, or with status 1
-- and a first part of it.
abbrev Copies : Bytes → Reads → Outcome → Type 0
Copies target source o =
    ((o.exit ≡ status 0) × (o.target ≡ some (target ++ delivered source)))
    ⊎ ((o.exit ≡ status 1)
        × (done : Bytes) × (rest : Bytes) × (o.target ≡ some (target ++ done))
        × (done ++ rest ≡ delivered source))

copy_loop-Copies :
    (write : Writes) (target : Bytes) (source : Reads)
    → Copies target source (copy_loop write target source)
unfolding copy_loop
copy_loop-Copies write target eof = inl (refl, ap some (sym (append-nil target)))
copy_loop-Copies write target (broken e) =
    inr (refl, [], [], ap some (sym (append-nil target)), refl)
copy_loop-Copies write target (piece b bs rest) = elim (Reply-cases (write target (b ∷ bs))) [
  | inl (e, w) ↦
      rw (copy_loop, w)
        (inr (refl, [], (b ∷ bs) ++ delivered rest, ap some (sym (append-nil target)), refl))
  | inr (n, w) ↦
      rw (copy_loop, w)
        (elim (Bool-cases (n == length (b ∷ bs))) [
          | inl h ↦
              rw (h, take_of_length n (b ∷ bs) h)
                (carry (copy_loop-Copies write (target ++ (b ∷ bs)) rest))
          | inr h ↦
              rw h (
                inr (refl, take n (b ∷ bs), drop n (b ∷ bs) ++ delivered rest, refl, split_chunk n))
        ])
]
  where
    split_chunk :
        (n : ℕ)
        → take n (b ∷ bs) ++ (drop n (b ∷ bs) ++ delivered rest) ≡ (b ∷ bs) ++ delivered rest
    split_chunk n =
        sym (append_assoc (take n (b ∷ bs)) (drop n (b ∷ bs)) (delivered rest))
        ∙ ap (λ xs. xs ++ delivered rest) (take-append-drop n (b ∷ bs))

    carry : {o : Outcome} → Copies (target ++ (b ∷ bs)) rest o → Copies target (piece b bs rest) o
    carry (inl (e, t)) = inl (e, t ∙ ap some (append_assoc target (b ∷ bs) (delivered rest)))
    carry (inr (e, done, left, t, whole)) = inr (
      e,
      (b ∷ bs) ++ done,
      left,
      t ∙ ap some (append_assoc target (b ∷ bs) done),
      append_assoc (b ∷ bs) done left ∙ ap (λ xs. (b ∷ bs) ++ xs) whole,
    )

-- Whatever the reads and writes give, cp ends with status 0 and the target holds all that the
-- source delivered, or it ends with status 1 and the target is as it was before or holds a first
-- part of what the source delivered.
pub cp-outcome :
    (source : Reply Reads) (creates : Bool) (write : Writes) (old : Option Bytes)
    → ((s : Reads) × (source ≡ ok s)
        × ((cp source creates write old).exit ≡ status 0)
        × ((cp source creates write old).target ≡ some (delivered s)))
      ⊎ (((cp source creates write old).exit ≡ status 1)
          × (((cp source creates write old).target ≡ old)
              ⊎ ((s : Reads) × (done : Bytes) × (rest : Bytes) × (source ≡ ok s)
                  × ((cp source creates write old).target ≡ some done)
                  × (done ++ rest ≡ delivered s))))
unfolding cp
cp-outcome (fail e) creates write old = inr (refl, inl refl)
cp-outcome (ok s) false write old = inr (refl, inl refl)
cp-outcome (ok s) true write old = elim (copy_loop-Copies write [] s) [
  | inl (e, t) ↦ inl (s, refl, e, t)
  | inr (e, done, rest, t, whole) ↦ inr (e, inr (s, done, rest, refl, t, whole))
]

-- With room for every write and reads that end well, the loop appends all that is delivered.
pub copy_loop-whole :
    (write : Writes) (target : Bytes) (source : Reads)
    → IsWhole write
    → Ends source
    → copy_loop write target source ≡ outcome (status 0) (some (target ++ delivered source))
unfolding copy_loop
copy_loop-whole write target eof w h = rw (append-nil target) refl
copy_loop-whole write target (broken e) w h = absurd h
copy_loop-whole write target (piece b bs rest) w h =
    rw (copy_loop, w target (b ∷ bs), ==-refl (length (b ∷ bs)), take_all (b ∷ bs))
      (copy_loop-whole write (target ++ (b ∷ bs)) rest w h
        ∙ ap (λ t. outcome (status 0) (some t)) (append_assoc target (b ∷ bs) (delivered rest)))

tee_loop-whole :
    (out write : Writes) (stdout file : Bytes) (input : Reads)
    → IsWhole out
    → IsWhole write
    → Ends input
    → tee_loop out write stdout file input
      ≡ teed (status 0) (stdout ++ delivered input) (file ++ delivered input)
unfolding tee_loop
tee_loop-whole out write stdout file eof o w h = rw (append-nil stdout, append-nil file) refl
tee_loop-whole out write stdout file (broken e) o w h = absurd h
tee_loop-whole out write stdout file (piece b bs rest) o w h =
    rw (tee_loop, w file (b ∷ bs), o stdout (b ∷ bs), take_all (b ∷ bs))
      (tee_loop-whole out write (stdout ++ (b ∷ bs)) (file ++ (b ∷ bs)) rest o w h
        ∙ ap (λ s. teed (status 0) s ((file ++ (b ∷ bs)) ++ delivered rest))
            (append_assoc stdout (b ∷ bs) (delivered rest))
        ∙ ap (teed (status 0) (stdout ++ ((b ∷ bs) ++ delivered rest)))
            (append_assoc file (b ∷ bs) (delivered rest)))

-- tee with its option, a file that opens and closes, writes that take all their bytes and an input
-- that ends well: it ends with status 0, the file has got all the bytes of the input behind what it
-- held, and the standard output all of them and the line of success.
tee-both :
    (out write : Writes) (file : Bytes) (input : Reads)
    → IsWhole out
    → IsWhole write
    → Ends input
    → tee true 3 true true out write file input
      ≡ teed (status 0) (delivered input ++ codes "\nSuccess !\n") (file ++ delivered input)
unfolding tee
tee-both out write file input o w h =
    ap (tee_end true) (tee_loop-whole out write [] file input o w h)
