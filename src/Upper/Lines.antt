-- ===== src/Upper/Lines.antt =====
-- toUpper.c on a line of its input.
use linux_programming.Base.{
  ℕ, suc, ◌+◌, ◌-◌, ◌<◌, ◌≡◌, ◌≢◌, refl, ap, true, [], ◌∷◌, ◌++◌, map, some, arith, length,
  length-append, drop, take-append, drop-append, All-append,
}
use mathlib.Core.List.{append_assoc}
use linux_programming.Cstr.{Bytes, newline, strcpy}
use linux_programming.Cstr.Arrays.{IsString, c_str-append_nul}
use linux_programming.Cstr.Streams.{IsLine, fgets-line}
use linux_programming.Upper.{to_upper, child, parent, main}
use linux_programming.Base.{lt→ltb}

length-map : (s : Bytes) → length (map to_upper s) ≡ length s
length-map [] = refl
length-map (c ∷ s) = ap suc (length-map s)

map-append : (s t : Bytes) → map to_upper (s ++ t) ≡ map to_upper s ++ map to_upper t
map-append [] t = refl
map-append (c ∷ s) t = ap (λ u. to_upper c ∷ u) (map-append s t)

to_upper_nonzero : (c : ℕ) → c ≢ 0 → to_upper c ≢ 0
to_upper_nonzero c h = ground (arith, h)

IsString-upper : (s : Bytes) → IsString s → IsString (map to_upper s)
IsString-upper [] h = tt
IsString-upper (c ∷ s) h = (to_upper_nonzero c h.0, IsString-upper s h.1)

newline_nonzero : (c : ℕ) → 0 < c → c ≢ 0
newline_nonzero c h e = absurd (omega arith)

IsString-end : (s : Bytes) (c : ℕ) → IsString s → c ≢ 0 → IsString (s ++ c ∷ [])
IsString-end s c h n = All-append (λ x. x ≢ 0) s (c ∷ []) h (n, tt)

child-string :
    (s : Bytes) (c : ℕ) (rest : Bytes)
    → IsString (s ++ c ∷ [])
    → child ((s ++ c ∷ []) ++ 0 ∷ rest) ≡ map to_upper s
unfolding child
child-string s c rest h =
    let n : length (s ++ c ∷ []) - 1 ≡ length (map to_upper s) =
      omega (arith, length-append s (c ∷ []), length-map s) in
    rw (child, c_str-append_nul (s ++ c ∷ []) rest h)
      (rw (n, map-append s (c ∷ [])) (take-append (map to_upper s) (to_upper c ∷ [])))

drop_same : (u s t : Bytes) → length u ≡ length s → drop (length u) (s ++ t) ≡ t
drop_same u s t e = rw e (drop-append s t)

parent-string :
    (s : Bytes) (c : ℕ) (rest : Bytes)
    → IsString s
    → c ≢ 0
    → parent ((s ++ c ∷ []) ++ 0 ∷ rest) (map to_upper s) ≡ map to_upper s ++ c ∷ []
unfolding parent
parent-string s c rest h n =
    rw (parent, append_assoc s (c ∷ []) (0 ∷ rest))
      (rw (drop_same (map to_upper s) s (c ∷ (0 ∷ rest)) (length-map s)) (
        rw (← append_assoc (map to_upper s) (c ∷ []) (0 ∷ rest)) (
          c_str-append_nul (map to_upper s ++ c ∷ []) rest
            (IsString-end (map to_upper s) c (IsString-upper s h) n))))

-- For a line of fewer than 1023 bytes with no NUL in it, with its newline, the program prints the
-- line in upper case and its newline, whatever the buffer held. The newline is the one that the
-- parent's buffer still holds.
pub main-line :
    (array s rest : Bytes)
    → length array ≡ 1024
    → IsLine s
    → IsString s
    → length s < 1023
    → main true array (s ++ newline ∷ rest) ≡ some (map to_upper s ++ newline ∷ [])
unfolding main strcpy
main-line array s rest size line str h =
    let n = newline_nonzero newline (omega arith) in
    let behind = drop (length (s ++ newline ∷ []) + 1) array in
    rw (main, fgets-line 1023 s rest line h)
      (rw
        (lt→ltb (length (s ++ newline ∷ [])) (length array)
          (omega (arith, length-append s (newline ∷ []))))
        (rw (child-string s newline behind (IsString-end s newline str n))
          (ap some (parent-string s newline behind str n))))
