-- ===== src/Cstr/Arrays.antt =====
-- Character arrays: what `strcpy` and `strcat` leave in them.
use linux_programming.Base.{
  ◌+◌, ◌<◌, ◌≡◌, ◌≢◌, ◌⊎◌, inl, inr, refl, ap, ◌==◌, Bool-cases, [], ◌∷◌, ◌++◌, some, arith, length,
  drop, All, length-append, length-drop, lt→ltb,
}
use linux_programming.Cstr.{Bytes, c_str, newline, strcpy, strcat}

-- A string: no byte of it is NUL.
abbrev pub IsString : Bytes → Type 0
IsString = All (λ c. c ≢ 0)

pub c_str-append_nul : (s rest : Bytes) → IsString s → c_str (s ++ (0 ∷ rest)) ≡ s
unfolding c_str
c_str-append_nul [] rest h = refl
c_str-append_nul (c ∷ s) rest h = ground (arith, c_str-append_nul s rest h.1)

-- A string that fits is copied, and the array keeps its length.
pub strcpy-fits :
    (array s : Bytes)
    → length s < length array
    → IsString s
    → (array' : Bytes) × (strcpy array s ≡ some array')
      × (length array' ≡ length array)
      × (c_str array' ≡ s)
unfolding strcpy
strcpy-fits array s h str = (
  s ++ (0 ∷ drop (length s + 1) array),
  ground (arith, lt→ltb (length s) (length array)),
  omega (arith, length-append s (0 ∷ drop (length s + 1) array), length-drop (length s + 1) array),
  c_str-append_nul s _ str,
)

pub strcat-fits :
    (array s : Bytes)
    → length (c_str array) + length s < length array
    → IsString (c_str array ++ s)
    → (array' : Bytes) × (strcat array s ≡ some array')
      × (length array' ≡ length array)
      × (c_str array' ≡ c_str array ++ s)
unfolding strcat
strcat-fits array s h str =
    strcpy-fits array (c_str array ++ s) (omega (arith, length-append (c_str array) s)) str

-- A newline behind an array is at the end of its string, or behind the NUL.
pub c_str-newline :
    (s : Bytes)
    → (c_str (s ++ newline ∷ []) ≡ c_str s) ⊎ (c_str (s ++ newline ∷ []) ≡ c_str s ++ newline ∷ [])
unfolding c_str
c_str-newline [] = inr refl
c_str-newline (c ∷ s) = elim (Bool-cases (c == 0)) [
  | inl e ↦ rw e (inl refl)
  | inr e ↦
      rw e (elim (c_str-newline s) [ inl h ↦ inl (ap (◌∷◌ c) h) | inr h ↦ inr (ap (◌∷◌ c) h) ])
]

pub c_str_whole : (s : Bytes) → IsString s → c_str s ≡ s
unfolding c_str
c_str_whole [] h = refl
c_str_whole (c ∷ s) h = ground (arith, c_str_whole s h.1)
