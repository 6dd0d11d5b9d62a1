-- ===== src/Shell/Argv/Split.antt =====
-- What the searches through `argv` find.
use linux_programming.Base.{
  ℕ, suc, ◌+◌, ◌≡◌, ◌≢◌, refl, ap, ◌∙◌, ◌⊎◌, inl, inr, true, false, ◌||◌, List, [], ◌∷◌, ◌++◌, none,
  some, arith, ◌==◌, if◌then◌else◌, length, All, Bool-cases,
}
use linux_programming.Cstr.{Bytes, streq}
use linux_programming.Cstr.Compare.{streq_refl, streq_ne, streq→eq, ne_of_streq}
use linux_programming.Shell.Argv.{
  bar, ampersand, is_null, find_ampersand, is_background, present_from, pipe_present, find_from,
}

-- No string of the list is `mark`.
abbrev pub Lacks : Bytes → List Bytes → Type 0
Lacks mark = All (λ w. w ≢ mark)

pub find_from-Lacks :
    (mark : Bytes) (i : ℕ) (ws : List Bytes) → Lacks mark ws → find_from mark i ws ≡ none
unfolding find_from
find_from-Lacks mark i [] h = refl
find_from-Lacks mark i (w ∷ ws) h = rw (streq_ne w mark h.0) (find_from-Lacks mark (i + 1) ws h.1)

pub find_from-append :
    (mark : Bytes) (i : ℕ) (ws vs : List Bytes)
    → Lacks mark ws
    → find_from mark i (ws ++ mark ∷ vs) ≡ some (i + length ws)
unfolding find_from
find_from-append mark i [] vs h = rw (streq_refl mark) (ap some (omega arith))
find_from-append mark i (w ∷ ws) vs h =
    rw (streq_ne w mark h.0) (find_from-append mark (i + 1) ws vs h.1 ∙ ap some (omega arith))

present_from-Lacks : (i : ℕ) (ws : List Bytes) → Lacks bar ws → present_from i ws ≡ some 0
unfolding present_from
present_from-Lacks i [] h = refl
present_from-Lacks i (w ∷ ws) h = rw (streq_ne w bar h.0) (present_from-Lacks (i + 1) ws h.1)

present_from-append :
    (i : ℕ) (ws vs : List Bytes)
    → Lacks bar ws
    → present_from i (ws ++ bar ∷ vs)
      ≡ (if i + length ws == 0 || is_null vs then none else some (i + length ws))
unfolding present_from
present_from-append i [] vs h = let e : i + 0 ≡ i = omega arith in rw (streq_refl bar, e) refl
present_from-append i (w ∷ ws) vs h =
    let e : i + 1 + length ws ≡ i + suc (length ws) = omega arith in
    rw (streq_ne w bar h.0) (present_from-append (i + 1) ws vs h.1 ∙ rw e refl)

-- `pipe_present` returns 0 where no string is "|".
pub pipe_present-Lacks : (ws : List Bytes) → Lacks bar ws → pipe_present ws ≡ some 0
unfolding pipe_present
pipe_present-Lacks ws h = present_from-Lacks 0 ws h

-- Of a command line with a "|", it returns the index of the first one, and -1 if that is the
-- first string or the last.
pub pipe_present-append :
    (ws vs : List Bytes)
    → Lacks bar ws
    → pipe_present (ws ++ bar ∷ vs)
      ≡ (if length ws == 0 || is_null vs then none else some (length ws))
unfolding pipe_present
pipe_present-append ws vs h =
    let e : 0 + length ws ≡ length ws = omega arith in present_from-append 0 ws vs h ∙ rw e refl

-- A list of strings lacks `mark`, or splits at the first.
pub Lacks-cases :
    (mark : Bytes) (argv : List Bytes)
    → Lacks mark argv
      ⊎ ((ws : List Bytes) × (vs : List Bytes) × (argv ≡ ws ++ mark ∷ vs) × Lacks mark ws)
Lacks-cases mark [] = inl tt
Lacks-cases mark (w ∷ argv) = elim (Bool-cases (streq w mark)) [
  | inl e ↦ inr ([], argv, ap (λ x. x ∷ argv) (streq→eq w mark e), tt)
  | inr e ↦ elim (Lacks-cases mark argv) [
    | inl l ↦ inl (ne_of_streq w mark e, l)
    | inr (ws, vs, p, l) ↦ inr (w ∷ ws, vs, ap (◌∷◌ w) p, (ne_of_streq w mark e, l))
  ]
]

find_ampersand-Lacks : (ws : List Bytes) → Lacks ampersand ws → find_ampersand ws ≡ none
unfolding find_ampersand
find_ampersand-Lacks [] h = refl
find_ampersand-Lacks (w ∷ ws) h = rw (streq_ne w ampersand h.0) (find_ampersand-Lacks ws h.1)

find_ampersand-append : (ws vs : List Bytes) → find_ampersand (ws ++ ampersand ∷ vs) ≡ some true
unfolding find_ampersand
find_ampersand-append [] vs = rw (streq_refl ampersand) refl
find_ampersand-append (w ∷ ws) vs = ground (arith, find_ampersand-append ws vs)

-- `is_background` returns TRUE for a command line with an "&" anywhere, and FALSE for an empty one;
-- for a command line that has strings and no "&" it ends without returning a value.
pub is_background_returns :
    ((ws vs : List Bytes) → is_background (ws ++ ampersand ∷ vs) ≡ some true)
    × (is_background [] ≡ some false)
    × ((w : Bytes) (ws : List Bytes) → Lacks ampersand (w ∷ ws) → is_background (w ∷ ws) ≡ none)
unfolding is_background
is_background_returns = (found, refl, λ w ws h. find_ampersand-Lacks (w ∷ ws) h)
  where
    found : (ws vs : List Bytes) → is_background (ws ++ ampersand ∷ vs) ≡ some true
    found [] vs = find_ampersand-append [] vs
    found (w ∷ ws) vs = find_ampersand-append (w ∷ ws) vs
