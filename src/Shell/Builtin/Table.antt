-- ===== src/Shell/Builtin/Table.antt =====
-- The search of `is_builtin`, and what `do_builtin` runs behind it.
use linux_programming.Base.{
  ◌≡◌, ◌≢◌, refl, ◌⊎◌, inl, inr, true, false, List, [], ◌∷◌, Option, none, some, All, Bool-cases,
}
use linux_programming.Cstr.{Bytes, streq}
use linux_programming.Cstr.Compare.{streq→eq, ne_of_streq}
use linux_programming.Shell.Builtin.{
  Builtin, inbuilts, find_builtin, is_builtin, do_builtin, run_builtin, Env,
}

-- `entry` stands in the table behind `cmd`, with no entry for `cmd` in front of it.
abbrev pub First : Bytes → Builtin → List (Bytes × Builtin) → Type 0
First cmd entry [] = ⊥
First cmd entry ((keyword, do_it) ∷ entries) =
    ((keyword ≡ cmd) × (do_it ≡ entry)) ⊎ ((keyword ≢ cmd) × First cmd entry entries)

-- `cmd` is no keyword of the table.
abbrev pub Unlisted : Bytes → List (Bytes × Builtin) → Type 0
Unlisted cmd = All (λ e. e.0 ≢ cmd)

abbrev Found : Bytes → List (Bytes × Builtin) → Type 0
Found cmd entries =
    ((b : Builtin) × First cmd b entries × (find_builtin entries cmd ≡ some b))
    ⊎ (Unlisted cmd entries × (find_builtin entries cmd ≡ none))

find_builtin-Found : (cmd : Bytes) (entries : List (Bytes × Builtin)) → Found cmd entries
unfolding find_builtin
find_builtin-Found cmd [] = inr (tt, refl)
find_builtin-Found cmd ((keyword, do_it) ∷ entries) = elim (Bool-cases (streq keyword cmd)) [
  | inl e ↦ inl (do_it, inl (streq→eq keyword cmd e, refl), rw e refl)
  | inr n ↦ elim (find_builtin-Found cmd entries) [
    | inl (b, f, e) ↦ inl (b, inr (ne_of_streq keyword cmd n, f), rw n e)
    | inr (u, e) ↦ inr ((ne_of_streq keyword cmd n, u), rw n e)
  ]
]

-- For every word, either the table has it: `is_builtin` says yes and `do_builtin`, called next on
-- any `argv`, has the effect of the first entry with that keyword; or no keyword of the table is
-- that word: `is_builtin` says no and leaves `this` as it was.
pub is_builtin_cases :
    (this : Option Builtin) (cmd : Bytes)
    → ((b : Builtin) × First cmd b inbuilts
        × ((is_builtin this cmd).1 ≡ true)
        × ((env : Env) (argv : List Bytes)
            → (do_builtin env (is_builtin this cmd).0 argv).1 ≡ run_builtin env b argv))
      ⊎ (Unlisted cmd inbuilts × (is_builtin this cmd ≡ (this, false)))
unfolding is_builtin do_builtin
is_builtin_cases this cmd = elim (find_builtin-Found cmd inbuilts) [
  | inl (b, f, e) ↦ inl (b, f, rw (e, is_builtin) refl, λ env argv. rw (e, is_builtin) refl)
  | inr (u, e) ↦ inr (u, rw (e, is_builtin) refl)
]
