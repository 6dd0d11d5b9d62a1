-- ===== src/Dict/Linear/Calls.antt =====
-- Several calls of the `lookup` of lookup1.c, which keeps its stream between them.
use linux_programming.Base.{
  ◌≡◌, ◌≢◌, refl, ap, true, false, List, [], ◌∷◌, Option, none, some, All, Option-cases, ◌⊎◌, inl,
  inr,
}
use linux_programming.Cstr.{Bytes, strcpy}
use linux_programming.Dict.Record.{
  Dictrec, IsRecord, Answer, found, notfound, Call, returns, dies, faults, word_str, text_str,
  answer_found,
}
use linux_programming.Dict.Record.Files.{file_of, find_record}
use linux_programming.Dict.Linear.{Static, start, opened, lookup}
use linux_programming.Dict.Linear.Search.{found_in, search_stream-file_of}

-- The calls one after the other in one process, until one does not return.
unfoldable pub calls : Option Bytes → Static → List Dictrec → List (Call (Answer × Dictrec))
unfolding lookup
calls resource s [] = []
calls resource s (d ∷ ds) = elim (lookup resource s d) [
  | dies ↦ dies ∷ []
  | faults ↦ faults ∷ []
  | returns (s', a, d') ↦ let rest = calls resource s' ds in returns (a, d') ∷ rest
]

-- What the calls should be: each the first on its own.
unfoldable pub fresh_calls : Option Bytes → List Dictrec → List (Call (Answer × Dictrec))
unfolding lookup
fresh_calls resource [] = []
fresh_calls resource (d ∷ ds) = elim (lookup resource start d) [
  | dies ↦ dies ∷ []
  | faults ↦ faults ∷ []
  | returns (s', a, d') ↦ let rest = fresh_calls resource ds in returns (a, d') ∷ rest
]

abbrev Present : List Dictrec → Dictrec → Type 0
Present rs d = find_record (word_str d) rs ≢ none

-- The stream that a call searches is open on this file.
abbrev pub Ready : Bytes → Static → Type 0
Ready file s = (s.first_time ≡ true) ⊎ ((s.first_time ≡ false) × (s.stream ≡ opened file))

pub lookup-Ready :
    (rs : List Dictrec) (s : Static) (d : Dictrec)
    → All IsRecord rs
    → Ready (file_of rs) s
    → lookup (some (file_of rs)) s d ≡ found_in (file_of rs) (find_record (word_str d) rs) d
unfolding lookup
lookup-Ready rs s d h (inl e) = rw (lookup, e) (search_stream-file_of rs d h)
lookup-Ready rs s d h (inr (e, o)) = rw (lookup, e, o) (search_stream-file_of rs d h)

calls-Ready :
    (rs : List Dictrec) (s : Static) (ds : List Dictrec)
    → All IsRecord rs
    → Ready (file_of rs) s
    → All (Present rs) ds
    → calls (some (file_of rs)) s ds ≡ fresh_calls (some (file_of rs)) ds
unfolding calls fresh_calls
calls-Ready rs s [] h ready p = refl
calls-Ready rs s (d ∷ ds) h ready p =
    rw (calls, fresh_calls, lookup-Ready rs s d h ready, lookup-Ready rs start d h (inl refl))
      (elim (Option-cases (find_record (word_str d) rs)) [
        | inl e ↦ absurd (p.0 e)
        | inr (r, e) ↦ rw e (elim (Option-cases (strcpy d.text (text_str r))) [
          | inl f ↦ unfold answer_found in rw f refl
          | inr (array, f) ↦
              unfold answer_found in
              rw f (
                ap (λ t. returns (found, record { word = d.word; text = array }) ∷ t)
                  (calls-Ready rs (record { first_time = false; stream = opened (file_of rs) }) ds h
                    (inr (refl, refl)) p.1))
        ])
      ])

-- Calls for words that are in the file of records, in one process, answer as each would as the
-- first call of a process.
pub calls-Present :
    (rs : List Dictrec) (ds : List Dictrec)
    → All IsRecord rs
    → All (Present rs) ds
    → calls (some (file_of rs)) start ds ≡ fresh_calls (some (file_of rs)) ds
calls-Present rs ds h p = calls-Ready rs start ds h (inl refl) p

-- A call for a word that is not in the file of records answers NOTFOUND and closes the stream; the
-- next call, for any word, searches the closed stream, which is undefined, where a first call
-- would have searched the file.
pub calls-absent :
    (rs : List Dictrec) (d e : Dictrec) (ds : List Dictrec)
    → All IsRecord rs
    → find_record (word_str d) rs ≡ none
    → calls (some (file_of rs)) start (d ∷ e ∷ ds) ≡ returns (notfound, d) ∷ faults ∷ []
unfolding calls
calls-absent rs d e ds h absent =
    rw (calls, lookup-Ready rs start d h (inl refl)) (rw absent (unfold lookup in refl))
