-- ===== src/Shell/Builtin/Echo.antt =====
-- What `echo` prints, and where its behaviour is undefined.
use linux_programming.Base.{
  ℕ, ◌+◌, ◌≡◌, ◌≢◌, refl, ap, true, false, List, [], ◌∷◌, ◌++◌, map, none, some, concat, get_elem?,
}
use mathlib.Core.List.{append_assoc}
use linux_programming.Cstr.{Bytes, codes, is_digit}
use linux_programming.Cstr.Compare.{streq_ne, streq_refl}
use linux_programming.Cstr.Numbers.{read_digits}
use linux_programming.Shell.Builtin.{prints, undefined, echo_words, echo_nth, do_echo}

-- Each word and a space behind it, and a newline.
abbrev pub spaced_out : List Bytes → Bytes
spaced_out ws = concat (map (λ w. w ++ codes " ") ws) ++ codes "\n"

echo_words-spaced_out : (ws : List Bytes) → echo_words ws ≡ spaced_out ws
unfolding echo_words
echo_words-spaced_out [] = refl
echo_words-spaced_out (w ∷ ws) = rw (echo_words-spaced_out ws) (simp append_assoc)

-- `echo` with a first argument other than "-n" prints every argument and a space behind it, and a
-- newline. With "-n" and a word that starts with no digit it prints just the same, the "-n"
-- included and with the newline at the end.
pub do_echo-spaced_out :
    (name first : Bytes) (rest : List Bytes)
    → (first ≢ codes "-n" → do_echo (name ∷ first ∷ rest) ≡ prints (spaced_out (first ∷ rest)))
      × ((c : ℕ) (s : Bytes) (ws : List Bytes)
          → is_digit c ≡ false
          → do_echo (name ∷ codes "-n" ∷ (c ∷ s) ∷ ws)
            ≡ prints (spaced_out (codes "-n" ∷ (c ∷ s) ∷ ws)))
unfolding do_echo
do_echo-spaced_out name first rest = (
  λ n. rw (streq_ne first (codes "-n") n) (ap prints (echo_words-spaced_out (first ∷ rest))),
  λ c s ws d.
      rw (streq_refl (codes "-n"), d)
        (ap prints (echo_words-spaced_out (codes "-n" ∷ (c ∷ s) ∷ ws))),
)

-- `echo` reads a NULL pointer or a cell outside `argv` exactly so: with no argument, with "-n" as
-- the only one, and with "-n" and a number that is not the index, from 2 on, of an argument. Else
-- with "-n" and a number it prints the argument at the number plus 2, and a newline.
pub do_echo_number :
    (name : Bytes) (ws : List Bytes) (c : ℕ) (s : Bytes)
    → is_digit c ≡ true
    → (do_echo (name ∷ []) ≡ undefined)
      × (do_echo (name ∷ codes "-n" ∷ []) ≡ undefined)
      × (let argv = name ∷ codes "-n" ∷ (c ∷ s) ∷ ws in
          let n = read_digits 0 (c ∷ s) in
          (get_elem? argv (n + 2) ≡ none → do_echo argv ≡ undefined)
          × ((w : Bytes)
              → get_elem? argv (n + 2) ≡ some w
              → do_echo argv ≡ prints (w ++ codes "\n")))
unfolding do_echo
do_echo_number name ws c s d = (
  refl,
  rw (streq_refl (codes "-n")) refl,
  (
    λ e. rw (streq_refl (codes "-n"), d) (rw (e, echo_nth) refl),
    λ w e. rw (streq_refl (codes "-n"), d) (rw (e, echo_nth) refl),
  ),
)
