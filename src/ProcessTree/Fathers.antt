-- ===== src/ProcessTree/Fathers.antt =====
-- The search for a ppid behind the end of the list.
use linux_programming.Base.{
  ℕ, zero, suc, ◌<◌, ◌≤◌, ◌≡◌, ◌⊎◌, inl, inr, refl, List, [], ◌∷◌, Option, none, some, length,
  arith, Bool-cases, Option-cases,
}
use mathlib.Core.Option.{some-injective}
use linux_programming.ProcessTree.{Node, has_pid, find_pid, ppid_at, father}

pub find_pid-none : (ns : List Node) → find_pid none ns ≡ none
unfolding find_pid
find_pid-none [] = refl
find_pid-none (n ∷ ns) = rw (find_pid-none ns) refl

ppid_at-beyond : (ns : List Node) (j : ℕ) → length ns ≤ j → ppid_at ns j ≡ none
ppid_at-beyond [] j h = refl
ppid_at-beyond (n ∷ ns) zero h = absurd (omega (arith, h))
ppid_at-beyond (n ∷ ns) (suc j) h = ppid_at-beyond ns j (omega (arith, h))

pub fatherless : (ns : List Node) (j : ℕ) → length ns ≤ j → father ns j ≡ none
fatherless ns j h = unfold father in rw (ppid_at-beyond ns j h) (find_pid-none ns)

find_pid-bound :
    (ppid : Option ℕ) (ns : List Node) (i : ℕ) → find_pid ppid ns ≡ some i → i < length ns
unfolding find_pid
find_pid-bound ppid [] i e = absurd cc
find_pid-bound ppid (n ∷ ns) i e = elim (Bool-cases (has_pid ppid n.pid)) [
  | inl h ↦ omega (arith, some-injective 0 i (rw h at e))
  | inr h ↦ elim (Option-cases (find_pid ppid ns)) [
    | inl q ↦ absurd cc (rw (h, q) at e)
    | inr (k, q) ↦
        omega (arith, some-injective (suc k) i (rw (h, q) at e), find_pid-bound ppid ns k q)
  ]
]

-- A parent is a node of the list.
pub father-listed : (ns : List Node) (j i : ℕ) → father ns j ≡ some i → i < length ns
unfolding father
father-listed ns j i e = find_pid-bound (ppid_at ns j) ns i e

pub lt_or_le : (i n : ℕ) → (i < n) ⊎ (n ≤ i)
lt_or_le i zero = inr (omega arith)
lt_or_le zero (suc n) = inl (omega arith)
lt_or_le (suc i) (suc n) = elim (lt_or_le i n) [
  | inl h ↦ inl (omega (arith, h))
  | inr h ↦ inr (omega (arith, h))
]
