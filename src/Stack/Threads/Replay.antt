-- ===== src/Stack/Threads/Replay.antt =====
-- A list of at most three numbers that replays what was printed.
use linux_programming.Base.{
  ℕ, ◌<◌, ◌≡◌, refl, sym, ◌&&◌, List, [], ◌∷◌, ◌++◌, Option, none, some, ◌==◌, ltb, if◌then◌else◌,
  length, arith, Option-cases, inl, inr,
}
use linux_programming.Stack.{Event, pushed, popped, stack_size}

-- One push or pop with its number and index, on the numbers with the top first; none where the
-- stack would not do it.
unfoldable pub allowed : List ℕ → Event → Option (List ℕ)
allowed xs (pushed v i) = if i == length xs && ltb i stack_size then some (v ∷ xs) else none
allowed [] (popped v i) = none
allowed (x ∷ xs) (popped v i) = if x == v && i == length xs then some xs else none

unfoldable pub replay : List ℕ → List Event → Option (List ℕ)
unfolding allowed
replay xs [] = some xs
replay xs (e ∷ es) = elim (allowed xs e) [ none ↦ none | some ys ↦ replay ys es ]

replay_one : (ys zs : List ℕ) (e : Event) → allowed ys e ≡ some zs → replay ys (e ∷ []) ≡ some zs
unfolding replay
replay_one ys zs e k = rw (replay, k) refl

pub replay-snoc :
    (xs ys zs : List ℕ) (es : List Event) (e : Event)
    → replay xs es ≡ some ys
    → allowed ys e ≡ some zs
    → replay xs (es ++ e ∷ []) ≡ some zs
unfolding replay
replay-snoc xs ys zs [] e h k = let p : xs ≡ ys = cc in rw p (replay_one ys zs e k)
replay-snoc xs ys zs (f ∷ es) e h k = elim (Option-cases (allowed xs f)) [
  | inl n ↦ let p : some ys ≡ none = sym (rw (replay, n) at h) in absurd cc
  | inr (ws, n) ↦ rw (replay, n) (replay-snoc ws ys zs es e (rw (replay, n) at h) k)
]

pub allowed-pushed :
    (xs : List ℕ) (v i : ℕ)
    → length xs ≡ i
    → i < stack_size
    → allowed xs (pushed v i) ≡ some (v ∷ xs)
unfolding allowed
allowed-pushed xs v i e h = rw e (ground arith)

pub allowed-popped :
    (xs : List ℕ) (x i : ℕ) → length xs ≡ i → allowed (x ∷ xs) (popped x i) ≡ some xs
unfolding allowed
allowed-popped xs x i e = rw e (ground arith)
