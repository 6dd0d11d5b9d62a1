-- ===== src/Batch/Rounds.antt =====
-- One round of the producer's loop.
use linux_programming.Base.{
  ℕ, suc, ◌≤◌, ◌≡◌, refl, ap, ◌∙◌, true, false, List, [], ◌∷◌, ◌++◌, map, ◌==◌, if◌then◌else◌,
  arith, length, take, replicate, concat, Bool-cases, inl, inr,
}
use linux_programming.Cstr.{Bytes}
use linux_programming.Batch.{Shared, sig_handler_data, fill, deliver}

-- How often a consumer is in a list.
abbrev pub occurrences : ℕ → List ℕ → ℕ
occurrences c [] = 0
occurrences c (x ∷ xs) = if x == c then suc (occurrences c xs) else occurrences c xs

-- The messages that a consumer prints.
unfoldable pub printed_by : ℕ → List (ℕ × Bytes) → List Bytes
printed_by c [] = []
printed_by c ((x, m) ∷ log) = if x == c then m ∷ printed_by c log else printed_by c log

pub printed_by-append :
    (c : ℕ) (log rest : List (ℕ × Bytes))
    → printed_by c (log ++ rest) ≡ printed_by c log ++ printed_by c rest
unfolding printed_by
printed_by-append c [] rest = refl
printed_by-append c ((x, m) ∷ log) rest = elim (Bool-cases (x == c)) [
  | inl e ↦ rw e (ap (λ t. m ∷ t) (printed_by-append c log rest))
  | inr e ↦ rw e (printed_by-append c log rest)
]

printed_by-own :
    (c x : ℕ) (ms : List Bytes) → (x == c) ≡ true → printed_by c (map (λ m. (x, m)) ms) ≡ ms
unfolding printed_by
printed_by-own c x [] e = refl
printed_by-own c x (m ∷ ms) e = rw e (ap (λ t. m ∷ t) (printed_by-own c x ms e))

printed_by-other :
    (c x : ℕ) (ms : List Bytes) → (x == c) ≡ false → printed_by c (map (λ m. (x, m)) ms) ≡ []
unfolding printed_by
printed_by-other c x [] e = refl
printed_by-other c x (m ∷ ms) e = rw e (printed_by-other c x ms e)

-- The consumers of a list print the batch, each as often as it is in the list.
pub deliver-printed :
    (c : ℕ) (cs : List ℕ) (s : Shared)
    → printed_by c (deliver cs s)
      ≡ concat (replicate (occurrences c cs) (take s.num_batch s.messages))
unfolding deliver sig_handler_data printed_by
deliver-printed c [] s = refl
deliver-printed c (x ∷ cs) s =
    printed_by-append c (map (λ m. (x, m)) (take s.num_batch s.messages)) (deliver cs s)
    ∙ elim (Bool-cases (x == c)) [
      | inl e ↦
          rw (printed_by-own c x (take s.num_batch s.messages) e, deliver-printed c cs s, e) refl
      | inr e ↦
          rw (printed_by-other c x (take s.num_batch s.messages) e, deliver-printed c cs s, e) refl
    ]

pub take-fill :
    (addr ms : List Bytes) → length ms ≤ length addr → take (length ms) (fill addr ms) ≡ ms
unfolding fill
take-fill addr [] h = refl
take-fill [] (m ∷ ms) h = absurd (omega arith)
take-fill (a ∷ addr) (m ∷ ms) h = ap (λ t. m ∷ t) (take-fill addr ms (omega arith))

pub length-fill : (addr ms : List Bytes) → length (fill addr ms) ≡ length addr
unfolding fill
length-fill addr [] = refl
length-fill [] (m ∷ ms) = refl
length-fill (a ∷ addr) (m ∷ ms) = ap suc (length-fill addr ms)
