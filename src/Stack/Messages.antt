-- ===== src/Stack/Messages.antt =====
-- The array `string` of stack.c and what `sprintf` writes into it.
use linux_programming.Base.{
  ℕ, zero, suc, ◌+◌, ◌-◌, ◌/◌, ◌%◌, ◌<◌, ◌≤◌, ◌≡◌, refl, ◌∙◌, List, [], ◌∷◌, ◌++◌, Option, none,
  some, ◌==◌, ltb, lt→ltb, set, arith, length, length-append, All, Bool-cases, Option-cases, inl,
  inr,
}
use linux_programming.Cstr.{Bytes}
use linux_programming.Cstr.Numbers.{decimal, decimal_onto}
use linux_programming.Stack.{
  Data, Event, pushed, popped, stack_size, push, pop, buffer_at, child, run, message,
}
use linux_programming.Stack.Bounded.{IsData, length-set}

-- sizeof(string)
abbrev pub string_size : ℕ
string_size = 25

length-decimal_digit : (n : ℕ) → n < 10 → length (decimal n) ≡ 1
unfolding decimal
length-decimal_digit n h =
    let e : n + 1 ≡ suc n = omega arith in rw (decimal, e, decimal_onto, lt→ltb n 10 h) refl

onto_digit :
    (k n : ℕ) (rest : Bytes) → n < 10 → length (decimal_onto (suc k) n rest) ≡ suc (length rest)
unfolding decimal_onto
onto_digit k n rest h = rw (decimal_onto, lt→ltb n 10 h) refl

length-decimal : (n : ℕ) → n < 100 → length (decimal n) ≤ 2
unfolding decimal
length-decimal n h = elim (Bool-cases (ltb n 10)) [
  | inl e ↦ omega (arith, length-decimal_digit n (ground arith))
  | inr e ↦
      let k : n + 1 ≡ suc (suc (n - 1)) = ground arith in
      let m = onto_digit (n - 1) (n / 10) ((b'0' + n % 10) ∷ []) (omega arith) in
      let two : length (decimal_onto (n + 1) n []) ≡ 2 =
        unfold decimal_onto in rw (k, decimal_onto, e) m in
      omega (arith, two)
]

buffer_at-All : (b : List ℕ) (i : ℕ) → All (λ x. x < 100) b → buffer_at b i < 100
buffer_at-All [] i h = omega arith
buffer_at-All (x ∷ b) zero h = h.0
buffer_at-All (x ∷ b) (suc i) h = buffer_at-All b i h.1

All-set : (b : List ℕ) (i n : ℕ) → n < 100 → All (λ x. x < 100) b → All (λ x. x < 100) (set b i n)
All-set [] i n l h = h
All-set (x ∷ b) zero n l h = (l, h.1)
All-set (x ∷ b) (suc i) n l h = (h.0, All-set b i n l h.1)

-- The index is in bounds and the numbers are as `rand() % 100` gives them.
abbrev pub IsSmall : Data → Type 0
IsSmall d = IsData d × All (λ x. x < 100) d.buffer

abbrev Fits : Event → Type 0
Fits e = length (message e) < string_size

Fits-pushed : (n i : ℕ) → n < 100 → i < 10 → Fits (pushed n i)
unfolding message
Fits-pushed n i h l = omega (
  arith,
  length-decimal n h,
  length-decimal_digit i l,
  length-append (decimal n) (9 ∷ 105 ∷ 110 ∷ 100 ∷ 101 ∷ 120 ∷ 32 ∷ (decimal i ++ 10 ∷ [])),
  length-append (decimal i) (10 ∷ []),
)

Fits-popped : (n i : ℕ) → n < 100 → i < 10 → Fits (popped n i)
unfolding message
Fits-popped n i h l = omega (
  arith,
  length-decimal n h,
  length-decimal_digit i l,
  length-append (decimal n) (9 ∷ 105 ∷ 110 ∷ 100 ∷ 101 ∷ 120 ∷ 32 ∷ (decimal i ++ 10 ∷ [])),
  length-append (decimal i) (10 ∷ []),
)

-- What one step leaves.
abbrev Keeps : Option (Data × Event) → Type 0
Keeps none = Unit
Keeps (some (d, e)) = IsSmall d × Fits e

push-Keeps : (d : Data) (n : ℕ) → IsSmall d → n < 100 → Keeps (push d n)
unfolding push
push-Keeps d n v h =
    let b = v.0.in_bounds in
    let s = v.0.size in
    elim (Bool-cases (d.index == stack_size)) [
      | inl e ↦ rw (push, e) tt
      | inr e ↦
          let low : d.index < 3 = ground arith in
          rw (push, e)
            (
              (
                record { in_bounds = omega arith; size = length-set d.buffer d.index n ∙ s },
                All-set d.buffer d.index n h v.1,
              ),
              Fits-pushed n (d.index + 1 - 1) h (omega arith),
            )
    ]

pop-Keeps : (d : Data) → IsSmall d → Keeps (pop d)
unfolding pop
pop-Keeps d v =
    let b = v.0.in_bounds in
    elim (Bool-cases (d.index == 0)) [
      | inl e ↦ rw (pop, e) tt
      | inr e ↦
          rw (pop, e)
            (
              (record { in_bounds = omega arith; size = v.0.size }, v.1),
              Fits-popped (buffer_at d.buffer (d.index - 1)) (d.index - 1)
                  (buffer_at-All d.buffer (d.index - 1) v.1) (omega arith),
            )
    ]

child-Keeps : (d : Data) (r n : ℕ) → IsSmall d → n < 100 → Keeps (child d r n)
unfolding child
child-Keeps d r n v h = elim (Bool-cases (r == 0)) [
  | inl e ↦ rw (child, e) (push-Keeps d n v h)
  | inr e ↦ rw (child, e) (pop-Keeps d v)
]

-- Every message of the program fits the array that `sprintf` writes it into, from any stack in
-- bounds whose numbers are below 100, whatever `rand()` gives.
pub run-Fits :
    (rands : List (ℕ × ℕ)) (d : Data)
    → IsSmall d
    → All (λ e. length (message e) < string_size) (run d rands).0
unfolding run
run-Fits [] d v = tt
run-Fits ((r, n) ∷ rands) d v =
    let k = child-Keeps d (r % 2) (n % 100) v (omega arith) in
    elim (Option-cases (child d (r % 2) (n % 100))) [
      | inl e ↦ rw (run, e) tt
      | inr ((d', event), e) ↦
          let k' : Keeps (some (d', event)) = rw e at k in
          rw (run, e) (k'.1, run-Fits rands d' k'.0)
    ]
