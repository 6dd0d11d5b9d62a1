-- ===== src/Stack/Bounded.antt =====
-- The stack beside a list of at most three numbers.
use linux_programming.Base.{
  ℕ, zero, suc, ◌%◌, ◌<◌, ◌≤◌, ◌≡◌, ◌≢◌, refl, ap, ◌∙◌, true, false, List, [], ◌∷◌, Option, none,
  some, ◌==◌, if◌then◌else◌, set, arith, length, Bool-cases, inl, inr,
}
use linux_programming.Stack.{
  Data, Event, pushed, popped, End, finished, blocked, stack_size, push, pop, buffer_at, child, run,
}

-- The numbers on the stack, the top first.
abbrev pub contents : ℕ → List ℕ → List ℕ
contents zero buffer = []
contents (suc i) buffer = buffer_at buffer i ∷ contents i buffer

-- The index is in the bounds of the buffer.
pub record IsData (d : Data) : Type 0 where
  pub in_bounds : d.index ≤ stack_size
  pub size : length d.buffer ≡ stack_size

-- What a child does to a list of numbers that holds at most three.
abbrev pub spec_child : List ℕ → ℕ → ℕ → Option (List ℕ × Event)
spec_child xs random num =
    if random == 0
    then (if length xs == stack_size then none else some (num ∷ xs, pushed num (length xs)))
    else (elim xs [ [] ↦ none | x ∷ rest ↦ some (rest, popped x (length rest)) ])

-- The program on such a list.
unfoldable pub spec_run : List ℕ → List (ℕ × ℕ) → List Event × End
spec_run xs [] = ([], finished)
spec_run xs ((r, n) ∷ rands) = elim (spec_child xs (r % 2) (n % 100)) [
  | none ↦ ([], blocked)
  | some (ys, event) ↦ let rest = spec_run ys rands in (event ∷ rest.0, rest.1)
]

pub length-contents : (i : ℕ) (b : List ℕ) → length (contents i b) ≡ i
length-contents zero b = refl
length-contents (suc i) b = ap suc (length-contents i b)

pub buffer_at-set : (b : List ℕ) (i n : ℕ) → i < length b → buffer_at (set b i n) i ≡ n
buffer_at-set [] i n h = absurd (omega arith)
buffer_at-set (x ∷ b) zero n h = refl
buffer_at-set (x ∷ b) (suc i) n h = buffer_at-set b i n (omega arith)

buffer_at-set_other : (b : List ℕ) (i j n : ℕ) → j < i → buffer_at (set b i n) j ≡ buffer_at b j
buffer_at-set_other [] i j n h = refl
buffer_at-set_other (x ∷ b) zero j n h = absurd (omega arith)
buffer_at-set_other (x ∷ b) (suc i) zero n h = refl
buffer_at-set_other (x ∷ b) (suc i) (suc j) n h = buffer_at-set_other b i j n (omega arith)

pub contents-set : (b : List ℕ) (i j n : ℕ) → j ≤ i → contents j (set b i n) ≡ contents j b
contents-set b i zero n h = refl
contents-set b i (suc j) n h =
    rw (buffer_at-set_other b i j n (omega arith), contents-set b i j n (omega arith)) refl

pub length-set : (b : List ℕ) (i n : ℕ) → length (set b i n) ≡ length b
length-set [] i n = refl
length-set (x ∷ b) zero n = refl
length-set (x ∷ b) (suc i) n = ap suc (length-set b i n)

abbrev stack_of : Data → List ℕ
stack_of d = contents d.index d.buffer

push-full :
    (i : ℕ) (b : List ℕ) (n : ℕ) → i ≡ stack_size → push (record { index = i; buffer = b }) n ≡ none
unfolding push
push-full i b n e = rw e refl

push-room :
    (i : ℕ) (b : List ℕ) (n : ℕ)
    → i ≢ stack_size
    → push (record { index = i; buffer = b }) n
      ≡ some (record { index = suc i; buffer = set b i n }, pushed n i)
unfolding push
push-room i b n e = ground arith

pop-empty : (b : List ℕ) → pop (record { index = 0; buffer = b }) ≡ none
unfolding pop
pop-empty b = refl

pop-room :
    (i : ℕ) (b : List ℕ)
    → pop (record { index = suc i; buffer = b })
      ≡ some (record { index = i; buffer = b }, popped (buffer_at b i) i)
unfolding pop
pop-room i b = ground arith

-- One round of the program.
run_round :
    (d d' : Data) (r n : ℕ) (rands : List (ℕ × ℕ)) (event : Event)
    → child d (r % 2) (n % 100) ≡ some (d', event)
    → run d ((r, n) ∷ rands) ≡ (event ∷ (run d' rands).0, (run d' rands).1)
unfolding run
run_round d d' r n rands event e = rw (run, e) refl

run_wait :
    (d : Data) (r n : ℕ) (rands : List (ℕ × ℕ))
    → child d (r % 2) (n % 100) ≡ none
    → run d ((r, n) ∷ rands) ≡ ([], blocked)
unfolding run
run_wait d r n rands e = rw (run, e) refl

child-push : (d : Data) (r n : ℕ) → (r == 0) ≡ true → child d r n ≡ push d n
unfolding child
child-push d r n e = rw (child, e) refl

child-pop : (d : Data) (r n : ℕ) → (r == 0) ≡ false → child d r n ≡ pop d
unfolding child
child-pop d r n e = rw (child, e) refl

run-pop :
    (r n : ℕ) (rands : List (ℕ × ℕ)) (i : ℕ) (b : List ℕ)
    → i ≤ stack_size
    → length b ≡ stack_size
    → (r % 2 == 0) ≡ false
    → ((j : ℕ) (c : List ℕ)
        → j ≤ stack_size
        → length c ≡ stack_size
        → run (record { index = j; buffer = c }) rands ≡ spec_run (contents j c) rands)
    → run (record { index = i; buffer = b }) ((r, n) ∷ rands)
      ≡ spec_run (contents i b) ((r, n) ∷ rands)
unfolding spec_run
run-pop r n rands zero b h l p rec =
    run_wait _ r n rands (child-pop _ (r % 2) (n % 100) p ∙ pop-empty b) ∙ rw (spec_run, p) refl
run-pop r n rands (suc i) b h l p rec =
    run_round _ _ r n rands _ (child-pop _ (r % 2) (n % 100) p ∙ pop-room i b)
    ∙ rw (spec_run, p, length-contents i b, rec i b (omega arith) l) refl

run-contents :
    (rands : List (ℕ × ℕ)) (i : ℕ) (b : List ℕ)
    → i ≤ stack_size
    → length b ≡ stack_size
    → run (record { index = i; buffer = b }) rands ≡ spec_run (contents i b) rands
unfolding run spec_run
run-contents [] i b h l = refl
run-contents ((r, n) ∷ rands) i b h l =
    let d : Data = record { index = i; buffer = b } in
    let m = n % 100 in
    elim (Bool-cases (r % 2 == 0)) [
      | inl p ↦ elim (Bool-cases (i == stack_size)) [
        | inl f ↦
            run_wait d r n rands (child-push d (r % 2) m p ∙ push-full i b m (ground arith))
            ∙ rw (spec_run, p, length-contents i b, f) refl
        | inr f ↦
            run_round d _ r n rands _ (child-push d (r % 2) m p ∙ push-room i b m (ground arith))
            ∙ rw
                (
                  spec_run,
                  p,
                  length-contents i b,
                  f,
                  run-contents rands (suc i) (set b i m) (ground arith) (length-set b i m ∙ l),
                  buffer_at-set b i m (ground arith),
                  contents-set b i i m (omega arith),
                )
                refl
      ]
      | inr p ↦ run-pop r n rands i b h l p (run-contents rands)
    ]

-- From any stack whose index is in the bounds of its buffer, the program does what it would do on
-- a list of at most three numbers: the same pushes and pops with the same numbers and indices,
-- last in, first out, and it blocks at the first push onto three numbers or pop of none.
pub run-IsData :
    (d : Data) (rands : List (ℕ × ℕ)) → IsData d → run d rands ≡ spec_run (stack_of d) rands
run-IsData d rands v = run-contents rands d.index d.buffer v.in_bounds v.size
