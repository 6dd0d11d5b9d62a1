-- ===== src/Stack/Threads/Progress.antt =====
-- Where processes on the stack can stop.
use linux_programming.Base.{
  ℕ, zero, suc, ◌<◌, ◌≡◌, ◌≢◌, refl, sym, true, none, ◌==◌, arith, Bool-cases, Option-cases, ==→eq,
  ==→ne, inl, inr, ◌⊎◌,
}
use linux_programming.Stack.{stack_size}
use linux_programming.Stack.Threads.{
  Op, push, pop, Pc, arriving, testing, asleep, stored, dropped, printed, signalled, finished,
  System, Step, lock, wait_full, wait_empty, store, count, drop, take, signal, signal_none, unlock,
  Reach,
}
use linux_programming.Stack.Threads.Invariant.{critical}
use linux_programming.Stack.Threads.Refinement.{Reach-Locked}

-- Nothing to do: returned, or waiting for a signal.
abbrev pub Settled : Pc → Type 0
Settled arriving = ⊥
Settled testing = ⊥
Settled asleep = Unit
Settled (stored v) = ⊥
Settled dropped = ⊥
Settled printed = ⊥
Settled signalled = ⊥
Settled finished = Unit

Settled-or : (p : Pc) → Settled p ⊎ ((p ≡ arriving) ⊎ (critical p ≡ true))
Settled-or arriving = inr (inl refl)
Settled-or testing = inr (inr refl)
Settled-or asleep = inl tt
Settled-or (stored v) = inr (inr refl)
Settled-or dropped = inr (inr refl)
Settled-or printed = inr (inr refl)
Settled-or signalled = inr (inr refl)
Settled-or finished = inl tt

pub lt_of_ne : (i n : ℕ) → i < suc n → i ≢ n → i < n
lt_of_ne i n h m = omega arith

-- All of the first `n` are settled, or one is not.
all_or_one :
    (n : ℕ) (pc : ℕ → Pc)
    → ((i : ℕ) → i < n → Settled (pc i))
      ⊎ ((i : ℕ) × (i < n) × ((pc i ≡ arriving) ⊎ (critical (pc i) ≡ true)))
all_or_one zero pc = inl (λ i h. absurd (omega arith))
all_or_one (suc n) pc = elim (all_or_one n pc) [
  | inr (i, h, e) ↦ inr (i, omega arith, e)
  | inl all ↦ elim (Settled-or (pc n)) [
    | inr e ↦ inr (n, omega arith, e)
    | inl last ↦ inl (λ i h. elim (Bool-cases (i == n)) [
      | inl e ↦ let e' : n ≡ i = ground arith in rw e' at last
      | inr e ↦ all i (ground arith)
    ])
  ]
]

-- One of the first `n` waits for a signal, or none does.
unfoldable pub asleep_or :
    (n : ℕ) (pc : ℕ → Pc)
    → ((j : ℕ) × (j < n) × (pc j ≡ asleep)) ⊎ ((j : ℕ) → j < n → pc j ≢ asleep)
unfolding Bool-cases
asleep_or zero pc = inr (λ i h. elim h [ ])
asleep_or (suc n) pc = elim (asleep_or n pc) [
  | inl (j, h, e) ↦ inl (j, omega arith, e)
  | inr others ↦ elim (asleep_one (pc n)) [
    | inl e ↦ inl (n, omega arith, e)
    | inr e ↦ inr (λ i h. elim (Bool-cases (i == n)) [
      | inl k ↦ let k' : n ≡ i = sym (==→eq i n k) in rw k' at e
      | inr k ↦ others i (lt_of_ne i n h (==→ne i n k))
    ])
  ]
]
  where
    asleep_one : (p : Pc) → (p ≡ asleep) ⊎ (p ≢ asleep)
    asleep_one arriving = inr (λ e. cc)
    asleep_one testing = inr (λ e. cc)
    asleep_one asleep = inl refl
    asleep_one (stored v) = inr (λ e. cc)
    asleep_one dropped = inr (λ e. cc)
    asleep_one printed = inr (λ e. cc)
    asleep_one signalled = inr (λ e. cc)
    asleep_one finished = inr (λ e. cc)

abbrev pub Moves : (ℕ → Op) → ℕ → System → Type 0
Moves ops n s = (t : System) × Step ops n s t

-- The process with the mutex can go on.
unfoldable pub owner_moves :
    (ops : ℕ → Op) (n : ℕ) (s : System) (i : ℕ) (p : Pc)
    → i < n
    → s.pc i ≡ p
    → critical p ≡ true
    → (q : Op) → ops i ≡ q
    → Moves ops n s
unfolding asleep_or Bool-cases
owner_moves ops n s i arriving h e c q o = absurd cc
owner_moves ops n s i asleep h e c q o = absurd cc
owner_moves ops n s i finished h e c q o = absurd cc
owner_moves ops n s i testing h e c (push v) o = elim (Bool-cases (s.index == stack_size)) [
  | inl f ↦ (_, wait_full i v h e o (==→eq s.index stack_size f))
  | inr f ↦ (_, store i v h e o (==→ne s.index stack_size f))
]
owner_moves ops n s i testing h e c pop o = elim (Bool-cases (s.index == 0)) [
  | inl f ↦ (_, wait_empty i h e o (==→eq s.index 0 f))
  | inr f ↦ (_, drop i h e o (==→ne s.index 0 f))
]
owner_moves ops n s i dropped h e c q o = (_, take i h e)
owner_moves ops n s i printed h e c q o = elim (asleep_or n s.pc) [
  | inl (j, k, f) ↦ (_, signal i j h e k f)
  | inr f ↦ (_, signal_none i h e f)
]
owner_moves ops n s i signalled h e c q o = (_, unlock i h e)
owner_moves ops n s i (stored v) h e c q o = (_, count i v h e)

-- Processes on the stack never come to a stop over the mutex: in every state that they can reach,
-- either one of them can take a step, or each has returned from its call or waits for a signal,
-- and then the mutex is free.
pub Reach-moves :
    (ops : ℕ → Op) (n : ℕ) (s : System)
    → Reach ops n s
    → ((t : System) × Step ops n s t) ⊎ (((i : ℕ) → i < n → Settled (s.pc i)) × (s.owner ≡ none))
Reach-moves ops n s r =
    let l = Reach-Locked r in
    elim (Option-cases s.owner) [
      | inr (i, o) ↦
          let (c, h) = l.owned i o in inl (owner_moves ops n s i (s.pc i) h refl c (ops i) refl)
      | inl o ↦ elim (all_or_one n s.pc) [
        | inl all ↦ inr (all, o)
        | inr (i, h, e) ↦
            inl (elim e [ inl a ↦ (_, lock i h a o) | inr c ↦ absurd (cc (l.held i c, o)) ])
      ]
    ]
