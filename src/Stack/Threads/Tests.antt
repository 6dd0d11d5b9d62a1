-- ===== src/Stack/Threads/Tests.antt =====
-- Runs of processes on the stack, and each theorem at a concrete one.
use linux_programming.Base.{
  ℕ, ◌<◌, ◌≤◌, ◌≡◌, refl, true, List, [], ◌∷◌, ◌++◌, none, some, ◌==◌, ltb, if◌then◌else◌, length,
  Bool-cases, Option-cases, inl, inr, ◌⊎◌, ltb→lt,
}
use linux_programming.Stack.{stack_size}
use linux_programming.Stack.Bounded.{contents}
use linux_programming.Stack.Threads.{
  Op, push, pop, Pc, arriving, testing, asleep, stored, dropped, printed, signalled, finished,
  System, Step, lock, init, Reach, start, next,
}
use linux_programming.Stack.Threads.Replay.{replay}
use linux_programming.Stack.Threads.Invariant.{critical}
use linux_programming.Stack.Threads.Refinement.{Reach-excludes, Reach-replays}
use linux_programming.Stack.Threads.Progress.{Settled, owner_moves, asleep_or, Reach-moves}

record Run (ops : ℕ → Op) (n : ℕ) : Type 0 where
  last : System
  reach : Reach ops n last

-- Process `i`, which stands at `p`, takes a step if it can.
step_at :
    {ops : ℕ → Op} {n : ℕ} (s : System) (i : ℕ) (p : Pc)
    → Reach ops n s
    → i < n
    → s.pc i ≡ p
    → Run ops n
unfolding owner_moves asleep_or Option-cases Bool-cases
step_at s i arriving r h e = elim (Option-cases s.owner) [
  | inl o ↦ record { last = _; reach = next r (lock i h e o) }
  | inr o ↦ record { last = s; reach = r }
]
step_at s i asleep r h e = record { last = s; reach = r }
step_at s i finished r h e = record { last = s; reach = r }
step_at {ops} {n} s i testing r h e =
    let (t, st) = owner_moves ops n s i testing h e refl (ops i) refl in
    record { last = t; reach = next r st }
step_at {ops} {n} s i dropped r h e =
    let (t, st) = owner_moves ops n s i dropped h e refl (ops i) refl in
    record { last = t; reach = next r st }
step_at {ops} {n} s i printed r h e =
    let (t, st) = owner_moves ops n s i printed h e refl (ops i) refl in
    record { last = t; reach = next r st }
step_at {ops} {n} s i signalled r h e =
    let (t, st) = owner_moves ops n s i signalled h e refl (ops i) refl in
    record { last = t; reach = next r st }
step_at {ops} {n} s i (stored v) r h e =
    let (t, st) = owner_moves ops n s i (stored v) h e refl (ops i) refl in
    record { last = t; reach = next r st }

-- The processes named take a step each, in this order.
run : (ops : ℕ → Op) (n : ℕ) → Run ops n → List ℕ → Run ops n
unfolding step_at Bool-cases
run ops n r [] = r
run ops n r (i ∷ is) = elim (Bool-cases (ltb i n)) [
  | inl h ↦ run ops n (step_at r.last i (r.last.pc i) r.reach (ltb→lt i n h) refl) is
  | inr h ↦ r
]

abbrev begin : (ops : ℕ → Op) (n : ℕ) → Run ops n
begin ops n = record { last = init; reach = start }

-- One push, and a pop that waits for it.
abbrev two : ℕ → Op
two i = if i == 0 then push 42 else pop

abbrev meeting : Run two 2
meeting = run two 2 (begin two 2) (1 ∷ 1 ∷ 0 ∷ 0 ∷ 0 ∷ 0 ∷ 0 ∷ 1 ∷ 1 ∷ 1 ∷ 1 ∷ 1 ∷ [])

meeting_end : (meeting.last.index ≡ 0) × (meeting.last.owner ≡ none) × (length meeting.last.log ≡ 2)
unfolding run
meeting_end = (refl, refl, refl)

Reach-excludes_example :
    ((i j : ℕ) → critical (meeting.last.pc i) ≡ true → critical (meeting.last.pc j) ≡ true → i ≡ j)
    × (meeting.last.index ≤ stack_size)
    × (length meeting.last.buffer ≡ stack_size)
    × ((i v : ℕ) → meeting.last.pc i ≡ stored v → meeting.last.index < length meeting.last.buffer)
Reach-excludes_example = Reach-excludes two 2 meeting.last meeting.reach

Reach-replays_example :
    replay [] meeting.last.log ≡ some (contents meeting.last.index meeting.last.buffer)
Reach-replays_example = Reach-replays two 2 meeting.last meeting.reach (meeting_end.1)

Reach-moves_example :
    ((t : System) × Step two 2 meeting.last t)
    ⊎ (((i : ℕ) → i < 2 → Settled (meeting.last.pc i)) × (meeting.last.owner ≡ none))
Reach-moves_example = Reach-moves two 2 meeting.last meeting.reach

-- Seven pushes, by the processes 0 to 6, and four pops, by 7 to 10.
abbrev eleven : ℕ → Op
eleven i = if ltb i 7 then push i else pop

-- Five steps of a process, for a call that does not wait, and two for one that does.
abbrev calls : ℕ → List ℕ
calls i = i ∷ i ∷ i ∷ i ∷ i ∷ []

abbrev waits : ℕ → List ℕ
waits i = i ∷ i ∷ []

-- The pops find the stack empty; three of them are woken, but further pushes come first and fill
-- the stack. From then on each signal of a pop goes to a push, and that of the push to another
-- push, which finds the stack full.
abbrev schedule : List ℕ
schedule =
    waits 7
    ++ (waits 8
        ++ (waits 9
            ++ (waits 10
                ++ (calls 0
                    ++ (calls 1
                        ++ (calls 2
                            ++ (waits 3
                                ++ (waits 4
                                    ++ (waits 5
                                        ++ (waits 6
                                            ++ (calls 7
                                                ++ (calls 3
                                                    ++ (waits 4
                                                        ++ (calls 8
                                                            ++ (calls 4
                                                            ++ (waits 5
                                                            ++ (calls 9
                                                            ++ (calls 5 ++ waits 6))))))))))))))))))

abbrev stuck : Run eleven 11
stuck = run eleven 11 (begin eleven 11) schedule

-- A signal can be lost: with three numbers on the stack a pop sleeps, and every other call has
-- returned, but for a push, which sleeps too.
lost_signal :
    (stuck.last.index ≡ 3)
    × (stuck.last.owner ≡ none)
    × (stuck.last.pc 10 ≡ asleep)
    × (stuck.last.pc 6 ≡ asleep)
    × (stuck.last.pc 9 ≡ finished)
    × (stuck.last.pc 5 ≡ finished)
unfolding run
lost_signal = (refl, refl, refl, refl, refl, refl)
