-- ===== src/Stack/Threads/Refinement.antt =====
-- The shared data beside the list that replays what was printed, in every state that processes on
-- the stack can reach.
use linux_programming.Base.{
  ℕ, suc, ◌+◌, ◌-◌, ◌<◌, ◌≤◌, ◌≡◌, ◌≢◌, refl, ◌∙◌, true, false, [], ◌∷◌, ◌++◌, none, some, set,
  length, arith,
}
use linux_programming.Stack.{pushed, popped, stack_size, buffer_at}
use linux_programming.Stack.Bounded.{
  contents, length-contents, contents-set, buffer_at-set, length-set,
}
use linux_programming.Stack.Threads.{
  Op, Pc, arriving, testing, asleep, stored, dropped, printed, signalled, finished, System, update,
  Step, lock, wait_full, wait_empty, store, count, drop, take, signal, signal_none, unlock, init,
  Reach, start, next, spurious,
}
use linux_programming.Stack.Threads.Replay.{replay, replay-snoc, allowed-pushed, allowed-popped}
use linux_programming.Stack.Threads.Invariant.{
  critical, pending_of, Locked, Locked-init, Locked-Step, Locked-woken, Locked-alone, Consistent,
  Consistent-same, stored_by, owner_pending, pending_same, pending_other,
}

Consistent-init : Consistent init
unfolding replay
Consistent-init = record {
  size = refl;
  room = omega arith;
  filled = λ i v h. absurd cc;
  replayed = refl;
}

-- A process that has not the mutex moves to `q`, and the data stays.
Consistent-other :
    {n : ℕ} (s : System) (i : ℕ) (q : Pc)
    → Locked n s
    → Consistent s
    → critical (s.pc i) ≡ false
    → ((w : ℕ) → q ≢ stored w)
    → Consistent (record s { pc = update s.pc i q })
Consistent-other s i q l v c m =
    let k : pending_of s.owner (update s.pc i q) ≡ pending_of s.owner s.pc =
      pending_other s i q l c in
    record {
      size = v.size;
      room = rw k v.room;
      filled = λ j x h. v.filled j x (stays j x h);
      replayed = rw k v.replayed;
    }
  where
    stays : (j w : ℕ) → update s.pc i q j ≡ stored w → s.pc j ≡ stored w
    stays j w h = ground (arith, h, m w)

Consistent-lock :
    {n : ℕ} (s : System) (i : ℕ)
    → Locked n s
    → Consistent s
    → s.pc i ≡ arriving
    → s.owner ≡ none
    → Consistent (record s { owner = some i; pc = update s.pc i testing })
Consistent-lock s i l v e o =
    let k : pending_of s.owner s.pc ≡ 0 = rw o refl in
    let k' : pending_of (some i) (update s.pc i testing) ≡ 0 = pending_same s.pc i testing in
    record {
      size = v.size;
      room = rw k' (omega (arith, v.room));
      filled = λ j x h. v.filled j x (ground (arith, h));
      replayed = rw k' (rw k at v.replayed);
    }

Consistent-store :
    {n : ℕ} (s : System) (i v : ℕ)
    → Locked n s
    → Consistent s
    → s.pc i ≡ testing
    → s.index ≢ stack_size
    → Consistent (record s { buffer = set s.buffer s.index v; pc = update s.pc i (stored v) })
Consistent-store s i v l c e f =
    let k : pending_of s.owner s.pc ≡ 0 = owner_pending i testing l e refl in
    let k' : pending_of s.owner (update s.pc i (stored v)) ≡ 0 =
      rw (l.held i (rw e refl)) (pending_same s.pc i (stored v)) in
    let low : s.index < 3 = omega (arith, c.room, k, f) in
    let index : s.index + 0 ≡ s.index = omega arith in
    let old : replay [] s.log ≡ some (contents s.index s.buffer) = rw (k, index) at c.replayed in
    record {
      size = length-set s.buffer s.index v ∙ c.size;
      room = rw k' (omega arith);
      filled = λ j x h.
          let x' : v ≡ x = cc (stored_by s i (stored v) l (rw e refl) j x h).1 in
          (buffer_at-set s.buffer s.index v (omega (arith, c.size)) ∙ x', low);
      replayed = rw (k', index, contents-set s.buffer s.index s.index v (omega arith)) old;
    }

Consistent-count :
    {n : ℕ} (s : System) (i v : ℕ)
    → Locked n s
    → Consistent s
    → s.pc i ≡ stored v
    → Consistent (record s {
      index = s.index + 1;
      pc = update s.pc i printed;
      log = s.log ++ pushed v (s.index + 1 - 1) ∷ [];
    })
Consistent-count s i v l c e =
    let k : pending_of s.owner s.pc ≡ 0 = owner_pending i (stored v) l e refl in
    let k' : pending_of s.owner (update s.pc i printed) ≡ 0 =
      rw (l.held i (rw e refl)) (pending_same s.pc i printed) in
    let (put, low) = c.filled i v e in
    let index : s.index + 0 ≡ s.index = omega arith in
    let old : replay [] s.log ≡ some (contents s.index s.buffer) = rw (k, index) at c.replayed in
    let printed_index : s.index + 1 - 1 ≡ s.index = omega arith in
    let new_index : s.index + 1 + 0 ≡ suc s.index = omega arith in
    record {
      size = c.size;
      room = rw k' (omega arith);
      filled = λ j x h. absurd (cc (stored_by s i printed l (rw e refl) j x h).1);
      replayed =
          rw (k', new_index, printed_index, put)
            (replay-snoc [] (contents s.index s.buffer) (v ∷ contents s.index s.buffer) s.log
              (pushed v s.index) old
              (allowed-pushed (contents s.index s.buffer) v s.index
                (length-contents s.index s.buffer) low));
    }

Consistent-drop :
    {n : ℕ} (s : System) (i : ℕ)
    → Locked n s
    → Consistent s
    → s.pc i ≡ testing
    → s.index ≢ 0
    → Consistent (record s { index = s.index - 1; pc = update s.pc i dropped })
Consistent-drop s i l c e f =
    let k : pending_of s.owner s.pc ≡ 0 = owner_pending i testing l e refl in
    let k' : pending_of s.owner (update s.pc i dropped) ≡ 1 =
      rw (l.held i (rw e refl)) (pending_same s.pc i dropped) in
    let index : s.index - 1 + 1 ≡ s.index + 0 = omega arith in
    record {
      size = c.size;
      room = rw k' (omega (arith, c.room, k));
      filled = λ j x h. absurd (cc (stored_by s i dropped l (rw e refl) j x h).1);
      replayed = rw (k', index) (rw k at c.replayed);
    }

Consistent-take :
    {n : ℕ} (s : System) (i : ℕ)
    → Locked n s
    → Consistent s
    → s.pc i ≡ dropped
    → Consistent (record s {
      pc = update s.pc i printed;
      log = s.log ++ popped (buffer_at s.buffer s.index) s.index ∷ [];
    })
Consistent-take s i l c e =
    let k : pending_of s.owner s.pc ≡ 1 = owner_pending i dropped l e refl in
    let k' : pending_of s.owner (update s.pc i printed) ≡ 0 =
      rw (l.held i (rw e refl)) (pending_same s.pc i printed) in
    let index : s.index + 1 ≡ suc s.index = omega arith in
    let same : s.index + 0 ≡ s.index = omega arith in
    record {
      size = c.size;
      room = rw k' (omega (arith, c.room, k));
      filled = λ j x h. absurd (cc (stored_by s i printed l (rw e refl) j x h).1);
      replayed =
          rw (k', same)
            (replay-snoc [] (contents (suc s.index) s.buffer) (contents s.index s.buffer) s.log
              (popped (buffer_at s.buffer s.index) s.index) (rw (k, index) at c.replayed)
              (allowed-popped (contents s.index s.buffer) (buffer_at s.buffer s.index) s.index
                (length-contents s.index s.buffer)));
    }

Consistent-signal :
    {n : ℕ} (s : System) (i : ℕ)
    → Locked n s
    → Consistent s
    → s.pc i ≡ printed
    → Consistent (record s { pc = update s.pc i signalled })
Consistent-signal s i l c e =
    Consistent-same s _ i printed signalled l c e refl refl (λ w p. cc)
      (rw (l.held i (rw e refl)) (pending_same s.pc i signalled)) refl refl refl refl

Consistent-Step :
    {ops : ℕ → Op} {n : ℕ} {s t : System}
    → Step ops n s t
    → Locked n s
    → Consistent s
    → Consistent t
Consistent-Step {s = s} (lock i h e o) l c = Consistent-lock s i l c e o
Consistent-Step {s = s} (wait_full i v h e o f) l c =
    Consistent-same s _ i testing asleep l c e refl refl (λ w p. cc) refl refl refl refl refl
Consistent-Step {s = s} (wait_empty i h e o f) l c =
    Consistent-same s _ i testing asleep l c e refl refl (λ w p. cc) refl refl refl refl refl
Consistent-Step {s = s} (store i v h e o f) l c = Consistent-store s i v l c e f
Consistent-Step {s = s} (count i v h e) l c = Consistent-count s i v l c e
Consistent-Step {s = s} (drop i h e o f) l c = Consistent-drop s i l c e f
Consistent-Step {s = s} (take i h e) l c = Consistent-take s i l c e
Consistent-Step {s = s} (signal i j h e m f) l c =
    let woken : System = record s { pc = update s.pc j arriving } in
    let still : woken.pc i ≡ printed = ground (arith, e, f) in
    let l' : Locked _ woken = Locked-woken s j l f in
    Consistent-signal woken i l' (Consistent-other s j arriving l c (rw f refl) (λ w p. cc)) still
Consistent-Step {s = s} (signal_none i h e f) l c = Consistent-signal s i l c e
Consistent-Step {s = s} (unlock i h e) l c =
    Consistent-same s _ i signalled finished l c e refl refl (λ w p. cc) refl refl refl refl refl

Reach-Inv : {ops : ℕ → Op} {n : ℕ} {s : System} → Reach ops n s → Locked n s × Consistent s
Reach-Inv {ops} {n} start = (Locked-init n, Consistent-init)
Reach-Inv (next r st) = let (l, c) = Reach-Inv r in (Locked-Step st l, Consistent-Step st l c)
Reach-Inv (spurious {s = s} i r h e) =
    let (l, c) = Reach-Inv r in
    (Locked-woken s i l e, Consistent-other s i arriving l c (rw e refl) (λ w p. cc))

pub Reach-Locked : {ops : ℕ → Op} {n : ℕ} {s : System} → Reach ops n s → Locked n s
Reach-Locked r = (Reach-Inv r).0

-- Any number of processes push and pop at once, in any order, also where a wait ends without a
-- signal: two of them are never between their lock and their unlock, the index never leaves the
-- bounds of the buffer, and a number is only stored where the buffer has room.
pub Reach-excludes :
    (ops : ℕ → Op) (n : ℕ) (s : System)
    → Reach ops n s
    → ((i j : ℕ) → critical (s.pc i) ≡ true → critical (s.pc j) ≡ true → i ≡ j)
      × (s.index ≤ stack_size)
      × (length s.buffer ≡ stack_size)
      × ((i v : ℕ) → s.pc i ≡ stored v → s.index < length s.buffer)
Reach-excludes ops n s r =
    let (l, c) = Reach-Inv r in
    (
      Locked-alone l,
      omega (arith, c.room),
      c.size,
      (λ i v e. omega (arith, (c.filled i v e).1, c.size)),
    )

-- Whenever the mutex is free, what was printed so far is a run of a list of at most three numbers
-- from the empty one, each push and pop with its number and its index, last in, first out; the
-- numbers on the stack are those that the run leaves. So the calls take effect one after the other,
-- in the order in which they print.
pub Reach-replays :
    (ops : ℕ → Op) (n : ℕ) (s : System)
    → Reach ops n s
    → s.owner ≡ none
    → replay [] s.log ≡ some (contents s.index s.buffer)
Reach-replays ops n s r o =
    let (l, c) = Reach-Inv r in
    let k : pending_of s.owner s.pc ≡ 0 = rw o refl in
    let index : s.index + 0 ≡ s.index = omega arith in rw (k, index) at c.replayed
