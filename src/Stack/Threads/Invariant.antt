-- ===== src/Stack/Threads/Invariant.antt =====
-- What holds in every state that processes on the stack can reach.
use linux_programming.Base.{
  ℕ, ◌+◌, ◌<◌, ◌≤◌, ◌≡◌, ◌≢◌, refl, sym, ap, ◌∙◌, Bool, true, false, [], Option, none, some, ◌==◌,
  length, arith, Bool-cases, Option-cases, inl, inr,
}
use linux_programming.Stack.{stack_size, buffer_at}
use linux_programming.Stack.Bounded.{contents}
use linux_programming.Stack.Threads.{
  Op, Pc, arriving, testing, asleep, stored, dropped, printed, signalled, finished, System, update,
  Step, lock, wait_full, wait_empty, store, count, drop, take, signal, signal_none, unlock, init,
}
use linux_programming.Stack.Threads.Replay.{replay}

-- Between the lock and the unlock.
abbrev pub critical : Pc → Bool
critical arriving = false
critical testing = true
critical asleep = false
critical (stored v) = true
critical dropped = true
critical printed = true
critical signalled = true
critical finished = false

-- A number that is off the index and not yet printed.
abbrev pub pending : Pc → ℕ
pending dropped = 1
pending arriving = 0
pending testing = 0
pending asleep = 0
pending (stored v) = 0
pending printed = 0
pending signalled = 0
pending finished = 0

abbrev pub pending_of : Option ℕ → (ℕ → Pc) → ℕ
pending_of none pc = 0
pending_of (some i) pc = pending (pc i)

-- Who holds the mutex.
pub record Locked (n : ℕ) (s : System) : Type 0 where
  pub held : (i : ℕ) → critical (s.pc i) ≡ true → s.owner ≡ some i
  pub owned : (i : ℕ) → s.owner ≡ some i → (critical (s.pc i) ≡ true) × (i < n)

-- What is in the shared data.
pub record Consistent (s : System) : Type 0 where
  pub size : length s.buffer ≡ stack_size
  pub room : s.index + pending_of s.owner s.pc ≤ stack_size
  pub filled :
      (i v : ℕ) → s.pc i ≡ stored v → (buffer_at s.buffer s.index ≡ v) × (s.index < stack_size)
  pub replayed : replay [] s.log ≡ some (contents (s.index + pending_of s.owner s.pc) s.buffer)

pub Locked-init : (n : ℕ) → Locked n init
Locked-init n = record { held = λ i h. absurd cc; owned = λ i h. absurd cc }

-- The owner moves on, inside.
Locked-inside :
    {n : ℕ} (s t : System) (i : ℕ) (p : Pc)
    → Locked n s
    → critical (s.pc i) ≡ true
    → critical p ≡ true
    → t.owner ≡ s.owner
    → t.pc ≡ update s.pc i p
    → Locked n t
Locked-inside s t i p v c d e f = record {
  held = λ j h. rw e (ground (arith, v.held j, v.held i, ap (λ g. g j) f));
  owned = λ j h. let o = v.owned j (sym e ∙ h) in (ground (arith, ap (λ g. g j) f), o.1);
}

-- The owner lets go.
Locked-outside :
    {n : ℕ} (s t : System) (i : ℕ) (p : Pc)
    → Locked n s
    → critical (s.pc i) ≡ true
    → critical p ≡ false
    → t.owner ≡ none
    → t.pc ≡ update s.pc i p
    → Locked n t
Locked-outside s t i p v c d e f = record {
  held = λ j h. absurd (ground (arith, v.held j, v.held i, ap (λ g. g j) f));
  owned = λ j h. absurd (cc (e, h));
}

-- A process wakes up, and has the mutex to wait for.
pub Locked-woken :
    {n : ℕ} (s : System) (i : ℕ)
    → Locked n s
    → s.pc i ≡ asleep
    → Locked n (record s { pc = update s.pc i arriving })
Locked-woken s i v e = record {
  held = λ j h. ground (arith, v.held j);
  owned = λ j h. let o = v.owned j h in (ground (arith, o.0), o.1);
}

pub Locked-Step : {ops : ℕ → Op} {n : ℕ} {s t : System} → Step ops n s t → Locked n s → Locked n t
Locked-Step {s = s} (lock i l e o) v = record {
  held = λ j h. ground (arith, v.held j);
  owned = λ j h. let p : i ≡ j = cc in (ground arith, omega arith);
}
Locked-Step {s = s} (wait_full i w l e o f) v =
    Locked-outside s _ i asleep v (rw e refl) refl refl refl
Locked-Step {s = s} (wait_empty i l e o f) v =
    Locked-outside s _ i asleep v (rw e refl) refl refl refl
Locked-Step {s = s} (store i w l e o f) v =
    Locked-inside s _ i (stored w) v (rw e refl) refl refl refl
Locked-Step {s = s} (count i w l e) v = Locked-inside s _ i printed v (rw e refl) refl refl refl
Locked-Step {s = s} (drop i l e o f) v = Locked-inside s _ i dropped v (rw e refl) refl refl refl
Locked-Step {s = s} (take i l e) v = Locked-inside s _ i printed v (rw e refl) refl refl refl
Locked-Step {s = s} (signal i j l e m f) v =
    Locked-inside (record s { pc = update s.pc j arriving }) _ i signalled (Locked-woken s j v f)
      (ground (arith, e, f)) refl refl refl
Locked-Step {s = s} (signal_none i l e f) v =
    Locked-inside s _ i signalled v (rw e refl) refl refl refl
Locked-Step {s = s} (unlock i l e) v = Locked-outside s _ i finished v (rw e refl) refl refl refl

-- No two processes are between the lock and the unlock.
pub Locked-alone :
    {n : ℕ} {s : System}
    → Locked n s
    → (i j : ℕ) → critical (s.pc i) ≡ true
    → critical (s.pc j) ≡ true
    → i ≡ j
Locked-alone v i j h k = cc (v.held i h, v.held j k)

-- After a move of the owner no other process has stored a number.
pub stored_by :
    {n : ℕ} (s : System) (i : ℕ) (p : Pc)
    → Locked n s
    → critical (s.pc i) ≡ true
    → (j w : ℕ) → update s.pc i p j ≡ stored w
    → (i ≡ j) × (p ≡ stored w)
stored_by s i p v c j w h = elim (Bool-cases (i == j)) [
  | inl e ↦ (ground arith, rw e at h)
  | inr e ↦
      let h' : s.pc j ≡ stored w = rw e at h in
      let k : i ≡ j = Locked-alone v i j c (rw h' refl) in absurd (ground arith)
]

pub pending_same : (pc : ℕ → Pc) (i : ℕ) (p : Pc) → pending_of (some i) (update pc i p) ≡ pending p
pending_same pc i p = ground arith

-- What the owner of the mutex knows of the count.
pub owner_pending :
    {n : ℕ} {s : System} (i : ℕ) (p : Pc)
    → Locked n s
    → s.pc i ≡ p
    → critical p ≡ true
    → pending_of s.owner s.pc ≡ pending p
owner_pending i p v e c = rw (v.held i (rw e c)) (rw e refl)

-- The owner moves from `p` to `q` and leaves the data as it is; it may let go of the mutex.
pub Consistent-same :
    {n : ℕ} (s t : System) (i : ℕ) (p q : Pc)
    → Locked n s
    → Consistent s
    → s.pc i ≡ p
    → critical p ≡ true
    → pending p ≡ 0
    → ((w : ℕ) → q ≢ stored w)
    → pending_of t.owner t.pc ≡ 0
    → t.index ≡ s.index
    → t.buffer ≡ s.buffer
    → t.log ≡ s.log
    → t.pc ≡ update s.pc i q
    → Consistent t
Consistent-same s t i p q l v e c z m w a b d f =
    let k : pending_of s.owner s.pc ≡ 0 = owner_pending i p l e c ∙ z in
    record {
      size = rw b v.size;
      room = rw (w, a) (omega (arith, v.room, k));
      filled = λ j x h. absurd (m x (stored_by s i q l (rw e c) j x (ap (λ g. g j) (sym f) ∙ h)).1);
      replayed = rw (w, a, b, d) (rw k at v.replayed);
    }

-- A process without the mutex moves, and what the owner has pending stays.
pub pending_other :
    {n : ℕ} (s : System) (i : ℕ) (q : Pc)
    → Locked n s
    → critical (s.pc i) ≡ false
    → pending_of s.owner (update s.pc i q) ≡ pending_of s.owner s.pc
pending_other s i q l c = elim (Option-cases s.owner) [
  | inl o ↦ rw o refl
  | inr (j, o) ↦
      let k = (l.owned j o).0 in
      rw o (elim (Bool-cases (i == j)) [
        | inl e ↦
            let e' : i ≡ j = ground arith in absurd (cc (ap (λ x. critical (s.pc x)) e', k, c))
        | inr e ↦ rw e refl
      ])
]
