-- ===== src/Transfer/Order.antt =====
-- What the writer writes.
use linux_programming.Base.{
  ℕ, zero, suc, ◌+◌, ◌≤◌, ◌≡◌, ◌⊎◌, inl, inr, refl, sym, ap, ◌∙◌, Bool, true, false, [], ◌∷◌,
  Option, none, some, length, take, arith, take-append,
}
use linux_programming.Cstr.{Bytes}
use linux_programming.Transfer.{
  Reader, reading, counting, posting, done, Writer, waiting, writing, finished, buf_size, Shared,
  init, Step, read, read_fails, count, post, wait, write, write_fails, Reach, start, next,
}

-- What the reader has read.
abbrev pub got : Bytes → Bytes
got input = take buf_size input

-- The shared data as far as the reader has come.
abbrev IsStored : Bytes → Shared → Reader → Type 0
IsStored input s reading = Unit
IsStored input s (counting n) =
    (n ≡ length (got input)) × (take (length (got input)) s.buf ≡ got input)
IsStored input s posting =
    (s.cnt ≡ length (got input)) × (take (length (got input)) s.buf ≡ got input)
IsStored input s done = (s.cnt ≡ length (got input)) × (take (length (got input)) s.buf ≡ got input)

abbrev has_posted : Reader → Bool
has_posted done = true
has_posted _ = false

-- The semaphore is at 0, but between the reader's post and the writer's wait.
abbrev IsOrdered : ℕ → Bool → Writer → Type 0
IsOrdered sem true waiting = sem ≡ 1
IsOrdered sem false waiting = sem ≡ 0
IsOrdered sem posted writing = (posted ≡ true) × (sem ≡ 0)
IsOrdered sem posted finished = (posted ≡ true) × (sem ≡ 0)

abbrev IsSent : Bytes → Option Bytes → Writer → Type 0
IsSent input output waiting = output ≡ none
IsSent input output writing = output ≡ none
IsSent input output finished =
    (n : ℕ) × (n ≤ length (got input)) × (output ≡ some (take n (got input)))

record Inv (input : Bytes) (s : Shared) : Type 0 where
  pub stored : IsStored input s s.reader
  pub ordered : IsOrdered s.sem (has_posted s.reader) s.writer
  pub sent : IsSent input s.output s.writer

take-take : (n k : ℕ) (xs : Bytes) → n ≤ k → take n (take k xs) ≡ take n xs
take-take zero k xs h = refl
take-take (suc n) zero xs h = absurd (omega (arith, h))
take-take (suc n) (suc k) [] h = refl
take-take (suc n) (suc k) (x ∷ xs) h = ap (◌∷◌ x) (take-take n k xs (omega (arith, h)))

-- The reader's post lets a waiting writer go, and there is no other.
post-IsOrdered : (sem : ℕ) (w : Writer) → IsOrdered sem false w → IsOrdered (sem + 1) true w
post-IsOrdered sem waiting h = omega (arith, h)
post-IsOrdered sem writing h = cc
post-IsOrdered sem finished h = cc

wait-IsOrdered :
    (sem k : ℕ) (posted : Bool)
    → IsOrdered sem posted waiting
    → sem ≡ suc k
    → IsOrdered k posted writing
wait-IsOrdered sem k true h e = (refl, omega (arith, h, e))
wait-IsOrdered sem k false h e = absurd (omega (arith, h, e))

IsStored-done :
    (input : Bytes) (s : Shared) (r : Reader)
    → IsStored input s r
    → has_posted r ≡ true
    → IsStored input s done
IsStored-done input s reading h e = cc
IsStored-done input s (counting n) h e = cc
IsStored-done input s posting h e = cc
IsStored-done input s done h e = h

Inv-Step : (input : Bytes) (s t : Shared) → Inv input s → Step input s t → Inv input t
Inv-Step input s _ v (read r e) = record {
  stored = (refl, take-append (got input) _);
  ordered = rw e at v.ordered;
  sent = v.sent;
}
Inv-Step input s _ v (read_fails r e) = record {
  stored = v.stored;
  ordered = v.ordered;
  sent = v.sent;
}
Inv-Step input s _ v (count n r e) =
    let h : IsStored input s (counting n) = rw e at v.stored in
    record { stored = h; ordered = rw e at v.ordered; sent = v.sent }
Inv-Step input s _ v (post r e) =
    let h : IsStored input s posting = rw e at v.stored in
    record {
      stored = h;
      ordered = post-IsOrdered s.sem s.writer (rw e at v.ordered);
      sent = v.sent;
    }
Inv-Step input s _ v (wait k r e z) = record {
  stored = v.stored;
  ordered = wait-IsOrdered s.sem k (has_posted s.reader) (rw e at v.ordered) z;
  sent = rw e at v.sent;
}
Inv-Step input s _ v (write n r e l) =
    let o : IsOrdered s.sem (has_posted s.reader) writing = rw e at v.ordered in
    let h = IsStored-done input s s.reader v.stored o.0 in
    record {
      stored = v.stored;
      ordered = o;
      sent = (
        n,
        rw h.0 at l,
        ap some (sym (take-take n (length (got input)) s.buf (rw h.0 at l)) ∙ ap (take n) h.1),
      );
    }
Inv-Step input s _ v (write_fails r e) = record {
  stored = v.stored;
  ordered = v.ordered;
  sent = v.sent;
}

Reach-Inv : (input buf : Bytes) (s : Shared) → Reach input (init 0 buf) s → Inv input s
Reach-Inv input buf _ start = record { stored = tt; ordered = refl; sent = refl }
Reach-Inv input buf t (next {s} r st) = Inv-Step input s t (Reach-Inv input buf s r) st

-- Nothing is written yet, or a first part of what was read.
abbrev pub FirstPart : Bytes → Option Bytes → Type 0
FirstPart input output =
    (output ≡ none) ⊎ ((n : ℕ) × (n ≤ length (got input)) × (output ≡ some (take n (got input))))

sent_cases :
    (input : Bytes) (output : Option Bytes) (w : Writer)
    → IsSent input output w
    → FirstPart input output
sent_cases input output waiting h = inl h
sent_cases input output writing h = inl h
sent_cases input output finished h = inr h

has_posted-done : (r : Reader) → has_posted r ≡ true → r ≡ done
has_posted-done reading h = cc
has_posted-done (counting n) h = cc
has_posted-done posting h = cc
has_posted-done done h = refl

writer_cases :
    (sem : ℕ) (posted : Bool) (w : Writer)
    → IsOrdered sem posted w
    → (w ≡ waiting) ⊎ (posted ≡ true)
writer_cases sem posted waiting h = inl refl
writer_cases sem posted writing h = inr h.0
writer_cases sem posted finished h = inr h.0

at_most_one : (sem : ℕ) (posted : Bool) (w : Writer) → IsOrdered sem posted w → sem ≤ 1
at_most_one sem true waiting h = omega (arith, h)
at_most_one sem false waiting h = omega (arith, h)
at_most_one sem posted writing h = omega (arith, h.1)
at_most_one sem posted finished h = omega (arith, h.1)

-- The reader is at its end, with the count and the bytes of its read in the shared data.
pub record Handed (input : Bytes) (s : Shared) : Type 0 where
  pub reader_done : s.reader ≡ done
  pub counted : s.cnt ≡ length (got input)
  pub stored : take (length (got input)) s.buf ≡ got input
  pub written : FirstPart input s.output

-- With a new semaphore of value 0, in every order of the threads' steps: either the writer still
-- waits and has written nothing; or the reader is at its end, the shared count and array hold what
-- it has read, whatever they held before, and what the writer has written is nothing yet, or a
-- first part of those bytes. And the semaphore's value is never above 1.
pub Reach-sent :
    (input buf : Bytes) (s : Shared)
    → Reach input (init 0 buf) s
    → (((s.writer ≡ waiting) × (s.output ≡ none)) ⊎ Handed input s) × (s.sem ≤ 1)
Reach-sent input buf s r =
    let v = Reach-Inv input buf s r in
    (
      elim (writer_cases s.sem (has_posted s.reader) s.writer v.ordered) [
        | inl w ↦ let none_yet : IsSent input s.output waiting = rw w at v.sent in inl (w, none_yet)
        | inr p ↦
            let h = IsStored-done input s s.reader v.stored p in
            inr (record {
              reader_done = has_posted-done s.reader p;
              counted = h.0;
              stored = h.1;
              written = sent_cases input s.output s.writer v.sent;
            })
      ],
      at_most_one s.sem (has_posted s.reader) s.writer v.ordered,
    )
