-- ===== src/Batch/Delivery.antt =====
-- The producer's loop from its first batch to its last.
use linux_programming.Base.{
  ℕ, zero, suc, ◌+◌, ◌-◌, ◌<◌, ◌≤◌, ◌≡◌, refl, sym, ap, ◌∙◌, List, [], ◌∷◌, ◌++◌, map, none, some,
  ltb, lt→ltb, le→ltb, ltb→lt, arith, length, length-take, length-drop, length-replicate, take,
  drop, Bool-cases, inl, inr, take-append-drop,
}
use mathlib.Core.List.{append-nil}
use linux_programming.Cstr.{Bytes}
use linux_programming.Batch.{
  Datum, Shared, batch_size, fill, deliver, put_batch, send_loop, new_shared, produce, generator,
  generate,
}
use linux_programming.Batch.Rounds.{
  occurrences, printed_by, printed_by-append, deliver-printed, take-fill, length-fill,
}

take-fill_exact :
    (n : ℕ) (addr ms : List Bytes)
    → length ms ≡ n
    → length ms ≤ length addr
    → take n (fill addr ms) ≡ ms
take-fill_exact n addr ms e h = rw (← e) (take-fill addr ms h)

-- The messages in order.
abbrev pub messages_of : List Datum → List Bytes
messages_of = map (λ d. d.message)

length-messages_of : (items : List Datum) → length (messages_of items) ≡ length items
length-messages_of [] = refl
length-messages_of (d ∷ items) = ap suc (length-messages_of items)

drop_nil : (k : ℕ) → drop {A = Bytes} k [] ≡ []
drop_nil zero = refl
drop_nil (suc k) = refl

drop-drop : (n k : ℕ) (xs : List Bytes) → drop k (drop n xs) ≡ drop (n + k) xs
drop-drop zero k xs = let e : 0 + k ≡ k = omega arith in rw e refl
drop-drop (suc n) k [] = drop_nil k ∙ sym (drop_nil (suc n + k))
drop-drop (suc n) k (x ∷ xs) =
    let e : suc n + k ≡ suc (n + k) = omega arith in rw e (drop-drop n k xs)

drop_past : (n : ℕ) (xs : List Bytes) → length xs ≤ n → drop n xs ≡ []
drop_past zero [] h = refl
drop_past zero (x ∷ xs) h = absurd (omega arith)
drop_past (suc n) [] h = refl
drop_past (suc n) (x ∷ xs) h = drop_past n xs (omega arith)

module _ (items : List Datum) (b : ℕ) (ran : ℕ → List ℕ) where
  -- What the round that starts at message `num` needs of the shared memory.
  record Before (num : ℕ) (s : Shared) : Type 0 where
    whole_batch : num < length items → s.num_batch ≡ b
    room : length s.messages ≡ b

  abbrev size_of : ℕ → ℕ
  size_of num = batch_size (length items) num b

  abbrev batch_of : ℕ → List Bytes
  batch_of num = take (size_of num) (drop num (messages_of items))

  length-batch_of : (num : ℕ) → length (batch_of num) ≡ size_of num
  length-batch_of num =
      let l = length-take (size_of num) (drop num (messages_of items)) in
      let m = length-drop num (messages_of items) in
      let n = length-messages_of items in ground arith

  put_batch-size :
      (num : ℕ) (s : Shared)
      → num < length items
      → Before num s
      → (put_batch items b num s).num_batch ≡ size_of num
  unfolding put_batch
  put_batch-size num s h v = let w = v.whole_batch h in ground arith

  put_batch-take :
      (num : ℕ) (s : Shared)
      → num < length items
      → Before num s
      → take (put_batch items b num s).num_batch (put_batch items b num s).messages ≡ batch_of num
  unfolding put_batch
  put_batch-take num s h v = rw (put_batch-size num s h v) (
      take-fill_exact (size_of num) s.messages (batch_of num) (length-batch_of num)
        (ground (arith, v.room, length-batch_of num)))

  -- The shared memory behind a round.
  abbrev behind : ℕ → Shared → Shared
  behind num s = put_batch items b num s

  Before-behind :
      (num : ℕ) (s : Shared)
      → num < length items
      → Before num s
      → Before (num + size_of num) (behind num s)
  unfolding put_batch
  Before-behind num s h v =
      let n = put_batch-size num s h v in
      record {
        whole_batch = λ h'. n ∙ ground arith;
        room = length-fill s.messages (batch_of num) ∙ v.room;
      }

  -- A consumer whose handler runs once in each round.
  abbrev EachRound : ℕ → Type 0
  EachRound c = (num : ℕ) → occurrences c (ran num) ≡ 1

  -- What the loop from message `num` on comes to.
  record Sends (num : ℕ) (s : Shared) (log : List (ℕ × Bytes)) (s' : Shared) : Type 0 where
    printed : (c : ℕ) → EachRound c → printed_by c log ≡ drop num (messages_of items)

  printed_round :
      (c num : ℕ) (s : Shared)
      → num < length items
      → Before num s
      → EachRound c
      → printed_by c (deliver (ran num) (put_batch items b num s)) ≡ batch_of num
  printed_round c num s h v each =
      deliver-printed c (ran num) (put_batch items b num s)
      ∙ rw (each num, put_batch-take num s h v) (append-nil (batch_of num))

  rest_messages :
      (num : ℕ)
      → batch_of num ++ drop (num + size_of num) (messages_of items) ≡ drop num (messages_of items)
  rest_messages num =
      rw (← drop-drop num (size_of num) (messages_of items))
        (take-append-drop (size_of num) (drop num (messages_of items)))

  send_end :
      (fuel num : ℕ) (s : Shared)
      → length items ≤ num
      → send_loop (suc fuel) items b ran num s ≡ some ([], s)
  unfolding send_loop
  send_end fuel num s h = rw (send_loop, le→ltb num (length items) h) refl

  send_round :
      (fuel num : ℕ) (s s' : Shared) (log : List (ℕ × Bytes))
      → num < length items
      → send_loop fuel items b ran (num + size_of num) (behind num s) ≡ some (log, s')
      → send_loop (suc fuel) items b ran num s
        ≡ some (deliver (ran num) (put_batch items b num s) ++ log, s')
  unfolding send_loop
  send_round fuel num s s' log h e = rw (send_loop, lt→ltb num (length items) h, e) refl

  Sends-end : (num : ℕ) (s : Shared) → length items ≤ num → Sends num s [] s
  unfolding printed_by
  Sends-end num s h =
      let z : length items - num ≡ 0 = omega arith in
      record {
        printed = λ c each.
            sym (drop_past num (messages_of items) (omega (arith, length-messages_of items)));
      }

  Sends-round :
      (num : ℕ) (s s' : Shared) (log : List (ℕ × Bytes))
      → num < length items
      → Before num s
      → Sends (num + size_of num) (behind num s) log s'
      → Sends num s (deliver (ran num) (put_batch items b num s) ++ log) s'
  Sends-round num s s' log h v k = record {
    printed = λ c each.
        printed_by-append c (deliver (ran num) (put_batch items b num s)) log
        ∙ rw (printed_round c num s h v each, k.printed c each) (rest_messages num);
  }

  send-Sends :
      (fuel num : ℕ) (s : Shared)
      → 0 < b
      → length items - num < fuel
      → Before num s
      → (log : List (ℕ × Bytes)) × (s' : Shared) × (send_loop fuel items b ran num s
          ≡ some (log, s'))
        × Sends num s log s'
  send-Sends zero num s p f v = absurd (omega arith)
  send-Sends (suc fuel) num s p f v = elim (Bool-cases (ltb num (length items))) [
    | inl e ↦
        let h = ltb→lt num (length items) e in
        let f' : length items - (num + size_of num) < fuel = ground arith in
        let (log, s', sent, k) =
          send-Sends fuel (num + size_of num) (behind num s) p f' (Before-behind num s h v) in
        (_, s', send_round fuel num s s' log h sent, Sends-round num s s' log h v k)
    | inr e ↦
        let h : length items ≤ num = ground arith in
        ([], s, send_end fuel num s h, Sends-end num s h)
  ]

length-generate : (i n : ℕ) → length (generate i n) ≡ n
unfolding generate
length-generate i zero = refl
length-generate i (suc n) = ap suc (length-generate (suc i) n)

length-generator : (m : ℕ) → length (generator m) ≡ m
unfolding generator
length-generator m = length-generate 0 m

-- With a buffer for at least one message the producer gets through its loop, in at most as many
-- rounds as there are messages and one. Where a handler that runs for a batch prints it before the
-- next one is put: a consumer whose handler runs exactly once for each batch prints all the
-- messages, in order.
pub produce-all :
    (m b : ℕ) (ran : ℕ → List ℕ)
    → 0 < b
    → (log : List (ℕ × Bytes)) × (s : Shared) × (produce (m + 1) m b ran ≡ some (log, s))
      × ((c : ℕ)
          → ((i : ℕ) → occurrences c (ran i) ≡ 1)
          → printed_by c log ≡ messages_of (generator m))
unfolding produce
produce-all m b ran h =
    let l = length-generator m in
    let v : Before (generator m) b ran 0 (new_shared b) = record {
      whole_batch = λ x. refl;
      room = length-replicate {A = Bytes} b [];
    } in
    let (log, s, sent, k) =
      send-Sends (generator m) b ran (m + 1) 0 (new_shared b) h (omega (arith, l)) v in
    (log, s, sent, k.printed)

send_stuck :
    (fuel : ℕ) (items : List Datum) (ran : ℕ → List ℕ) (num : ℕ) (s : Shared)
    → num < length items
    → send_loop fuel items 0 ran num s ≡ none
unfolding send_loop
send_stuck zero items ran num s h = refl
send_stuck (suc fuel) items ran num s h =
    let z : num + batch_size (length items) num 0 ≡ num = ground arith in
    rw
      (
        send_loop,
        lt→ltb num (length items) h,
        z,
        send_stuck fuel items ran num (put_batch items 0 num s) h,
      )
      refl

-- With a buffer for no message the loop does not end: with any fuel, messages are left.
pub produce-stuck : (fuel m : ℕ) (ran : ℕ → List ℕ) → 0 < m → produce fuel m 0 ran ≡ none
unfolding produce
produce-stuck fuel m ran h =
    send_stuck fuel (generator m) ran 0 (new_shared 0) (omega (arith, length-generator m))
