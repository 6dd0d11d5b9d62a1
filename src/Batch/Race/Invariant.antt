-- ===== src/Batch/Race/Invariant.antt =====
-- What holds of the signals and the counts, and the steps that keep it by what they charge.
use linux_programming.Base.{
  ℕ, ◌+◌, ◌≤◌, ◌<◌, ◌≡◌, ◌≢◌, ◌⊎◌, inl, inr, sym, ap, ◌∙◌, Bool, true, false, ltb, if◌then◌else◌,
  put_at, put_at-cases, sum_below, arith,
}
use linux_programming.Batch.{batch_size}
use linux_programming.Batch.Race.{
  Consumer, pausing, exited, counted, loaded, Producer, testing, done, signalling, stopping,
  awaiting, System,
}

-- What the handler of a consumer is about to add.
abbrev pub in_handler : Consumer → ℕ
in_handler pausing = 0
in_handler exited = 0
in_handler (counted k) = k
in_handler (loaded k v) = k

abbrev pub at_most : Bool → ℕ → ℕ
at_most true k = k
at_most false k = 0

-- All that a consumer has counted, is counting, or will count for a signal that is pending.
abbrev pub charge : System → ℕ → ℕ
charge s c = s.stored c + in_handler (s.consumer c) + at_most (s.pending c) s.num_batch

-- The consumers that have not yet got the signal for the batch have only those before it.
abbrev IsCharged : (ℕ → ℕ) → ℕ → ℕ → Producer → Type 0
IsCharged f num_batch num testing = Unit
IsCharged f num_batch num done = Unit
IsCharged f num_batch num (signalling i) = (c : ℕ) → i ≤ c → f c + num_batch ≤ num
IsCharged f num_batch num (stopping i) = Unit
IsCharged f num_batch num (awaiting i) = Unit

pub record Inv (m n b : ℕ) (s : System) : Type 0 where
  pub paid : (c : ℕ) → charge s c ≤ s.num_of_data
  pub unsignalled : IsCharged (charge s) s.num_batch s.num_of_data s.producer
  pub batch : s.num_of_data < m → s.num_batch ≡ b
  pub data_bound : s.num_of_data ≤ m
  pub lost : s.received ≤ sum_below n s.stored
  pub stale : (c k v : ℕ) → s.consumer c ≡ loaded k v → v ≤ sum_below n s.stored

pub IsCharged-less :
    (f g : ℕ → ℕ) (k num : ℕ) (p : Producer)
    → ((c : ℕ) → g c ≤ f c)
    → IsCharged f k num p
    → IsCharged g k num p
IsCharged-less f g k num testing h v = tt
IsCharged-less f g k num done h v = tt
IsCharged-less f g k num (signalling i) h v = λ c l. omega (arith, h c, v c l)
IsCharged-less f g k num (stopping i) h v = tt
IsCharged-less f g k num (awaiting i) h v = tt

pub at_most_mono : (p : Bool) (j k : ℕ) → j ≤ k → at_most p j ≤ at_most p k
at_most_mono true j k h = h
at_most_mono false j k h = omega arith

-- The batch that `put` announces.
pub batch_size-num_batch :
    (m num b nb : ℕ)
    → num < m
    → nb ≡ b
    → ((if ltb (batch_size m num b) b then batch_size m num b else nb) ≡ batch_size m num b)
      × (batch_size m num b ≤ b)
      × (num + batch_size m num b ≤ m)
      × (num + batch_size m num b < m → batch_size m num b ≡ b)
batch_size-num_batch m num b nb l e =
    (ground (arith, l, e), ground (arith, l), ground (arith, l), λ h. ground (arith, l, h))

pub loaded-injective : {j k u v : ℕ} → loaded j u ≡ loaded k v → u ≡ v
loaded-injective e = ap value e
  where
    value : Consumer → ℕ
    value (loaded k v) = v
    value _ = 0

-- A step that leaves the producer and the counts alone and charges no consumer more.
Inv-charge :
    (m n b : ℕ) (s : System) (pending' : ℕ → Bool) (consumer' : ℕ → Consumer)
    → Inv m n b s
    → ((c : ℕ)
        → in_handler (consumer' c) + at_most (pending' c) s.num_batch
          ≤ in_handler (s.consumer c) + at_most (s.pending c) s.num_batch)
    → ((c k v : ℕ) → consumer' c ≡ loaded k v → (s.consumer c ≡ loaded k v) ⊎ (v ≡ s.received))
    → Inv m n b (record s { pending = pending'; consumer = consumer' })
Inv-charge m n b s pending' consumer' v h w =
    let t : System = record s { pending = pending'; consumer = consumer' } in
    let less : (c : ℕ) → charge t c ≤ charge s c = λ c. omega (arith, h c) in
    record {
      paid = λ c. omega (arith, less c, v.paid c);
      unsignalled =
          IsCharged-less (charge s) (charge t) s.num_batch s.num_of_data s.producer less
            v.unsignalled;
      batch = v.batch;
      data_bound = v.data_bound;
      lost = v.lost;
      stale = λ c k u e. elim (w c k u e) [ inl e' ↦ v.stale c k u e' | inr e' ↦ rw e' v.lost ];
    }

-- So does a step of one consumer.
pub Inv-consumer :
    (m n b : ℕ) (s : System) (c : ℕ) (x : Consumer) (pending' : ℕ → Bool)
    → Inv m n b s
    → in_handler x + at_most (pending' c) s.num_batch
      ≤ in_handler (s.consumer c) + at_most (s.pending c) s.num_batch
    → ((d : ℕ) → c ≢ d → pending' d ≡ s.pending d)
    → ((k v : ℕ) → x ≡ loaded k v → v ≡ s.received)
    → Inv m n b (record s { pending = pending'; consumer = put_at s.consumer c x })
Inv-consumer m n b s c x pending' v h others w =
    Inv-charge m n b s pending' (put_at s.consumer c x) v
      (λ d. elim (put_at-cases s.consumer c x d) [
        | inl q ↦ rw (q.1, sym q.0) h
        | inr q ↦ rw (q.1, others d q.0) (omega arith)
      ])
      (λ d k u e. elim (put_at-cases s.consumer c x d) [
        | inl q ↦ inr (w k u (sym q.1 ∙ e))
        | inr q ↦ inl (sym q.1 ∙ e)
      ])

-- The producer goes on to a point where no signal for the batch is missing.
pub Inv-moves :
    (m n b : ℕ) (s : System) (p : Producer)
    → Inv m n b s
    → IsCharged (charge s) s.num_batch s.num_of_data p
    → Inv m n b (record s { producer = p })
Inv-moves m n b s p v h = record {
  paid = v.paid;
  unsignalled = h;
  batch = v.batch;
  data_bound = v.data_bound;
  lost = v.lost;
  stale = v.stale;
}
