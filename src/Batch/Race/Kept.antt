-- ===== src/Batch/Race/Kept.antt =====
-- Every state that the producer and its consumers can reach keeps the invariant.
use linux_programming.Base.{
  ℕ, suc, ◌+◌, ◌≤◌, ◌<◌, ◌≡◌, ◌≢◌, inl, inr, refl, sym, ◌∙◌, true, false, ltb, if◌then◌else◌,
  put_at, put_at-cases, put_at-same, put_at-other, sum_below-put_at, arith, ◌==◌, Bool-cases, ==→eq,
  ==→ne,
}
use linux_programming.Batch.{batch_size}
use linux_programming.Batch.Race.{
  pausing, exited, counted, loaded, testing, done, signalling, stopping, awaiting, System, Step,
  put, kill, again, stop, terminate, exit, wait, report, enter, load, store, Reach, start, next,
}
use linux_programming.Batch.Race.Invariant.{
  in_handler, at_most, charge, Inv, IsCharged-less, at_most_mono, batch_size-num_batch,
  loaded-injective, Inv-consumer, Inv-moves,
}

Inv-put :
    (m n b : ℕ) (s t : System)
    → Inv m n b s
    → s.num_of_data < m
    → t ≡ record s {
      num_batch =
          if ltb (batch_size m s.num_of_data b) b
          then batch_size m s.num_of_data b
          else s.num_batch;
      num_of_data = s.num_of_data + batch_size m s.num_of_data b;
      producer = signalling 0;
    }
    → Inv m n b t
Inv-put m n b s t v l e =
    let k = batch_size m s.num_of_data b in
    let (same, less, all, whole) =
      batch_size-num_batch m s.num_of_data b s.num_batch l (v.batch l) in
    let old : (c : ℕ)
        → s.stored c + in_handler (s.consumer c) + at_most (s.pending c) k ≤ s.num_of_data =
      λ c. omega (
        arith,
        v.paid c,
        at_most_mono (s.pending c) k s.num_batch (omega (arith, less, v.batch l)),
      ) in
    rw (e, same)
      (record {
        paid = λ c. omega (arith, old c);
        unsignalled = λ c z. omega (arith, old c);
        batch = whole;
        data_bound = all;
        lost = v.lost;
        stale = v.stale;
      })

Inv-kill :
    (m n b : ℕ) (s : System) (i : ℕ)
    → Inv m n b s
    → s.producer ≡ signalling i
    → Inv m n b (record s { pending = put_at s.pending i true; producer = signalling (suc i) })
Inv-kill m n b s i v e =
    let left : (c : ℕ) → i ≤ c → charge s c + s.num_batch ≤ s.num_of_data = rw e at v.unsignalled in
    record {
      paid = λ c. elim (put_at-cases s.pending i true c) [
        | inl p ↦ rw p.1 (omega (arith, left c (omega (arith, p.0))))
        | inr p ↦ rw p.1 (v.paid c)
      ];
      unsignalled = λ c z. elim (put_at-cases s.pending i true c) [
        | inl p ↦ absurd (omega (arith, z, p.0))
        | inr p ↦ rw p.1 (left c (omega (arith, z)))
      ];
      batch = v.batch;
      data_bound = v.data_bound;
      lost = v.lost;
      stale = v.stale;
    }

Inv-store :
    (m n b : ℕ) (s : System) (c k u : ℕ)
    → Inv m n b s
    → c < n
    → s.consumer c ≡ loaded k u
    → Inv m n b (record s {
      received = u + k;
      consumer = put_at s.consumer c pausing;
      stored = put_at s.stored c (s.stored c + k);
    })
Inv-store m n b s c k u v l e =
    let total = sum_below-put_at n s.stored c k l in
    let same : (d : ℕ)
        → put_at s.stored c (s.stored c + k) d + in_handler (put_at s.consumer c pausing d)
          ≡ s.stored d + in_handler (s.consumer d) =
      λ d. elim (Bool-cases (c == d)) [
        | inl q ↦
            let r = ==→eq c d q in
            rw (sym r, put_at-same s.stored c (s.stored c + k), put_at-same s.consumer c pausing, e)
              (omega arith)
        | inr q ↦
            let r : c ≢ d = λ r. ==→ne c d q r in
            rw (put_at-other s.stored c (s.stored c + k) d r, put_at-other s.consumer c pausing d r)
              refl
      ] in
    record {
      paid = λ d. omega (arith, v.paid d, same d);
      unsignalled = IsCharged-less _ _ _ _ s.producer (λ d. omega (arith, same d)) v.unsignalled;
      batch = v.batch;
      data_bound = v.data_bound;
      lost = omega (arith, total, v.stale c k u e);
      stale = λ d j w q. elim (put_at-cases s.consumer c pausing d) [
        | inl p ↦ absurd cc
        | inr p ↦ omega (arith, total, v.stale d j w (sym p.1 ∙ q))
      ];
    }

Inv-Step : (m n b : ℕ) (s t : System) → Inv m n b s → Step m n b s t → Inv m n b t
Inv-Step m n b s _ v (put e l) = Inv-put m n b s _ v l refl
Inv-Step m n b s _ v (kill i e l) = Inv-kill m n b s i v e
Inv-Step m n b s _ v (again e) = Inv-moves m n b s testing v tt
Inv-Step m n b s _ v (stop e l) = Inv-moves m n b s (stopping 0) v tt
Inv-Step m n b s _ v (terminate i e l) = Inv-moves m n b s (awaiting i) v tt
Inv-Step m n b s _ v (wait i e l) = Inv-moves m n b s (stopping (suc i)) v tt
Inv-Step m n b s _ v (report e) = Inv-moves m n b s done v tt
Inv-Step m n b s _ v (exit i e) =
    Inv-consumer m n b s i exited s.pending v (omega arith) (λ d h. refl) (λ k u h. absurd cc)
Inv-Step m n b s _ v (enter c l e p) =
    Inv-consumer m n b s c (counted s.num_batch) (put_at s.pending c false) v
      (rw (put_at-same s.pending c false, e, p) (omega arith))
      (λ d h. put_at-other s.pending c false d h) (λ k u h. absurd cc)
Inv-Step m n b s _ v (load c k l e) =
    Inv-consumer m n b s c (loaded k s.received) s.pending v (rw e (omega arith)) (λ d h. refl)
      (λ j u h. sym (loaded-injective h))
Inv-Step m n b s _ v (store c k u l e) = Inv-store m n b s c k u v l e

pub Reach-Inv : (m n b : ℕ) (s : System) → Reach m n b s → Inv m n b s
Reach-Inv m n b _ start = record {
  paid = λ c. omega arith;
  unsignalled = tt;
  batch = λ l. refl;
  data_bound = omega arith;
  lost = omega arith;
  stale = λ c k v e. absurd cc;
}
Reach-Inv m n b t (next {s} r st) = Inv-Step m n b s t (Reach-Inv m n b s r) st
