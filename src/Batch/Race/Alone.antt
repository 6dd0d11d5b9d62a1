-- ===== src/Batch/Race/Alone.antt =====
-- The count where no two handlers add to it at once.
use linux_programming.Base.{
  ℕ, ◌+◌, ◌<◌, ◌≡◌, inl, inr, sym, ◌∙◌, Bool, put_at, put_at-cases, sum_below, sum_below-put_at,
  sum_below-bound, arith,
}
use linux_programming.Batch.Race.{
  Consumer, pausing, exited, counted, loaded, Producer, System, Step, put, kill, again, stop,
  terminate, exit, wait, report, enter, load, store, Reach, start, next,
}
use linux_programming.Batch.Race.Invariant.{loaded-injective}

-- At most one consumer stands between the load and the store.
abbrev pub IsAlone : System → Type 0
IsAlone s = (c d j k u v : ℕ) → s.consumer c ≡ loaded j u → s.consumer d ≡ loaded k v → c ≡ d

-- All the way.
abbrev pub IsSerial : {m n b : ℕ} {s : System} → Reach m n b s → Type 0
IsSerial start = Unit
IsSerial (next {s} {t} r st) = IsSerial r × IsAlone t

record Exact (n : ℕ) (s : System) : Type 0 where
  pub total : s.received ≡ sum_below n s.stored
  pub fresh : (c k v : ℕ) → s.consumer c ≡ loaded k v → v ≡ s.received

-- A step of a consumer up to the load.
Exact-consumer :
    (n : ℕ) (s : System) (pending' : ℕ → Bool) (c : ℕ) (x : Consumer)
    → Exact n s
    → ((k v : ℕ) → x ≡ loaded k v → v ≡ s.received)
    → Exact n (record s { pending = pending'; consumer = put_at s.consumer c x })
Exact-consumer n s pending' c x v w = record {
  total = v.total;
  fresh = λ d k u e. elim (put_at-cases s.consumer c x d) [
    | inl q ↦ w k u (sym q.1 ∙ e)
    | inr q ↦ v.fresh d k u (sym q.1 ∙ e)
  ];
}

Exact-producer :
    (n : ℕ) (s : System) (k num : ℕ) (pending' : ℕ → Bool) (p : Producer)
    → Exact n s
    → Exact n (record s { num_batch = k; num_of_data = num; pending = pending'; producer = p })
Exact-producer n s k num pending' p v = record { total = v.total; fresh = v.fresh }

Exact-store :
    (n : ℕ) (s : System) (c k u : ℕ)
    → Exact n s
    → IsAlone s
    → c < n
    → s.consumer c ≡ loaded k u
    → Exact n (record s {
      received = u + k;
      consumer = put_at s.consumer c pausing;
      stored = put_at s.stored c (s.stored c + k);
    })
Exact-store n s c k u v a l e = record {
  total = omega (arith, sum_below-put_at n s.stored c k l, v.total, v.fresh c k u e);
  fresh = λ d j w h. elim (put_at-cases s.consumer c pausing d) [
    | inl q ↦ absurd cc
    | inr q ↦ absurd (q.0 (a c d k j u w e (sym q.1 ∙ h)))
  ];
}

Exact-Step : (m n b : ℕ) (s t : System) → Exact n s → IsAlone s → Step m n b s t → Exact n t
Exact-Step m n b s _ v a (put e l) = Exact-producer n s _ _ s.pending _ v
Exact-Step m n b s _ v a (kill i e l) = Exact-producer n s _ _ _ _ v
Exact-Step m n b s _ v a (again e) = Exact-producer n s _ _ s.pending _ v
Exact-Step m n b s _ v a (stop e l) = Exact-producer n s _ _ s.pending _ v
Exact-Step m n b s _ v a (terminate i e l) = Exact-producer n s _ _ s.pending _ v
Exact-Step m n b s _ v a (exit i e) = Exact-consumer n s s.pending i exited v (λ k u h. absurd cc)
Exact-Step m n b s _ v a (wait i e l) = Exact-producer n s _ _ s.pending _ v
Exact-Step m n b s _ v a (report e) = Exact-producer n s _ _ s.pending _ v
Exact-Step m n b s _ v a (enter c l e p) =
    Exact-consumer n s _ c (counted s.num_batch) v (λ k u h. absurd cc)
Exact-Step m n b s _ v a (load c k l e) =
    Exact-consumer n s s.pending c (loaded k s.received) v (λ j u h. sym (loaded-injective h))
Exact-Step m n b s _ v a (store c k u l e) = Exact-store n s c k u v a l e

Reach-Exact : (m n b : ℕ) (s : System) (r : Reach m n b s) → IsSerial r → Exact n s × IsAlone s
Reach-Exact m n b _ start h = (
  record {
    total = omega (arith, sum_below-bound n 0 (λ c. 0) (λ i. omega arith));
    fresh = λ c k v e. absurd cc;
  },
  λ c d j k u v e f. absurd cc,
)
Reach-Exact m n b t (next {s} r st) h =
    let (v, a) = Reach-Exact m n b s r h.0 in (Exact-Step m n b s t v a st, h.1)

-- In an order of the steps in which never two consumers stand between the load and the store, as a
-- lock around the addition would have it, the shared count is just the sum of what the finished
-- handlers have counted.
pub Reach-exact :
    (m n b : ℕ) (s : System) (r : Reach m n b s) → IsSerial r → s.received ≡ sum_below n s.stored
Reach-exact m n b s r h = (Reach-Exact m n b s r h).0.total
