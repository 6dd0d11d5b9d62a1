-- ===== src/Batch/Race.antt =====
-- homework/hw10/program.c as steps of the producer and its consumers side by side: the signals that
-- are pending, and the handler with its load and its store of `shared_count[0]` as two steps, since
-- `shared_count[0] += count` stands under no lock. The messages themselves are left out here.

pub mod Alone
pub mod Counts
mod Tests
pub mod Invariant
pub mod Kept
use linux_programming.Base.{
  ℕ, suc, ◌+◌, ◌-◌, ◌≤◌, ◌<◌, ◌≡◌, Bool, true, false, ltb, if◌then◌else◌, put_at,
}
use linux_programming.Batch.{batch_size}

-- Where a consumer stands: in `pause()`, in `sig_handler_data` behind the loop with its `count`,
-- there with the value of `shared_count[0]` that it has loaded, or at the end of
-- `sig_handler_exit`.
pub data Consumer : Type 0 where
  pausing exited : Consumer
  counted : ℕ → Consumer
  loaded : ℕ → ℕ → Consumer

-- Where the producer stands: at the test of the `while`, before the signal to a consumer, before
-- the SIGTERM to a consumer, before the `waitpid` for it, or behind the last one.
pub data Producer : Type 0 where
  testing done : Producer
  signalling stopping awaiting : ℕ → Producer

-- The two shared counts, `num_of_data`, the signals that are pending, and the processes; `stored`
-- is what each consumer's finished handlers have counted.
pub record System : Type 0 where
  pub received : ℕ
  pub num_batch : ℕ
  pub num_of_data : ℕ
  pub producer : Producer
  pub pending : ℕ → Bool
  pub consumer : ℕ → Consumer
  pub stored : ℕ → ℕ

-- A step, for `m` messages, `n` consumers and batches of `b`.
pub data Step (m n b : ℕ) (s : System) : System → Type 0 where
  put :
      s.producer ≡ testing
      → s.num_of_data < m
      → Step m n b s (record s {
        num_batch =
            if ltb (batch_size m s.num_of_data b) b
            then batch_size m s.num_of_data b
            else s.num_batch;
        num_of_data = s.num_of_data + batch_size m s.num_of_data b;
        producer = signalling 0;
      })
  kill :
      (i : ℕ)
      → s.producer ≡ signalling i
      → i < n
      → Step m n b s (record s { pending = put_at s.pending i true; producer = signalling (suc i) })
  again : s.producer ≡ signalling n → Step m n b s (record s { producer = testing })
  stop :
      s.producer ≡ testing → m ≤ s.num_of_data → Step m n b s (record s { producer = stopping 0 })
  terminate :
      (i : ℕ) → s.producer ≡ stopping i → i < n → Step m n b s (record s { producer = awaiting i })
  exit :
      (i : ℕ)
      → s.producer ≡ awaiting i
      → Step m n b s (record s { consumer = put_at s.consumer i exited })
  wait :
      (i : ℕ)
      → s.producer ≡ awaiting i
      → s.consumer i ≡ exited
      → Step m n b s (record s { producer = stopping (suc i) })
  report : s.producer ≡ stopping n → Step m n b s (record s { producer = done })
  enter :
      (c : ℕ)
      → c < n
      → s.consumer c ≡ pausing
      → s.pending c ≡ true
      → Step m n b s (record s {
        pending = put_at s.pending c false;
        consumer = put_at s.consumer c (counted s.num_batch);
      })
  load :
      (c k : ℕ)
      → c < n
      → s.consumer c ≡ counted k
      → Step m n b s (record s { consumer = put_at s.consumer c (loaded k s.received) })
  store :
      (c k v : ℕ)
      → c < n
      → s.consumer c ≡ loaded k v
      → Step m n b s (record s {
        received = v + k;
        consumer = put_at s.consumer c pausing;
        stored = put_at s.stored c (s.stored c + k);
      })

-- The consumers are created.
abbrev pub init : ℕ → System
init b = record {
  received = 0;
  num_batch = b;
  num_of_data = 0;
  producer = testing;
  pending = λ c. false;
  consumer = λ c. pausing;
  stored = λ c. 0;
}

pub data Reach (m n b : ℕ) : System → Type 0 where
  start : Reach m n b (init b)
  next : {s t : System} → Reach m n b s → Step m n b s t → Reach m n b t
