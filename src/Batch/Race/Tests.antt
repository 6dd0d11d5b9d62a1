-- ===== src/Batch/Race/Tests.antt =====
-- One message to two consumers, whose handlers add to the count at once or one after the other.
use linux_programming.Base.{
  ℕ, ◌*◌, ◌≤◌, ◌≡◌, ◌≢◌, inl, inr, refl, sym, ◌∙◌, arith, ◌==◌, sum_below, put_at, put_at-other,
  Bool-cases, ==→eq, ==→ne,
}
use linux_programming.Batch.Race.{
  Consumer, pausing, counted, loaded, System, Reach, start, next, put, kill, enter, load, store,
  init,
}
use linux_programming.Batch.Race.Counts.{Reach-received}
use linux_programming.Batch.Race.Alone.{IsAlone, IsSerial, Reach-exact}

-- The message is put, and both have got the signal and printed it.
abbrev both_counted : (s : System) × Reach 1 2 1 s
both_counted = (
  _,
  next
      (next
        (next (next (next start (put refl (omega arith))) (kill 0 refl (omega arith)))
          (kill 1 refl (omega arith)))
        (enter 0 (omega arith) refl refl))
      (enter 1 (omega arith) refl refl),
)

-- Both load the count before either has stored it: of the two messages one is counted.
abbrev lost_update : (s : System) × Reach 1 2 1 s × (s.received ≡ 1) × (sum_below 2 s.stored ≡ 2)
lost_update = (
  _,
  next
      (next (next (next both_counted.1 (load 0 1 (omega arith) refl)) (load 1 1 (omega arith) refl))
        (store 0 1 0 (omega arith) refl))
      (store 1 1 0 (omega arith) refl),
  refl,
  refl,
)

Reach-received_example :
    ((c : ℕ) → lost_update.0.stored c ≤ lost_update.0.num_of_data)
    × (lost_update.0.num_of_data ≤ 1)
    × (lost_update.0.received ≤ sum_below 2 lost_update.0.stored)
    × (lost_update.0.received ≤ 2 * 1)
Reach-received_example = Reach-received 1 2 1 lost_update.0 lost_update.1

-- All but the consumer `i` are in `pause()`.
abbrev IsOnly : ℕ → (ℕ → Consumer) → Type 0
IsOnly i f = (c : ℕ) → i ≢ c → f c ≡ pausing

IsOnly-put_at : (i : ℕ) (f : ℕ → Consumer) (x : Consumer) → IsOnly i f → IsOnly i (put_at f i x)
IsOnly-put_at i f x h c n = put_at-other f i x c n ∙ h c n

only-IsAlone : (s : System) (i : ℕ) → IsOnly i s.consumer → IsAlone s
only-IsAlone s i h c d j k u v e f = sym (it c j u e) ∙ it d k v f
  where
    it : (c j u : ℕ) → s.consumer c ≡ loaded j u → i ≡ c
    it c j u e = elim (Bool-cases (i == c)) [
      | inl q ↦ ==→eq i c q
      | inr q ↦ absurd cc (e, h c (==→ne i c q))
    ]

-- A single consumer up to its store.
abbrev one_put : (s : System) × Reach 1 1 1 s
one_put = (_, next start (put refl (omega arith)))

abbrev one_killed : (s : System) × Reach 1 1 1 s
one_killed = (_, next one_put.1 (kill 0 refl (omega arith)))

abbrev one_entered : (s : System) × Reach 1 1 1 s
one_entered = (_, next one_killed.1 (enter 0 (omega arith) refl refl))

abbrev one_loaded : (s : System) × Reach 1 1 1 s
one_loaded = (_, next one_entered.1 (load 0 1 (omega arith) refl))

abbrev one_stored : (s : System) × Reach 1 1 1 s
one_stored = (_, next one_loaded.1 (store 0 1 0 (omega arith) refl))

one_stored-IsSerial : IsSerial one_stored.1
one_stored-IsSerial =
    let first : IsOnly 0 (init 1).consumer = λ c h. refl in
    let entered = IsOnly-put_at 0 (init 1).consumer (counted 1) first in
    let loads = IsOnly-put_at 0 one_entered.0.consumer (loaded 1 0) entered in
    let stored' = IsOnly-put_at 0 one_loaded.0.consumer pausing loads in
    (
      (
        (
          ((tt, only-IsAlone one_put.0 0 first), only-IsAlone one_killed.0 0 first),
          only-IsAlone one_entered.0 0 entered,
        ),
        only-IsAlone one_loaded.0 0 loads,
      ),
      only-IsAlone one_stored.0 0 stored',
    )

Reach-exact_example : one_stored.0.received ≡ sum_below 1 one_stored.0.stored
Reach-exact_example = Reach-exact 1 1 1 one_stored.0 one_stored.1 one_stored-IsSerial
