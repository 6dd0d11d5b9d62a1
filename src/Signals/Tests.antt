-- ===== src/Signals/Tests.antt =====
-- A process that meets the laws, and the theorem on it.
use linux_programming.Base.{
  ℕ, ◌<◌, ◌≡◌, ◌≢◌, refl, sym, Bool, false, not, ◌&&◌, ◌||◌, [], ◌∷◌, some, arith, put_at,
  put_at-same, put_at-other,
}
use mathlib.Core.Option.{some-injective}
use linux_programming.Signals.{Act, How, sig_block, sig_unblock, Calls, Laws, empty, sigset}
use linux_programming.Signals.Previous.{hold, ignore, after_all, sigset-previous}

record Process : Type 0 where
  pub mask : ℕ → Bool
  pub action : ℕ → Act

abbrev procmask : How → (ℕ → Bool) → Process → Process
procmask sig_block set s = record s { mask = λ k. s.mask k || set k }
procmask sig_unblock set s = record s { mask = λ k. s.mask k && not (set k) }

-- Every action can be set, and no handler changes anything.
abbrev calls : Calls
calls = record {
  Process = Process;
  mask = λ s. s.mask;
  action = λ s. s.action;
  sigprocmask = procmask;
  sigaction = λ n act s. some (record s { action = put_at s.action n act });
  sigsuspend = λ set s. s;
}

action-procmask :
    (how : How) (set : ℕ → Bool) (s : Process) (k : ℕ) → (procmask how set s).action k ≡ s.action k
action-procmask sig_block set s k = refl
action-procmask sig_unblock set s k = refl

laws : Laws calls
laws = record {
  mask_block = λ set s k. refl;
  mask_unblock = λ set s k. refl;
  action_procmask = action-procmask;
  action_set = λ n act s t e. rw (sym (some-injective _ _ e)) (put_at-same s.action n act);
  action_other = λ n k act s t e ne.
      rw (sym (some-injective _ _ e)) (put_at-other s.action n act k (λ q. ne (sym q)));
  mask_action = λ n act s t k e. rw (sym (some-injective _ _ e)) refl;
  mask_suspend = λ set s k. refl;
}

abbrev fresh : Process
fresh = record {
  mask = empty;
  action = λ n. record { sa_handler = 0; sa_mask = empty; sa_flags = 0 };
}

no_hold : (f : ℕ) → 2 < f → f ≢ 2
no_hold f h e = absurd (omega (arith, h, e))

-- Signal 2 with two functions, and signal 15 held and ignored in between.
sigset-previous_example :
    ((sigset calls 2 80
        (after_all calls laws (hold 15 ∷ ignore 15 ∷ hold 2 ∷ []) (sigset calls 2 70 fresh).1)).0
      ≡ some 70)
    × ((sigset calls 2 80 (
            after_all calls laws
              (hold 15 ∷ ignore 15 ∷ hold 2 ∷ [])
              (sigset calls 2 70 fresh).1)).1.mask
          2
        ≡ false)
    × ((k : ℕ)
        → k ≢ 2
        → (sigset calls 2 80 (
              after_all calls laws
                (hold 15 ∷ ignore 15 ∷ hold 2 ∷ [])
                (sigset calls 2 70 fresh).1)).1.mask
            k
          ≡ (after_all calls laws
                (hold 15 ∷ ignore 15 ∷ hold 2 ∷ [])
                (sigset calls 2 70 fresh).1).mask
              k)
sigset-previous_example =
    sigset-previous calls laws 2 70 80 (hold 15 ∷ ignore 15 ∷ hold 2 ∷ []) fresh
      (λ act s. (_, refl)) (no_hold 70 (omega arith)) (no_hold 80 (omega arith))
      (tt, ((λ e. omega (arith, e)), (tt, tt)))
