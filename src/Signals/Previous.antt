-- ===== src/Signals/Previous.antt =====
-- What `sigset` returns, and the mask behind the calls.
use linux_programming.Base.{
  ℕ, ◌≡◌, ◌≢◌, inl, inr, refl, ap, ◌∙◌, Bool, true, false, ◌&&◌, List, [], ◌∷◌, some, ◌==◌, All,
  arith, Bool-cases, Option-cases, ==-refl,
}
use linux_programming.Signals.{
  Act, sig_ign, sig_hold, Calls, Laws, only, empty, sigset, sighold, sigrelse, sigignore, sigpause,
}

-- A call of one of the functions.
pub data Call : Type 0 where
  set_to : ℕ → ℕ → Call
  hold relse ignore : ℕ → Call

-- It does not change the action of this signal.
abbrev pub IsElsewhere : ℕ → Call → Type 0
IsElsewhere n (set_to k f) = (n ≢ k)
IsElsewhere n (ignore k) = n ≢ k
IsElsewhere n (hold k) = Unit
IsElsewhere n (relse k) = Unit

abbrev set_act : ℕ → ℕ → Act
set_act signo func = record { sa_handler = func; sa_mask = only signo; sa_flags = 0 }

abbrev ignore_act : Act
ignore_act = record { sa_handler = sig_ign; sa_mask = empty; sa_flags = 0 }

and_false : (b : Bool) → b && false ≡ false
and_false true = refl
and_false false = refl

and_true : (b : Bool) → b && true ≡ b
and_true true = refl
and_true false = refl

module _ (c : Calls) (laws : Laws c) where
  abbrev pub after : Call → c.Process → c.Process
  after (set_to k f) s = (sigset c k f s).1
  after (hold k) s = sighold c k s
  after (relse k) s = sigrelse c k s
  after (ignore k) s = (sigignore c k s).1

  abbrev pub after_all : List Call → c.Process → c.Process
  after_all [] s = s
  after_all (call ∷ calls) s = after_all calls (after call s)

  -- `sigaction` works for this signal.
  abbrev pub IsCatchable : ℕ → Type 0
  IsCatchable n = (act : Act) (s : c.Process) → (t : c.Process) × (c.sigaction n act s ≡ some t)

  action-sigset : (n k f : ℕ) (s : c.Process) → n ≢ k → c.action (sigset c k f s).1 n ≡ c.action s n
  unfolding sigset
  action-sigset n k f s e = elim (Bool-cases (f == sig_hold)) [
    | inl q ↦ rw (sigset, q) (laws.action_procmask _ _ s n)
    | inr q ↦ elim (Option-cases (c.sigaction k (set_act k f) s)) [
      | inl z ↦ rw (sigset, q, z) (laws.action_procmask _ _ s n)
      | inr (t, z) ↦
          rw (sigset, q, z)
            (laws.action_procmask _ _ t n ∙ laws.action_other k n (set_act k f) s t z e)
    ]
  ]

  action-sigignore :
      (n k : ℕ) (s : c.Process) → n ≢ k → c.action (sigignore c k s).1 n ≡ c.action s n
  unfolding sigignore
  action-sigignore n k s e = elim (Option-cases (c.sigaction k ignore_act s)) [
    | inl z ↦ rw (sigignore, z) refl
    | inr (t, z) ↦ rw (sigignore, z) (laws.action_other k n ignore_act s t z e)
  ]

  action-after :
      (n : ℕ) (call : Call) (s : c.Process)
      → IsElsewhere n call
      → c.action (after call s) n ≡ c.action s n
  action-after n (set_to k f) s e = action-sigset n k f s e
  action-after n (hold k) s e = laws.action_procmask _ _ s n
  action-after n (relse k) s e = laws.action_procmask _ _ s n
  action-after n (ignore k) s e = action-sigignore n k s e

  action-after_all :
      (n : ℕ) (calls : List Call) (s : c.Process)
      → All (IsElsewhere n) calls
      → c.action (after_all calls s) n ≡ c.action s n
  action-after_all n [] s h = refl
  action-after_all n (call ∷ calls) s h =
      action-after_all n calls (after call s) h.1 ∙ action-after n call s h.0

  released : (n : ℕ) (s : c.Process) → c.mask (sigrelse c n s) n ≡ false
  released n s = laws.mask_unblock (only n) s n ∙ rw (==-refl n) (and_false (c.mask s n))

  released_other : (n : ℕ) (s : c.Process) (k : ℕ) → k ≢ n → c.mask (sigrelse c n s) k ≡ c.mask s k
  released_other n s k h =
      let apart : only n k ≡ false = ground (arith, h) in
      laws.mask_unblock (only n) s k ∙ rw apart (and_true (c.mask s k))

  -- With a function, and not SIG_HOLD.
  sigset-set :
      (n f : ℕ) (s : c.Process)
      → IsCatchable n
      → f ≢ sig_hold
      → ((sigset c n f s).0 ≡ some ((c.action s n).sa_handler))
        × ((c.action (sigset c n f s).1 n).sa_handler ≡ f)
        × (c.mask (sigset c n f s).1 n ≡ false)
        × ((k : ℕ) → k ≢ n → c.mask (sigset c n f s).1 k ≡ c.mask s k)
  sigset-set n f s h ne =
      let (t, z) = h (set_act n f) s in
      let q : (f == sig_hold) ≡ false = ground (arith, ne) in
      unfold sigset in
      rw (sigset, q, z)
        (
          refl,
          ap (λ a. a.sa_handler)
              (laws.action_procmask _ _ t n ∙ laws.action_set n (set_act n f) s t z),
          released n t,
          λ k other. released_other n t k other ∙ laws.mask_action n (set_act n f) s t k z,
        )

  -- For a signal whose action can be set: `sigset` with a function returns the function of the last
  -- `sigset` with one, whatever is held, released, or set for other signals in between; it leaves
  -- the signal unblocked and the rest of the mask as it was.
  pub sigset-previous :
      (n f g : ℕ) (calls : List Call) (s : c.Process)
      → IsCatchable n
      → f ≢ sig_hold
      → g ≢ sig_hold
      → All (IsElsewhere n) calls
      → ((sigset c n g (after_all calls (sigset c n f s).1)).0 ≡ some f)
        × (c.mask (sigset c n g (after_all calls (sigset c n f s).1)).1 n ≡ false)
        × ((k : ℕ)
            → k ≢ n
            → c.mask (sigset c n g (after_all calls (sigset c n f s).1)).1 k
              ≡ c.mask (after_all calls (sigset c n f s).1) k)
  sigset-previous n f g calls s h nf ng e =
      let first = sigset-set n f s h nf in
      let t = after_all calls (sigset c n f s).1 in
      let (previous, now, open_mask, others) = sigset-set n g t h ng in
      (
        previous
            ∙ ap (λ a. some (a.sa_handler)) (action-after_all n calls (sigset c n f s).1 e)
            ∙ ap some first.1,
        open_mask,
        others,
      )

  -- `sigpause` leaves the signal unblocked behind it, also where it was blocked before, and the
  -- rest of the mask as it was.
  pub sigpause-unblocked :
      (n : ℕ) (s : c.Process)
      → (c.mask (sigpause c n s) n ≡ false)
        × ((k : ℕ) → k ≢ n → c.mask (sigpause c n s) k ≡ c.mask s k)
  sigpause-unblocked n s =
      unfold sigpause in
      (
        laws.mask_suspend _ _ n ∙ released n s,
        λ k h. laws.mask_suspend _ _ k ∙ released_other n s k h,
      )
