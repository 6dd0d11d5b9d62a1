-- ===== src/Kernel/Rewire.antt =====
-- Putting one end of a pipe in the place of a standard descriptor.
use linux_programming.Base.{ℕ, ◌≡◌, ◌≢◌, sym, ◌∙◌, none, some}
use linux_programming.Kernel.Defs.{Kernel, Laws, rewire}

-- The end that is kept stands at `std`, both descriptors of the pipe are free again, and no other
-- descriptor has changed.
pub record Rewired (k : Kernel) (t t' : k.Table) (drop keep std : ℕ) (f : k.File) : Type 0 where
  pub at_std : k.at t' std ≡ some f
  pub no_keep : k.at t' keep ≡ none
  pub no_drop : k.at t' drop ≡ none
  pub kept : (d : ℕ) → d ≢ drop → d ≢ keep → d ≢ std → k.at t' d ≡ k.at t d

module _ (k : Kernel) (laws : Laws k) where
  pub rewire-Rewired :
      (t : k.Table) (drop keep std : ℕ) {f g : k.File}
      → k.at t drop ≡ some g
      → k.at t keep ≡ some f
      → drop ≢ keep
      → std ≢ keep
      → std ≢ drop
      → Rewired k t (rewire k t drop keep std) drop keep std f
  unfolding rewire
  rewire-Rewired t drop keep std hd hk dk sk sd =
      let (t1, e1, gone, same1) = laws.close_open t drop hd in
      let (t2, e2, set, same2) = laws.dup2_open t1 keep std (same1 keep (λ e. dk (sym e)) ∙ hk) in
      let (t3, e3, freed, same3) =
        laws.close_open t2 keep
          (same2 keep (λ e. sk (sym e)) ∙ same1 keep (λ e. dk (sym e)) ∙ hk) in
      rw (e1, e2, e3)
        (record {
          at_std = same3 std sk ∙ set;
          no_keep = freed;
          no_drop = same3 drop dk ∙ same2 drop (λ e. sd (sym e)) ∙ gone;
          kept = λ d nd nk ns. same3 d nk ∙ same2 d ns ∙ same1 d nd;
        })
