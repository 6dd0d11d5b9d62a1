-- ===== src/Base/Maps.antt =====
-- Functions from indices, changed at one index, and their sums over the first indices.
use Prim.Native.Nat.{ℕ, zero, suc, ◌+◌, ◌*◌, ◌≤◌, ◌<◌}
use mathlib.Core.Path.{◌≡◌, refl, ap}
use mathlib.Core.Logic.{◌≢◌, ◌⊎◌, inl, inr}
use native.Mathlib.Omega.{arith}
use linux_programming.Base.Bools.{◌==◌, if◌then◌else◌, ==-refl, ==→eq, Bool-cases}

abbrev pub put_at {ℓ} : {A : Type ℓ} → (ℕ → A) → ℕ → A → ℕ → A
put_at f i v j = if i == j then v else f j

pub put_at-same {ℓ} : {A : Type ℓ} (f : ℕ → A) (i : ℕ) (v : A) → put_at f i v i ≡ v
put_at-same f i v = rw (==-refl i) refl

pub put_at-other {ℓ} :
    {A : Type ℓ} (f : ℕ → A) (i : ℕ) (v : A) (j : ℕ) → i ≢ j → put_at f i v j ≡ f j
put_at-other f i v j h = elim (Bool-cases (i == j)) [
  | inl e ↦ absurd (h (==→eq i j e))
  | inr e ↦ rw e refl
]

-- At an index the new value stands if it is the one that changed.
pub put_at-cases {ℓ} :
    {A : Type ℓ} (f : ℕ → A) (i : ℕ) (v : A) (j : ℕ)
    → ((i ≡ j) × (put_at f i v j ≡ v)) ⊎ ((i ≢ j) × (put_at f i v j ≡ f j))
put_at-cases f i v j = elim (Bool-cases (i == j)) [
  | inl e ↦ inl (==→eq i j e, rw e refl)
  | inr e ↦ inr (ground (arith, e), rw e refl)
]

abbrev pub sum_below : ℕ → (ℕ → ℕ) → ℕ
sum_below zero f = 0
sum_below (suc n) f = sum_below n f + f n

sum_below-beyond :
    (n : ℕ) (f : ℕ → ℕ) (i v : ℕ) → n ≤ i → sum_below n (put_at f i v) ≡ sum_below n f
sum_below-beyond zero f i v h = refl
sum_below-beyond (suc n) f i v h = elim (put_at-cases f i v n) [
  | inl p ↦ absurd (omega (arith, h, p.0))
  | inr p ↦ rw p.1 (omega (arith, sum_below-beyond n f i v (omega (arith, h))))
]

pub sum_below-put_at :
    (n : ℕ) (f : ℕ → ℕ) (i k : ℕ) → i < n → sum_below n (put_at f i (f i + k)) ≡ sum_below n f + k
sum_below-put_at zero f i k h = absurd (omega (arith, h))
sum_below-put_at (suc n) f i k h = elim (put_at-cases f i (f i + k) n) [
  | inl p ↦ rw p.1 (omega (arith, sum_below-beyond n f i (f i + k) (omega (arith, p.0)), ap f p.0))
  | inr p ↦ rw p.1 (omega (arith, sum_below-put_at n f i k (omega (arith, h, p.0))))
]

pub sum_below-bound : (n b : ℕ) (f : ℕ → ℕ) → ((i : ℕ) → f i ≤ b) → sum_below n f ≤ n * b
sum_below-bound zero b f h = omega arith
sum_below-bound (suc n) b f h = omega (arith, sum_below-bound n b f h, h n)
