-- ===== src/ProcessTree/Chains.antt =====
-- Chains of `sibling` pointers: the list of the nodes that one runs through, and a node put at its
-- end.
use linux_programming.Base.{
  ℕ, zero, suc, ◌<◌, ◌≤◌, ◌≡◌, ◌≢◌, inl, inr, refl, ◌∙◌, List, [], ◌∷◌, ◌++◌, Option, none, some,
  ◌==◌, length, All, arith, ==-refl, Bool-cases, ==→eq,
}
use linux_programming.ProcessTree.{update, last_sibling}

-- From a pointer, the chain runs through just these nodes.
abbrev pub Chain : (ℕ → Option ℕ) → Option ℕ → List ℕ → Type 0
Chain sibling start [] = start ≡ none
Chain sibling start (i ∷ is) = (start ≡ some i) × Chain sibling (sibling i) is

-- In ascending order, from a bound on.
abbrev pub Ascends : ℕ → List ℕ → Type 0
Ascends b [] = Unit
Ascends b (i ∷ is) = (b ≤ i) × Ascends (suc i) is

-- The last of a list that is not empty.
abbrev pub last_of : ℕ → List ℕ → ℕ
last_of i [] = i
last_of i (j ∷ js) = last_of j js

last_of-Ascends : (i : ℕ) (is : List ℕ) → Ascends (suc i) is → i ≤ last_of i is
last_of-Ascends i [] h = omega arith
last_of-Ascends i (j ∷ js) h = omega (arith, h.0, last_of-Ascends j js h.1)

pub All-last_of : (P : ℕ → Type 0) (i : ℕ) (is : List ℕ) → All P (i ∷ is) → P (last_of i is)
All-last_of P i [] h = h.0
All-last_of P i (j ∷ js) h = All-last_of P j js h.1

pub Ascends-append :
    (b n : ℕ) (is : List ℕ) → b ≤ n → Ascends b is → All (λ i. i < n) is → Ascends b (is ++ n ∷ [])
Ascends-append b n [] h asc bound = (h, tt)
Ascends-append b n (i ∷ is) h asc bound =
    (asc.0, Ascends-append (suc i) n is (omega (arith, bound.0)) asc.1 bound.1)

pub update-same : (f : ℕ → Option ℕ) (i v : ℕ) → update f i v i ≡ some v
update-same f i v = rw (==-refl i) refl

pub update-other : (f : ℕ → Option ℕ) (i v j : ℕ) → j ≢ i → update f i v j ≡ f j
update-other f i v j h = elim (Bool-cases (j == i)) [
  | inl e ↦ absurd (h (==→eq j i e))
  | inr e ↦ rw e refl
]

-- A change elsewhere leaves a chain alone.
pub Chain-update :
    (f : ℕ → Option ℕ) (s v : ℕ) (start : Option ℕ) (is : List ℕ)
    → All (λ i. i ≢ s) is
    → Chain f start is
    → Chain (update f s v) start is
Chain-update f s v start [] h c = c
Chain-update f s v start (i ∷ is) h c =
    (c.0, rw (update-other f s v i h.0) (Chain-update f s v (f i) is h.1 c.1))

-- The loop finds the last node, with fuel for the chain.
pub last_sibling-Chain :
    (fuel : ℕ) (f : ℕ → Option ℕ) (i : ℕ) (is : List ℕ)
    → length is < fuel
    → Chain f (f i) is
    → last_sibling fuel f i ≡ some (last_of i is)
unfolding last_sibling
last_sibling-Chain zero f i is h c = absurd (omega arith)
last_sibling-Chain (suc fuel) f i [] h c = rw (last_sibling, c) refl
last_sibling-Chain (suc fuel) f i (j ∷ js) h c =
    rw (last_sibling, c.0) (last_sibling-Chain fuel f j js (omega arith) c.1)

-- A node without a sibling is put behind the last one.
pub Chain-append :
    (f : ℕ → Option ℕ) (n i : ℕ) (is : List ℕ) (start : Option ℕ)
    → Ascends 0 (i ∷ is)
    → All (λ j. j < n) (i ∷ is)
    → f n ≡ none
    → Chain f start (i ∷ is)
    → Chain (update f (last_of i is) n) start (i ∷ (is ++ n ∷ []))
Chain-append f n i [] start asc bound free c =
    (c.0, (update-same f i n, update-other f i n n (λ e. omega (arith, bound.0, e)) ∙ free))
Chain-append f n i (j ∷ js) start asc bound free c = (
  c.0,
  rw
      (update-other f (last_of j js) n i
        (λ e. omega (arith, asc.1.0, last_of-Ascends j js asc.1.1, e)))
      (Chain-append f n j js (f i) (omega arith, asc.1.1) bound.1 free c.1),
)
