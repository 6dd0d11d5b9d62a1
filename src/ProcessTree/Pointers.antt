-- ===== src/ProcessTree/Pointers.antt =====
-- Where the pointers that `sortNode` sets lead to: `child` to a node with this one as its parent,
-- `sibling` to a later node with the same parent.
use linux_programming.Base.{
  ℕ, zero, suc, ◌<◌, ◌≡◌, ◌⊎◌, inl, inr, refl, sym, ap, ◌∙◌, List, [], ◌∷◌, ◌++◌, some, Option, All,
  length, arith, Option-cases, ◌==◌, Bool-cases, ==→eq, ==→ne,
}
use mathlib.Core.Option.{some-injective}
use linux_programming.ProcessTree.{Node, Links, father}
use linux_programming.ProcessTree.Chains.{Chain, Ascends}
use linux_programming.ProcessTree.Fathers.{fatherless, lt_or_le}
use linux_programming.ProcessTree.Kids.{kids, kids_own, kids_other, kids_unowned, kids-IsKids}
use linux_programming.ProcessTree.Sorting.{IsVisited}

-- `j` stands in the list.
abbrev Within : ℕ → List ℕ → Type 0
Within j [] = ⊥
Within j (i ∷ is) = (j ≡ i) ⊎ Within j is

Within-left : (j : ℕ) (is js : List ℕ) → Within j is → Within j (is ++ js)
Within-left j [] js w = absurd w
Within-left j (i ∷ is) js (inl e) = inl e
Within-left j (i ∷ is) js (inr w) = inr (Within-left j is js w)

Within-last : (j : ℕ) (is : List ℕ) → Within j (is ++ j ∷ [])
Within-last j [] = inl refl
Within-last j (i ∷ is) = inr (Within-last j is)

All-Within : (P : ℕ → Type 0) (j : ℕ) (is : List ℕ) → All P is → Within j is → P j
All-Within P j [] h w = absurd w
All-Within P j (i ∷ is) h (inl e) = rw e h.0
All-Within P j (i ∷ is) h (inr w) = All-Within P j is h.1 w

-- Behind an element of an ascending chain stands nothing, or a later one.
Chain-next :
    (f : ℕ → Option ℕ) (start : Option ℕ) (b : ℕ) (is : List ℕ) (i j : ℕ)
    → Chain f start is
    → Ascends b is
    → Within i is
    → f i ≡ some j
    → (i < j) × Within j is
Chain-next f start b [] i j c a w e = absurd w
Chain-next f start b (k ∷ []) i j c a (inl q) e = absurd cc
Chain-next f start b (k ∷ l ∷ is) i j c a (inl q) e =
    let same : j ≡ l = some-injective _ _ (sym e ∙ ap f q ∙ c.1.0) in
    (omega (arith, q, same, a.1.0), inr (inl same))
Chain-next f start b (k ∷ is) i j c a (inr w) e =
    let r = Chain-next f (f k) (suc k) is i j c.1 a.1 w e in (r.0, inr r.1)

module _ (nodes : List Node) (t : Links) (v : IsVisited nodes (length nodes) t) where
  own_kid : (n j i : ℕ) → j < n → father nodes j ≡ some i → Within j (kids nodes n i)
  own_kid zero j i l e = absurd (omega (arith, l))
  own_kid (suc n) j i l e = elim (Bool-cases (j == n)) [
    | inl q ↦
        rw (==→eq j n q, kids_own nodes n i (rw (==→eq j n q) at e))
          (Within-last n (kids nodes n i))
    | inr q ↦
        let w = own_kid n j i (omega (arith, l, ==→ne j n q)) e in
        elim (Option-cases (father nodes n)) [
          | inl h ↦ rw (kids_unowned nodes n i h) w
          | inr (f, h) ↦ elim (Bool-cases (i == f)) [
            | inl p ↦
                rw (kids_own nodes n i (rw (==→eq i f p) h))
                  (Within-left j (kids nodes n i) (n ∷ []) w)
            | inr p ↦ rw (kids_other nodes n f i h (==→ne i f p)) w
          ]
        ]
  ]

  pub father-bound : (j f : ℕ) → father nodes j ≡ some f → j < length nodes
  father-bound j f e = elim (lt_or_le j (length nodes)) [
    | inl l ↦ l
    | inr g ↦ absurd cc (fatherless nodes j g, e)
  ]

  pub child-father : (i c : ℕ) → t.child i ≡ some c → father nodes c ≡ some i
  child-father i c e =
      first (kids nodes (length nodes) i) (v.chains i) (kids-IsKids nodes (length nodes) i).own
    where
      first :
          (is : List ℕ)
          → Chain t.sibling (t.child i) is
          → All (λ j. father nodes j ≡ some i) is
          → father nodes c ≡ some i
      first [] h a = absurd cc
      first (k ∷ is) h a = rw (some-injective _ _ (sym e ∙ h.0)) a.0

  -- So a node with a sibling has a parent, and the sibling the same.
  pub sibling-father :
      (i j : ℕ)
      → t.sibling i ≡ some j
      → (f : ℕ) × (father nodes i ≡ some f) × (father nodes j ≡ some f) × (i < j)
  sibling-father i j e = elim (Option-cases (father nodes i)) [
    | inl h ↦ absurd cc (e, v.lone i h)
    | inr (f, h) ↦
        let k = kids-IsKids nodes (length nodes) f in
        let r =
          Chain-next t.sibling (t.child f) 0 (kids nodes (length nodes) f) i j (v.chains f)
            k.ascends (own_kid (length nodes) i f (father-bound i f h) h) e in
        (
          f,
          h,
          All-Within (λ k. father nodes k ≡ some f) j (kids nodes (length nodes) f) k.own r.1,
          r.0,
        )
  ]
