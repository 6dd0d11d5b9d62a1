-- ===== src/ProcessTree/Kids.antt =====
-- The children that `sortNode` gives to a node, as a list.
use linux_programming.Base.{
  ℕ, zero, suc, ◌<◌, ◌≤◌, ◌≡◌, ◌≢◌, inl, inr, refl, List, [], ◌∷◌, ◌++◌, none, some, ◌==◌,
  if◌then◌else◌, length, All, All-append, length-append, arith, ==-refl, Bool-cases, Option-cases,
  ==→eq, ==→ne,
}
use linux_programming.ProcessTree.{Node, has_pid, father}
use linux_programming.ProcessTree.Chains.{Ascends, Ascends-append}

-- Of the first `n` nodes, those whose parent is the node `i`, in their order.
unfoldable pub kids : List Node → ℕ → ℕ → List ℕ
unfolding father
kids nodes zero i = []
kids nodes (suc n) i =
    if has_pid (father nodes n) i then kids nodes n i ++ n ∷ [] else kids nodes n i

module _ (nodes : List Node) where
  pub kids_unowned : (n i : ℕ) → father nodes n ≡ none → kids nodes (suc n) i ≡ kids nodes n i
  kids_unowned n i h = unfold kids in rw h refl

  pub kids_own :
      (n f : ℕ) → father nodes n ≡ some f → kids nodes (suc n) f ≡ kids nodes n f ++ n ∷ []
  kids_own n f h = unfold kids in rw (h, ==-refl f) refl

  pub kids_other :
      (n f i : ℕ) → father nodes n ≡ some f → i ≢ f → kids nodes (suc n) i ≡ kids nodes n i
  kids_other n f i h ne = elim (Bool-cases (i == f)) [
    | inl e ↦ absurd (ne (==→eq i f e))
    | inr e ↦ unfold kids in rw (h, e) refl
  ]

  -- A child is older than `n`, it has the parent, and the children ascend.
  pub record IsKids (n i : ℕ) (is : List ℕ) : Type 0 where
    pub old : All (λ j. j < n) is
    pub own : All (λ j. father nodes j ≡ some i) is
    pub ascends : Ascends 0 is
    pub few : length is ≤ n

  weaken : (n : ℕ) (is : List ℕ) → All (λ j. j < n) is → All (λ j. j < suc n) is
  weaken n [] h = tt
  weaken n (j ∷ js) h = (omega (arith, h.0), weaken n js h.1)

  IsKids-grown :
      (n f : ℕ)
      → IsKids n f (kids nodes n f)
      → father nodes n ≡ some f
      → IsKids (suc n) f (kids nodes (suc n) f)
  IsKids-grown n f ih h = rw (kids_own n f h) (record {
    old =
        All-append (λ j. j < suc n) (kids nodes n f) (n ∷ []) (weaken n (kids nodes n f) ih.old)
          (omega arith, tt);
    own = All-append (λ j. father nodes j ≡ some f) (kids nodes n f) (n ∷ []) ih.own (h, tt);
    ascends = Ascends-append 0 n (kids nodes n f) (omega arith) ih.ascends ih.old;
    few = omega (arith, ih.few, length-append (kids nodes n f) (n ∷ []));
  })

  pub kids-IsKids : (n i : ℕ) → IsKids n i (kids nodes n i)
  kids-IsKids zero i = unfold kids in record { old = tt; own = tt; ascends = tt; few = omega arith }
  kids-IsKids (suc n) i =
      let ih = kids-IsKids n i in
      let kept : IsKids (suc n) i (kids nodes n i) = record {
        old = weaken n (kids nodes n i) ih.old;
        own = ih.own;
        ascends = ih.ascends;
        few = omega (arith, ih.few);
      } in
      elim (Option-cases (father nodes n)) [
        | inl h ↦ rw (kids_unowned n i h) kept
        | inr (f, h) ↦ elim (Bool-cases (i == f)) [
          | inr e ↦ rw (kids_other n f i h (λ q. ==→ne i f e q)) kept
          | inl e ↦ rw (==→eq i f e) (IsKids-grown n f (kids-IsKids n f) h)
        ]
      ]
