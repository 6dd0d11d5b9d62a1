-- ===== src/ProcessTree/Sorting.antt =====
-- What `sortNode` makes of the list of nodes: the chain of each node's children, and the parents.
use linux_programming.Base.{
  ℕ, zero, suc, ◌<◌, ◌≤◌, ◌≡◌, ◌≢◌, ◌⊎◌, inl, inr, refl, sym, ap, ◌∙◌, List, [], ◌∷◌, none, some,
  ◌==◌, length, All, arith, Bool-cases, Option-cases, ==→eq, ==→ne,
}
use mathlib.Core.Option.{some-injective}
use mathlib.Core.Path.{subst}
use linux_programming.ProcessTree.{
  Node, Links, unlinked, update, father, attach, visit, visit_first, new_root, sort_node,
}
use linux_programming.ProcessTree.Chains.{
  Chain, last_of, All-last_of, update-same, update-other, Chain-update, last_sibling-Chain,
  Chain-append,
}
use linux_programming.ProcessTree.Fathers.{fatherless, lt_or_le}
use linux_programming.ProcessTree.Kids.{
  kids, IsKids, kids_unowned, kids_own, kids_other, kids-IsKids,
}

List-cases : (is : List ℕ) → (is ≡ []) ⊎ ((c : ℕ) × (cs : List ℕ) × (is ≡ c ∷ cs))
List-cases [] = inl refl
List-cases (c ∷ cs) = inr (c, cs, refl)

module _ (nodes : List Node) where
  -- After `n` turns: each node's chain runs through its children among the first `n` nodes, the
  -- others stand in no chain, and the first `n` have got their parents.
  pub record IsVisited (n : ℕ) (t : Links) : Type 0 where
    pub chains : (i : ℕ) → Chain t.sibling (t.child i) (kids nodes n i)
    pub free : (j : ℕ) → n ≤ j → t.sibling j ≡ none
    pub parents : (j : ℕ) → j < n → t.parent j ≡ father nodes j
    pub rootless : (j : ℕ) → n ≤ j → t.parent j ≡ none
    pub lone : (j : ℕ) → father nodes j ≡ none → t.sibling j ≡ none

  -- Other parents have other children.
  apart :
      (n f i s : ℕ) (is : List ℕ)
      → i ≢ f
      → father nodes s ≡ some f
      → All (λ j. father nodes j ≡ some i) is
      → All (λ j. j ≢ s) is
  apart n f i s [] ne h own = tt
  apart n f i s (j ∷ js) ne h own = (
    λ e. ne (some-injective _ _ (sym own.0 ∙ ap (father nodes) e ∙ h)),
    apart n f i s js ne h own.1,
  )

  parents-update :
      (n f : ℕ) (t : Links)
      → IsVisited n t
      → father nodes n ≡ some f
      → ((j : ℕ) → j < suc n → update t.parent n f j ≡ father nodes j)
        × ((j : ℕ) → suc n ≤ j → update t.parent n f j ≡ none)
  parents-update n f t v h = (
    λ j l. elim (Bool-cases (j == n)) [
      | inl e ↦ rw (==→eq j n e) (update-same t.parent n f ∙ sym h)
      | inr e ↦
          update-other t.parent n f j (==→ne j n e) ∙ v.parents j (omega (arith, l, ==→ne j n e))
    ],
    λ j l. update-other t.parent n f j (λ e. omega (arith, l, e)) ∙ v.rootless j (omega (arith, l)),
  )

  -- The first child of its parent.
  visit_first_child :
      (n f : ℕ) (t : Links)
      → IsVisited n t
      → father nodes n ≡ some f
      → kids nodes n f ≡ []
      → (t' : Links) × (attach (length nodes) n f t ≡ some t') × IsVisited (suc n) t'
  visit_first_child n f t v h empty =
      let null : t.child f ≡ none = subst (λ l. Chain t.sibling (t.child f) l) empty (v.chains f) in
      let p = parents-update n f t v h in
      (
        record { child = update t.child f n; sibling = t.sibling; parent = update t.parent n f },
        unfold attach in rw (attach, null) refl,
        record {
          chains = λ i. elim (Bool-cases (i == f)) [
            | inl e ↦
                rw (==→eq i f e, kids_own nodes n f h, empty)
                  (update-same t.child f n, v.free n (omega arith))
            | inr e ↦
                rw
                  (kids_other nodes n f i h (==→ne i f e), update-other t.child f n i (==→ne i f e))
                  (v.chains i)
          ];
          free = λ j l. v.free j (omega (arith, l));
          parents = p.0;
          rootless = p.1;
          lone = v.lone;
        },
      )

  -- A child behind the last one of its parent.
  visit_further_child :
      (n f c : ℕ) (cs : List ℕ) (t : Links)
      → IsVisited n t
      → father nodes n ≡ some f
      → n < length nodes
      → kids nodes n f ≡ c ∷ cs
      → (t' : Links) × (attach (length nodes) n f t ≡ some t') × IsVisited (suc n) t'
  visit_further_child n f c cs t v h l some_kids =
      let chain : Chain t.sibling (t.child f) (c ∷ cs) =
        subst (λ is. Chain t.sibling (t.child f) is) some_kids (v.chains f) in
      let k : IsKids nodes n f (c ∷ cs) =
        subst (IsKids nodes n f) some_kids (kids-IsKids nodes n f) in
      let found = last_sibling-Chain (length nodes) t.sibling c cs (omega (arith, k.few)) chain.1 in
      let s = last_of c cs in
      let s_own : father nodes s ≡ some f = All-last_of (λ j. father nodes j ≡ some f) c cs k.own in
      let s_old : s < n = All-last_of (λ j. j < n) c cs k.old in
      let p = parents-update n f t v h in
      (
        record { child = t.child; sibling = update t.sibling s n; parent = update t.parent n f },
        unfold attach in rw (attach, chain.0, found) refl,
        record {
          chains = λ i. elim (Bool-cases (i == f)) [
            | inl e ↦
                rw (==→eq i f e, kids_own nodes n f h, some_kids)
                  (Chain-append t.sibling n c cs (t.child f) k.ascends k.old
                    (v.free n (omega arith)) chain)
            | inr e ↦ rw (kids_other nodes n f i h (==→ne i f e)) (
                Chain-update t.sibling s n (t.child i) (kids nodes n i)
                  (apart n f i s (kids nodes n i) (==→ne i f e) s_own (kids-IsKids nodes n i).own)
                  (v.chains i))
          ];
          free = λ j m.
              update-other t.sibling s n j (λ e. omega (arith, m, s_old, e))
              ∙ v.free j (omega (arith, m));
          parents = p.0;
          rootless = p.1;
          lone = λ j q.
              update-other t.sibling s n j (λ e. absurd cc (q, s_own, ap (father nodes) e))
              ∙ v.lone j q;
        },
      )

  visit-IsVisited :
      (n : ℕ) (t : Links)
      → IsVisited n t
      → n < length nodes
      → (t' : Links) × (visit nodes n t ≡ some t') × IsVisited (suc n) t'
  visit-IsVisited n t v l = elim (Option-cases (father nodes n)) [
    | inl h ↦ (
      t,
      unfold visit in rw (visit, h) refl,
      record {
        chains = λ i. rw (kids_unowned nodes n i h) (v.chains i);
        free = λ j m. v.free j (omega (arith, m));
        parents = λ j m. elim (Bool-cases (j == n)) [
          | inl e ↦ rw (==→eq j n e) (v.rootless n (omega arith) ∙ sym h)
          | inr e ↦ v.parents j (omega (arith, m, ==→ne j n e))
        ];
        rootless = λ j m. v.rootless j (omega (arith, m));
        lone = v.lone;
      },
    )
    | inr (f, h) ↦
        unfold visit in
        rw (visit, h)
          (elim (List-cases (kids nodes n f)) [
            | inl e ↦ visit_first_child n f t v h e
            | inr (c, cs, e) ↦ visit_further_child n f c cs t v h l e
          ])
  ]

  visit_first_step :
      (n : ℕ) (t t' : Links)
      → visit_first nodes n ≡ some t
      → visit nodes n t ≡ some t'
      → visit_first nodes (suc n) ≡ some t'
  visit_first_step n t t' e e' = unfold visit_first in rw (visit_first, e) e'

  visit_first-IsVisited :
      (n : ℕ) → n ≤ length nodes → (t : Links) × (visit_first nodes n ≡ some t) × IsVisited n t
  visit_first-IsVisited zero l = (
    unlinked,
    unfold visit_first in refl,
    unfold kids in
        record {
          chains = λ i. refl;
          free = λ j m. refl;
          parents = λ j m. absurd (omega (arith, m));
          rootless = λ j m. refl;
          lone = λ j q. refl;
        },
  )
  visit_first-IsVisited (suc n) l =
      let (t, e, v) = visit_first-IsVisited n (omega arith) in
      let (t', e', v') = visit-IsVisited n t v (omega arith) in
      (t', visit_first_step n t t' e e', v')

pub sort_node-IsVisited :
    (nodes : List Node)
    → (t : Links) × (sort_node nodes ≡ some t) × IsVisited (new_root ∷ nodes) (suc (length nodes)) t
sort_node-IsVisited nodes =
    let (t, e, v) = visit_first-IsVisited (new_root ∷ nodes) (suc (length nodes)) (omega arith) in
    (t, unfold sort_node in e, v)

-- `sortNode` ends on every list of nodes. The nodes that are then reached from a node by `child`
-- and on by `sibling` are all those that the search for a ppid gives it as their parent, each once
-- and in the order of the list, and each node's `parent` is what that search gives, unset where it
-- gives none.
pub sort_node-tree :
    (nodes : List Node)
    → (t : Links) × (sort_node nodes ≡ some t)
      × ((i : ℕ) → Chain t.sibling (t.child i) (kids (new_root ∷ nodes) (suc (length nodes)) i))
      × ((j : ℕ) → t.parent j ≡ father (new_root ∷ nodes) j)
sort_node-tree nodes =
    let (t, e, v) = sort_node-IsVisited nodes in
    let all : List Node = new_root ∷ nodes in
    (
      t,
      e,
      v.chains,
      λ j. elim (lt_or_le j (length all)) [
        | inl l ↦ v.parents j l
        | inr g ↦ v.rootless j g ∙ sym (fatherless all j g)
      ],
    )
