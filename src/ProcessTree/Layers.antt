-- ===== src/ProcessTree/Layers.antt =====
-- The outer loop of `printProcessTree`, and `main`.
use linux_programming.Base.{
  ℕ, zero, suc, ◌+◌, ◌<◌, ◌≤◌, ◌≡◌, ◌≢◌, ◌⊎◌, inl, inr, refl, sym, ap, ◌∙◌, List, [], ◌∷◌, ◌++◌,
  none, some, length, All, arith, Option-cases, put_at, put_at-same, put_at-cases, sum_below,
  sum_below-put_at, sum_below-bound,
}
use mathlib.Core.Option.{some-injective}
use linux_programming.Cstr.{codes}
use linux_programming.ProcessTree.{
  Node, Links, Entry, find_pid, father, new_root, sort_node, collect, build_process_tree,
}
use linux_programming.ProcessTree.Sorting.{IsVisited, sort_node-IsVisited}
use linux_programming.ProcessTree.Fathers.{find_pid-none}
use linux_programming.ProcessTree.Pointers.{father-bound, child-father}
use linux_programming.ProcessTree.Ends.{print_siblings-ends_all}
use linux_programming.ProcessTree.Rows.{Once, HasDepth}
use linux_programming.ProcessTree.Places.{IsPlaced, IsTree, IsTree-empty, IsTree-layer}
use linux_programming.ProcessTree.Print.{
  Line, print_siblings, print_layers, depth_fuel, width_fuel, print_process_tree, text_of, main,
}

module _ (nodes : List Node) (t : Links) (v : IsVisited nodes (length nodes) t) where
  -- The marks on the nodes that the outer loop has been at: all but the first have a parent there.
  record IsMarked (first : ℕ) (f : ℕ → ℕ) (i : ℕ) : Type 0 where
    pub once : (j : ℕ) → f j ≤ 1
    pub fresh : f i ≡ 0
    pub descends :
        (j : ℕ)
        → (j ≡ i) ⊎ (f j ≡ 1)
        → (j ≡ first) ⊎ ((p : ℕ) × (father nodes j ≡ some p) × (f p ≡ 1))

  print_layers-null :
      (fuel count : ℕ)
      → 0 < fuel
      → print_layers fuel (width_fuel (length nodes)) t count none ≡ some []
  unfolding print_layers
  print_layers-null zero count h = absurd (omega (arith, h))
  print_layers-null (suc fuel) count h = refl

  layers_step :
      (fuel count i : ℕ) (row more : List Line)
      → print_siblings (width_fuel (length nodes)) t count (t.sibling i) ≡ some row
      → print_layers fuel (width_fuel (length nodes)) t (count + 1) (t.child i) ≡ some more
      → print_layers (suc fuel) (width_fuel (length nodes)) t count (some i)
        ≡ some ((0, i) ∷ (row ++ more))
  unfolding print_layers
  layers_step fuel count i row more r q = rw (r, q) refl

  module _ (root first : ℕ) (of : father nodes first ≡ some root)
      (top : father nodes root ≡ none) where
    -- The child of the node that the loop is at has no mark: no chain of parents comes back.
    child_fresh :
        (f : ℕ → ℕ) (i c : ℕ) → IsMarked first f i → father nodes c ≡ some i → (c ≢ i) × (f c ≡ 0)
    child_fresh f i c m e =
        let above : (j : ℕ)
            → (j ≡ i) ⊎ (f j ≡ 1)
            → father nodes j ≡ some i
            → (j ≡ first) × (i ≡ root) =
          λ j h q. elim (m.descends j h) [
            | inl w ↦ (w, some-injective _ _ (sym q ∙ ap (father nodes) w ∙ of))
            | inr (p, fa, mark) ↦
                absurd (omega (arith, mark, m.fresh, ap f (some-injective _ _ (sym fa ∙ q))))
          ] in
        (
          λ w.
              let q : father nodes i ≡ some i = sym (ap (father nodes) w) ∙ e in
              let r = above i (inl refl) q in absurd cc (q, top, ap (father nodes) r.1),
          elim (zero_or_one (f c) (m.once c)) [
            | inl z ↦ z
            | inr o ↦
                let (here, up) = above c (inr o) e in
                elim (m.descends i (inl refl)) [
                  | inl w ↦ absurd (omega (arith, m.fresh, o, ap f w, ap f here))
                  | inr (p, fa, mark) ↦ absurd cc (fa, top, ap (father nodes) up)
                ]
          ],
        )
      where
        zero_or_one : (n : ℕ) → n ≤ 1 → (n ≡ 0) ⊎ (n ≡ 1)
        zero_or_one zero h = inl refl
        zero_or_one (suc zero) h = inr refl
        zero_or_one (suc (suc n)) h = absurd (omega (arith, h))

    IsMarked-child :
        (f : ℕ → ℕ) (i c : ℕ)
        → IsMarked first f i
        → father nodes c ≡ some i
        → IsMarked first (put_at f i (f i + 1)) c
    IsMarked-child f i c m e =
        let (apart, fresh) = child_fresh f i c m e in
        let f' = put_at f i (f i + 1) in
        let kept : (j : ℕ)
            → (j ≡ first) ⊎ ((p : ℕ) × (father nodes j ≡ some p) × (f p ≡ 1))
            → (j ≡ first) ⊎ ((p : ℕ) × (father nodes j ≡ some p) × (f' p ≡ 1)) =
          λ j h. elim h [
            | inl w ↦ inl w
            | inr (p, fa, mark) ↦ inr (
              p,
              fa,
              elim (put_at-cases f i (f i + 1) p) [
                | inl w ↦ absurd (omega (arith, m.fresh, mark, ap f w.0))
                | inr w ↦ w.1 ∙ mark
              ],
            )
          ] in
        record {
          once = λ j. elim (put_at-cases f i (f i + 1) j) [
            | inl w ↦ omega (arith, w.1, m.fresh)
            | inr w ↦ omega (arith, w.1, m.once j)
          ];
          fresh = elim (put_at-cases f i (f i + 1) c) [
            | inl w ↦ absurd (apart (sym w.0))
            | inr w ↦ w.1 ∙ fresh
          ];
          descends = λ j h. elim h [
            | inl w ↦
                inr
                  (i, ap (father nodes) w ∙ e, put_at-same f i (f i + 1) ∙ ap (λ n. n + 1) m.fresh)
            | inr mark ↦ elim (put_at-cases f i (f i + 1) j) [
              | inl w ↦ kept j (m.descends j (inl (sym w.0)))
              | inr w ↦ kept j (m.descends j (inr (sym w.1 ∙ mark)))
            ]
          ];
        }

    print_layers-ends :
        (fuel count i p : ℕ) (f : ℕ → ℕ)
        → IsMarked first f i
        → i < length nodes
        → length nodes + 1 < fuel + sum_below (length nodes) f
        → father nodes i ≡ some p
        → HasDepth nodes count p
        → (ls : List Line) × (print_layers fuel (width_fuel (length nodes)) t count (some i)
            ≡ some ((0, i) ∷ ls))
          × IsTree nodes (suc count) ((0, i) ∷ ls)
    print_layers-ends zero count i p f m l h up d =
        absurd (omega (arith, h, sum_below-bound (length nodes) 1 f m.once))
    print_layers-ends (suc fuel) count i p f m l h up d =
        let (row, r, is_row) = print_siblings-ends_all nodes t v count i p up in
        let total = sum_below-put_at (length nodes) f i 1 l in
        let next : count + 1 ≡ suc count = omega arith in
        elim (Option-cases (t.child i)) [
          | inl z ↦ (
            row ++ [],
            layers_step fuel count i row [] r (
                rw z (
                  print_layers-null fuel (count + 1)
                    (omega (arith, h, sum_below-bound (length nodes) 1 f m.once)))),
            IsTree-layer nodes count p i row [] d is_row (IsTree-empty nodes (suc (suc count))),
          )
          | inr (c, z) ↦
              let e = child-father nodes t v i c z in
              let deeper : HasDepth nodes (count + 1) i = rw next (p, up, d) in
              let (more, q, tree) =
                print_layers-ends fuel (count + 1) c i (put_at f i (f i + 1))
                  (IsMarked-child f i c m e) (father-bound nodes t v c i e)
                  (omega (arith, h, total)) e deeper in
              let below : IsTree nodes (suc (suc count)) ((0, c) ∷ more) = rw next at tree in
              (
                row ++ ((0, c) ∷ more),
                layers_step fuel count i row ((0, c) ∷ more) r (rw z q),
                IsTree-layer nodes count p i row ((0, c) ∷ more) d is_row below,
              )
        ]

    print_process_tree-ends :
        first < length nodes
        → (ls : List Line) × (print_process_tree (length nodes) t (some first)
            ≡ some ((0, first) ∷ ls))
          × IsTree nodes 1 ((0, first) ∷ ls)
    print_process_tree-ends l =
        unfold print_process_tree in
        print_layers-ends (depth_fuel (length nodes)) 0 first root (λ j. 0)
          (record {
            once = λ j. omega arith;
            fresh = refl;
            descends = λ j h. elim h [ inl w ↦ inl w | inr w ↦ absurd (omega (arith, w)) ];
          })
          l (omega arith) of top

first_father : (n : Node) (ns : List Node) → n.ppid ≡ some 0 → father (new_root ∷ n ∷ ns) 1 ≡ some 0
unfolding father find_pid
first_father n ns e = rw (father, e) refl

root_fatherless : (ns : List Node) → father (new_root ∷ ns) 0 ≡ none
unfolding father
root_fatherless ns = find_pid-none (new_root ∷ ns)

main_lem :
    (entries : List Entry) (n : Node) (ns : List Node) (t : Links) (ls : List Line)
    → collect entries ≡ some (n ∷ ns)
    → sort_node (n ∷ ns) ≡ some t
    → print_process_tree (suc (suc (length ns))) t (some 1) ≡ some ls
    → main entries ≡ some (codes "Process Tree:\n" ++ text_of (new_root ∷ n ∷ ns) ls)
unfolding main build_process_tree
main_lem entries n ns t ls e s r = rw (e, s, r) refl

-- Where the first process that is read has the parent 0, as pid 1 has, `main` ends, whatever the
-- other parents are, and follows no pointer that is not set. It prints that process first and no
-- process twice; and each line has no indentation, or one that is one less than the number of
-- parents above the process.
pub main-ends :
    (entries : List Entry) (n : Node) (ns : List Node)
    → collect entries ≡ some (n ∷ ns)
    → n.ppid ≡ some 0
    → (ls : List Line) × (main entries
        ≡ some (codes "Process Tree:\n" ++ text_of (new_root ∷ n ∷ ns) ((0, 1) ∷ ls)))
      × All (IsPlaced (new_root ∷ n ∷ ns)) ls
      × Once ((0, 1) ∷ ls)
main-ends entries n ns e p =
    let (t, sorted, v) = sort_node-IsVisited (n ∷ ns) in
    let (ls, r, tree) =
      print_process_tree-ends (new_root ∷ n ∷ ns) t v 0 1 (first_father n ns p)
        (root_fatherless (n ∷ ns)) (omega arith) in
    (ls, main_lem entries n ns t ((0, 1) ∷ ls) e sorted r, tree.placed.1, tree.once)
