-- ===== src/ProcessTree/Ends.antt =====
-- The inner loop of `printProcessTree` comes to its end.
use linux_programming.Base.{
  ℕ, zero, suc, ◌+◌, ◌-◌, ◌*◌, ◌<◌, ◌≤◌, ◌≡◌, inl, inr, refl, sym, ◌∙◌, List, [], ◌∷◌, none, some,
  length, arith, Option-cases,
}
use linux_programming.ProcessTree.{Node, Links, father}
use linux_programming.ProcessTree.Sorting.{IsVisited}
use linux_programming.ProcessTree.Fathers.{father-listed}
use linux_programming.ProcessTree.Pointers.{father-bound, child-father, sibling-father}
use linux_programming.ProcessTree.Rows.{IsRow, IsRow-sibling, IsRow-jump, IsRow-last}
use linux_programming.ProcessTree.Print.{Line, print_siblings, width_fuel}

module _ (nodes : List Node) (t : Links) (v : IsVisited nodes (length nodes) t) where
  -- What is ahead of the inner loop at a node with this parent.
  abbrev ahead : ℕ → ℕ → ℕ
  ahead p i = (length nodes - p) * suc (length nodes) + (length nodes - i)

  le_mul : (k x y : ℕ) → x ≤ y → x * k ≤ y * k
  le_mul k zero y h = omega arith
  le_mul k (suc x) zero h = absurd (omega (arith, h))
  le_mul k (suc x) (suc y) h = omega (arith, le_mul k x y (omega (arith, h)))

  ahead_father :
      (k p q : ℕ) → p < q → p < length nodes → (length nodes - q) * k + k ≤ (length nodes - p) * k
  ahead_father k p q h l =
      omega (arith, le_mul k (suc (length nodes - q)) (length nodes - p) (omega (arith, h, l)))

  print_siblings-null : (fuel count : ℕ) → 0 < fuel → print_siblings fuel t count none ≡ some []
  unfolding print_siblings
  print_siblings-null zero count h = absurd (omega (arith, h))
  print_siblings-null (suc fuel) count h = refl

  print_siblings-ends :
      (fuel count i p : ℕ)
      → father nodes i ≡ some p
      → ahead p i + 1 < fuel
      → (ls : List Line) × (print_siblings fuel t count (some i) ≡ some ls)
        × IsRow nodes count p i ls
  unfolding print_siblings
  print_siblings-ends zero count i p e l = absurd (omega (arith, l))
  print_siblings-ends (suc fuel) count i p e l =
      let bound = father-bound nodes t v i p e in
      let par : t.parent i ≡ some p = v.parents i bound ∙ e in
      elim (Option-cases (t.sibling i)) [
        | inr (j, h) ↦
            let (f, same, e', later) = sibling-father nodes t v i j h in
            let e'' : father nodes j ≡ some p = e' ∙ sym same ∙ e in
            let (ls, r, row) =
              print_siblings-ends fuel count j p e'' (omega (arith, l, later, bound)) in
            (
              (count, i) ∷ ls,
              rw (print_siblings, h, r) refl,
              IsRow-sibling nodes count p i j ls e later row,
            )
        | inl h ↦ elim (Option-cases (t.sibling p)) [
          | inl g ↦
              ((count, i) ∷ [], rw (print_siblings, h, par, g) refl, IsRow-last nodes count p i e)
          | inr (q, g) ↦ elim (Option-cases (t.child q)) [
            | inl z ↦
                let r = print_siblings-null fuel count (omega (arith, l)) in
                (
                  (count, i) ∷ [],
                  rw (print_siblings, h, par, g, z, r) refl,
                  IsRow-last nodes count p i e,
                )
            | inr (c, z) ↦
                let (f, own, own', later) = sibling-father nodes t v p q g in
                let less =
                  ahead_father (suc (length nodes)) p q later (father-listed nodes i p e) in
                let (ls, r, row) =
                  print_siblings-ends fuel count c q (child-father nodes t v q c z)
                    (omega (arith, l, less)) in
                (
                  (count, i) ∷ ls,
                  rw (print_siblings, h, par, g, z, r) refl,
                  IsRow-jump nodes count p q i c ls e later (own' ∙ sym own) row,
                )
          ]
        ]
      ]

  -- A layer from its first node on, with the lines that follow.
  pub print_siblings-ends_all :
      (count i p : ℕ)
      → father nodes i ≡ some p
      → (ls : List Line) × (print_siblings (width_fuel (length nodes)) t count (t.sibling i)
          ≡ some ls)
        × IsRow nodes count p i ((count, i) ∷ ls)
  print_siblings-ends_all count i p e = elim (Option-cases (t.sibling i)) [
    | inl h ↦ rw h ([], print_siblings-null _ count (omega arith), IsRow-last nodes count p i e)
    | inr (j, h) ↦
        let (f, own, own', later) = sibling-father nodes t v i j h in
        let e' : father nodes j ≡ some p = own' ∙ sym own ∙ e in
        let less = le_mul (suc (length nodes)) (length nodes - p) (length nodes) (omega arith) in
        let (ls, r, row) = print_siblings-ends _ count j p e' (omega (arith, less)) in
        rw h (ls, r, IsRow-sibling nodes count p i j ls e later row)
  ]
