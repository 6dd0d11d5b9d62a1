-- ===== src/ProcessTree/Places.antt =====
-- The layers of `printProcessTree` one below the other: each line at its depth, and no node twice.
use linux_programming.Base.{
  ℕ, suc, ◌≤◌, ◌≡◌, ◌≢◌, ◌⊎◌, inl, inr, refl, List, [], ◌∷◌, ◌++◌, All, All-append, arith,
}
use linux_programming.ProcessTree.{Node}
use linux_programming.ProcessTree.Print.{Line}
use linux_programming.ProcessTree.Rows.{
  Once, Once-append, All-map, HasDepth, HasDepth-unique, IsBeyond-HasDepth, IsRow,
}

module _ (nodes : List Node) where
  -- A line without indentation, or one of a node whose depth is the indentation and one.
  abbrev pub IsPlaced : Line → Type 0
  IsPlaced l = (l.0 ≡ 0) ⊎ HasDepth nodes (suc l.0) l.1

  abbrev IsDeep : ℕ → Line → Type 0
  IsDeep k l = (e : ℕ) × (k ≤ e) × HasDepth nodes e l.1

  -- The lines from a layer of this depth on.
  pub record IsTree (k : ℕ) (ls : List Line) : Type 0 where
    pub placed : All IsPlaced ls
    pub deep : All (IsDeep k) ls
    pub once : Once ls

  pub IsTree-empty : (k : ℕ) → IsTree k []
  IsTree-empty k = record { placed = tt; deep = tt; once = tt }

  indented_lines-IsPlaced :
      (k : ℕ) (row : List Line)
      → All (λ l. l.0 ≡ k) row
      → All (λ l. HasDepth nodes (suc k) l.1) row
      → All IsPlaced row
  indented_lines-IsPlaced k [] a b = tt
  indented_lines-IsPlaced k (l ∷ row) a b =
      (inr (rw a.0 b.0), indented_lines-IsPlaced k row a.1 b.1)

  deeper : (k : ℕ) (l m : Line) → HasDepth nodes k l.1 → IsDeep (suc k) m → l.1 ≢ m.1
  deeper k l m h (e, less, d) q = omega (arith, less, HasDepth-unique nodes k e m.1 (rw q at h) d)

  -- A row and the layers below it.
  pub IsTree-layer :
      (k p i : ℕ) (row more : List Line)
      → HasDepth nodes k p
      → IsRow nodes k p i ((k, i) ∷ row)
      → IsTree (suc (suc k)) more
      → IsTree (suc k) ((0, i) ∷ (row ++ more))
  IsTree-layer k p i row more h r below =
      let depth : All (λ l. HasDepth nodes (suc k) l.1) ((k, i) ∷ row) =
        All-map ((k, i) ∷ row) (λ l b. IsBeyond-HasDepth nodes k p i l.1 b h) r.beyond in
      let apart : (l : Line) → HasDepth nodes (suc k) l.1 → All (λ m. l.1 ≢ m.1) more =
        λ l d. All-map more (λ m e. deeper (suc k) l m d e) below.deep in
      record {
        placed = (
          inl refl,
          All-append IsPlaced row more (indented_lines-IsPlaced k row r.indented.1 depth.1)
              below.placed,
        );
        deep = (
          (suc k, omega arith, depth.0),
          All-append (IsDeep (suc k)) row more
              (All-map row (λ l d. (suc k, omega arith, d)) depth.1)
              (All-map more (λ l d. (d.0, omega (arith, d.1), d.2)) below.deep),
        );
        once =
            Once-append ((0, i) ∷ row) more r.once below.once
              (apart (0, i) depth.0, All-map row apart depth.1);
      }
