-- ===== src/ProcessTree/Rows.antt =====
-- The lines that a layer of `printProcessTree` consists of.
use linux_programming.Base.{
  ℕ, zero, suc, ◌<◌, ◌≤◌, ◌≡◌, ◌≢◌, ◌⊎◌, inl, inr, refl, sym, ap, ◌∙◌, List, [], ◌∷◌, ◌++◌, none,
  some, All, All-append, arith,
}
use mathlib.Core.Option.{some-injective}
use linux_programming.ProcessTree.{Node, father}
use linux_programming.ProcessTree.Print.{Line}

-- No node stands in two of the lines.
abbrev pub Once : List Line → Type 0
Once [] = Unit
Once (l ∷ ls) = All (λ m. l.1 ≢ m.1) ls × Once ls

pub All-map :
    {P Q : Line → Type 0} (ls : List Line) → ((l : Line) → P l → Q l) → All P ls → All Q ls
All-map [] h a = tt
All-map (l ∷ ls) h a = (h l a.0, All-map ls h a.1)

pub Once-append :
    (ls ms : List Line)
    → Once ls
    → Once ms
    → All (λ l. All (λ m. l.1 ≢ m.1) ms) ls
    → Once (ls ++ ms)
Once-append [] ms a b h = b
Once-append (l ∷ ls) ms a b h =
    (All-append (λ m. l.1 ≢ m.1) ls ms a.0 h.0, Once-append ls ms a.1 b h.1)

module _ (nodes : List Node) where
  -- So many parents stand above the node.
  abbrev pub HasDepth : ℕ → ℕ → Type 0
  HasDepth zero x = father nodes x ≡ none
  HasDepth (suc d) x = (p : ℕ) × (father nodes x ≡ some p) × HasDepth d p

  pub HasDepth-unique : (d e x : ℕ) → HasDepth d x → HasDepth e x → d ≡ e
  HasDepth-unique zero zero x h k = refl
  HasDepth-unique zero (suc e) x h (p, f, k) = absurd cc
  HasDepth-unique (suc d) zero x (p, f, h) k = absurd cc
  HasDepth-unique (suc d) (suc e) x (p, f, h) (q, g, k) =
      ap suc (HasDepth-unique d e p h (rw (some-injective _ _ (sym g ∙ f)) at k))

  HasDepth-same : (d x y : ℕ) → father nodes x ≡ father nodes y → HasDepth d x → HasDepth d y
  HasDepth-same zero x y e h = sym e ∙ h
  HasDepth-same (suc d) x y e (p, f, h) = (p, sym e ∙ f, h)

  -- A node in the walk from the node `i`, whose parent is `p`: a later child of `p`, or a child of
  -- a later child of p's parent.
  abbrev pub IsBeyond : ℕ → ℕ → ℕ → Type 0
  IsBeyond p i x =
      (f : ℕ) × (father nodes x ≡ some f)
      × (((f ≡ p) × (i ≤ x)) ⊎ ((p < f) × (father nodes f ≡ father nodes p)))

  pub IsBeyond-HasDepth : (d p i x : ℕ) → IsBeyond p i x → HasDepth d p → HasDepth (suc d) x
  IsBeyond-HasDepth d p i x (f, e, inl (s, l)) h = (f, e, rw s h)
  IsBeyond-HasDepth d p i x (f, e, inr (l, s)) h = (f, e, HasDepth-same d p f (sym s) h)

  IsBeyond-later :
      (p i j x : ℕ) → father nodes i ≡ some p → i < j → IsBeyond p j x → IsBeyond p i x × (i ≢ x)
  IsBeyond-later p i j x e h (f, own, inl (s, l)) =
      ((f, own, inl (s, omega (arith, h, l))), λ q. omega (arith, h, l, q))
  IsBeyond-later p i j x e h (f, own, inr (l, s)) = (
    (f, own, inr (l, s)),
    λ q. omega (arith, l, some-injective _ _ (sym e ∙ ap (father nodes) q ∙ own)),
  )

  IsBeyond-jump :
      (p q i c x : ℕ)
      → father nodes i ≡ some p
      → p < q
      → father nodes q ≡ father nodes p
      → IsBeyond q c x
      → IsBeyond p i x × (i ≢ x)
  IsBeyond-jump p q i c x e h same (f, own, inl (s, l)) = (
    (f, own, inr (rw s h, ap (father nodes) s ∙ same)),
    λ r. omega (arith, h, s, some-injective _ _ (sym e ∙ ap (father nodes) r ∙ own)),
  )
  IsBeyond-jump p q i c x e h same (f, own, inr (l, s)) = (
    (f, own, inr (omega (arith, h, l), s ∙ same)),
    λ r. omega (arith, h, l, some-injective _ _ (sym e ∙ ap (father nodes) r ∙ own)),
  )

  -- The lines of a walk from `i`, indented by `count`.
  pub record IsRow (count p i : ℕ) (ls : List Line) : Type 0 where
    pub indented : All (λ l. l.0 ≡ count) ls
    pub beyond : All (λ l. IsBeyond p i l.1) ls
    pub once : Once ls

  -- A row goes on at the next sibling.
  pub IsRow-sibling :
      (count p i j : ℕ) (ls : List Line)
      → father nodes i ≡ some p
      → i < j
      → IsRow count p j ls
      → IsRow count p i ((count, i) ∷ ls)
  IsRow-sibling count p i j ls e h r = record {
    indented = (refl, r.indented);
    beyond = (
      (p, e, inl (refl, omega arith)),
      All-map ls (λ l b. (IsBeyond-later p i j l.1 e h b).0) r.beyond,
    );
    once = (All-map ls (λ l b. (IsBeyond-later p i j l.1 e h b).1) r.beyond, r.once);
  }

  -- Or at the first child of the parent's next sibling.
  pub IsRow-jump :
      (count p q i c : ℕ) (ls : List Line)
      → father nodes i ≡ some p
      → p < q
      → father nodes q ≡ father nodes p
      → IsRow count q c ls
      → IsRow count p i ((count, i) ∷ ls)
  IsRow-jump count p q i c ls e h same r = record {
    indented = (refl, r.indented);
    beyond = (
      (p, e, inl (refl, omega arith)),
      All-map ls (λ l b. (IsBeyond-jump p q i c l.1 e h same b).0) r.beyond,
    );
    once = (All-map ls (λ l b. (IsBeyond-jump p q i c l.1 e h same b).1) r.beyond, r.once);
  }

  pub IsRow-last : (count p i : ℕ) → father nodes i ≡ some p → IsRow count p i ((count, i) ∷ [])
  IsRow-last count p i e = record {
    indented = (refl, tt);
    beyond = ((p, e, inl (refl, omega arith)), tt);
    once = (tt, tt);
  }
