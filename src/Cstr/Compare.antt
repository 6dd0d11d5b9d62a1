-- ===== src/Cstr/Compare.antt =====
-- String comparison: `strcmp(a, b) == 0` beside equality.
use linux_programming.Base.{
  ◌≡◌, refl, ap, ◌↔◌, ◌≢◌, true, false, [], ◌∷◌, arith, Bool-cases, inl, inr,
}
use linux_programming.Cstr.{Bytes, streq}

pub streq_refl : (a : Bytes) → streq a a ≡ true
unfolding streq
streq_refl [] = refl
streq_refl (x ∷ xs) = ground (arith, streq_refl xs)

pub streq→eq : (a b : Bytes) → streq a b ≡ true → a ≡ b
unfolding streq
streq→eq [] [] h = refl
streq→eq [] (y ∷ ys) h = cc
streq→eq (x ∷ xs) [] h = cc
streq→eq (x ∷ xs) (y ∷ ys) h = ground (arith, streq→eq xs ys)

pub streq_iff : (a b : Bytes) → (streq a b ≡ true) ↔ (a ≡ b)
streq_iff a b = (streq→eq a b, λ e. rw e (streq_refl b))

pub streq_ne : (a b : Bytes) → a ≢ b → streq a b ≡ false
streq_ne a b n = elim (Bool-cases (streq a b)) [ inl e ↦ absurd (n (streq→eq a b e)) | inr e ↦ e ]

pub ne_of_streq : (a b : Bytes) → streq a b ≡ false → a ≢ b
ne_of_streq a b h e = cc (streq_refl b, ap (λ x. streq x b) e)
