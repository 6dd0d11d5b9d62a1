-- ===== src/Dict/Record/Padded.antt =====
-- Arrays that hold a string and zeros behind it: what is written into an array of zeros.
use linux_programming.Base.{
  ℕ, zero, suc, ◌+◌, ◌-◌, ◌<◌, ◌≤◌, ◌≡◌, refl, [], ◌∷◌, ◌++◌, some, arith, length, drop, replicate,
  lt→ltb, length-append, length-replicate,
}
use mathlib.Core.List.{append_assoc}
use linux_programming.Cstr.{Bytes, c_str, strcpy, strcat}
use linux_programming.Cstr.Arrays.{IsString, c_str-append_nul}

-- An array of `n` bytes with the string `s` in it and zeros behind.
abbrev pub padded : ℕ → Bytes → Bytes
padded n s = s ++ replicate (n - length s) 0

pub length-padded : (n : ℕ) (s : Bytes) → length s ≤ n → length (padded n s) ≡ n
length-padded n s h =
    omega (
      arith,
      length-append s (replicate (n - length s) 0),
      length-replicate {A = ℕ} (n - length s) 0,
    )

drop-replicate : (k m : ℕ) → drop k (replicate {A = ℕ} m 0) ≡ replicate (m - k) 0
drop-replicate zero m = let e : m - 0 ≡ m = omega arith in rw e refl
drop-replicate (suc k) zero = let e : 0 - suc k ≡ 0 = omega arith in rw e refl
drop-replicate (suc k) (suc m) =
    let e : suc m - suc k ≡ m - k = omega arith in rw e (drop-replicate k m)

drop-past : (k : ℕ) (s t : Bytes) → length s ≤ k → drop k (s ++ t) ≡ drop (k - length s) t
drop-past k [] t h = let e : k - 0 ≡ k = omega arith in rw e refl
drop-past zero (c ∷ s) t h = absurd (omega arith)
drop-past (suc k) (c ∷ s) t h =
    let e : suc k - suc (length s) ≡ k - length s = omega arith in
    rw e (drop-past k s t (omega arith))

strcpy_room :
    (n m : ℕ) (s u : Bytes)
    → length s ≤ length u
    → n ≡ length u + suc m
    → strcpy (padded n s) u ≡ some (padded n u)
unfolding strcpy
strcpy_room n m s u h k =
    let size : n - length u ≡ suc m = omega arith in
    let gap : n - length s - (length u + 1 - length s) ≡ m = omega arith in
    rw (lt→ltb (length u) (length (padded n s)) (omega (arith, length-padded n s (omega arith)))) (
      rw
        (
          drop-past (length u + 1) s (replicate (n - length s) 0) (omega arith),
          drop-replicate (length u + 1 - length s) (n - length s),
          gap,
          size,
        )
        refl)

-- A longer string written over a shorter one.
pub strcpy-padded :
    (n : ℕ) (s u : Bytes)
    → length s ≤ length u
    → length u < n
    → strcpy (padded n s) u ≡ some (padded n u)
strcpy-padded n s u h k = strcpy_room n (n - length u - 1) s u h (omega arith)

pub c_str-padded : (n : ℕ) (s : Bytes) → IsString s → length s < n → c_str (padded n s) ≡ s
c_str-padded n s str h =
    let size : n - length s ≡ suc (n - length s - 1) = omega arith in
    rw size (c_str-append_nul s (replicate (n - length s - 1) 0) str)

pub strcat-padded :
    (n : ℕ) (s u : Bytes)
    → IsString s
    → length s + length u < n
    → strcat (padded n s) u ≡ some (padded n (s ++ u))
unfolding strcat
strcat-padded n s u str h = rw (c_str-padded n s str (omega arith)) (
    strcpy-padded n s (s ++ u) (omega (arith, length-append s u))
      (omega (arith, length-append s u)))

pub c_str-padded_append :
    (n : ℕ) (s rest : Bytes) → IsString s → length s < n → c_str (padded n s ++ rest) ≡ s
c_str-padded_append n s rest str h =
    let size : n - length s ≡ suc (n - length s - 1) = omega arith in
    rw (append_assoc s (replicate (n - length s) 0) rest)
      (rw size (c_str-append_nul s (replicate (n - length s - 1) 0 ++ rest) str))
