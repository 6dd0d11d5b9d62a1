-- ===== src/Exercises/Size.antt =====
-- printdir.c finds a buffer that is large enough.
use linux_programming.Base.{
  ℕ, zero, suc, ◌+◌, ◌*◌, ◌<◌, ◌≤◌, ◌≡◌, ◌⊎◌, inl, inr, refl, Bool, true, some, length, arith,
}
use linux_programming.Cstr.{Bytes}
use linux_programming.Kernel.Defs.{Reply, ok, fail}
use linux_programming.Shell.Builtin.{erange}
use linux_programming.Exercises.{printed, print_dir}

lt_or_ge : (a b : ℕ) → (a < b) ⊎ (b ≤ a)
lt_or_ge a zero = inr (omega arith)
lt_or_ge zero (suc b) = inl (omega arith)
lt_or_ge (suc a) (suc b) = elim (lt_or_ge a b) [
  | inl h ↦ inl (omega (arith, h))
  | inr h ↦ inr (omega (arith, h))
]

module _ (malloc : ℕ → Bool) (getcwd : ℕ → Reply Bytes) (dir : Bytes)
    (memory : (size : ℕ) → malloc size ≡ true)
    (room : (size : ℕ) → length dir < size → getcwd size ≡ ok dir)
    (small : (size : ℕ) → size ≤ length dir → getcwd size ≡ fail erange) where
  print_dir-from :
      (fuel size : ℕ)
      → length dir + 1 < fuel + size
      → 0 < fuel
      → 0 < size
      → (size ≡ 256) ⊎ (size ≤ 2 * length dir)
      → (last : ℕ) × (print_dir malloc getcwd fuel size ≡ some (printed dir last))
        × (length dir < last)
        × ((last ≡ 256) ⊎ (last ≤ 2 * length dir))
  unfolding print_dir
  print_dir-from zero size h f p b = absurd (omega (arith, f))
  print_dir-from (suc fuel) size h f p b = elim (lt_or_ge (length dir) size) [
    | inl fits ↦ (size, rw (print_dir, memory size, room size fits) refl, fits, b)
    | inr less ↦
        let (last, e, fits, bound) =
          print_dir-from fuel (size * 2) (omega (arith, h, p)) (omega (arith, h, less))
            (omega (arith, p)) (inr (omega (arith, less))) in
        (last, rw (print_dir, memory size, small size less, e) refl, fits, bound)
  ]

  -- Where memory is there, `getcwd` gives the directory to a buffer that has room for it and a
  -- NUL, and fails with ERANGE otherwise: the loop ends within as many rounds as the directory has
  -- bytes and one more, and prints it, from the first buffer of 256 bytes or from one of at most
  -- twice the directory's length.
  pub print_dir-ends :
      (last : ℕ) × (print_dir malloc getcwd (length dir + 1) 256 ≡ some (printed dir last))
      × (length dir < last)
      × ((last ≡ 256) ⊎ (last ≤ 2 * length dir))
  print_dir-ends =
      print_dir-from (length dir + 1) 256 (omega arith) (omega arith) (omega arith) (inl refl)
