-- ===== src/ProcessTree/Fuel.antt =====
-- The loop over the lines of a status file, and its fuel.
use linux_programming.Base.{ℕ, zero, suc, ◌<◌, ◌≡◌, inl, inr, refl, arith, length, Option-cases}
use linux_programming.Cstr.{Bytes, codes, fgets}
use linux_programming.Cstr.Streams.{fgets-shorter}
use linux_programming.ProcessTree.{scan, read_status}

-- Every fuel above the length of the file gives the same: the loop ends with the file.
read_status_fuel :
    (m n : ℕ) (command stream : Bytes)
    → length stream < m
    → length stream < n
    → read_status m command stream ≡ read_status n command stream
unfolding read_status
read_status_fuel zero n command stream h k = absurd (omega (arith, h))
read_status_fuel (suc m) zero command stream h k = absurd (omega (arith, k))
read_status_fuel (suc m) (suc n) command stream h k = elim (Option-cases (fgets 1024 stream)) [
  | inl e ↦ rw (read_status, e) refl
  | inr ((line, rest), e) ↦
      let less = fgets-shorter 1022 stream line rest e in
      let same : (c : Bytes) → read_status m c rest ≡ read_status n c rest =
        λ c. read_status_fuel m n c rest (omega (arith, h, less)) (omega (arith, k, less)) in
      elim (Option-cases (scan (codes "Name:") line)) [
        | inl a ↦ elim (Option-cases (scan (codes "PPid:") line)) [
          | inl b ↦ rw (read_status, e) (rw a (rw b (same command)))
          | inr (w, b) ↦ rw (read_status, e) (rw a (rw b refl))
        ]
        | inr (w, a) ↦ rw (read_status, e) (rw a (rw (same w) refl))
      ]
]
