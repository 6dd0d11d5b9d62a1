-- ===== src/Listings/Fuel.antt =====
-- The loop over the lines of a status file, and its fuel.
use linux_programming.Base.{
  ℕ, zero, suc, ◌<◌, ◌≡◌, inl, inr, refl, Option, arith, length, Bool-cases, Option-cases,
}
use linux_programming.Cstr.{Bytes, codes, fgets}
use linux_programming.Cstr.Streams.{fgets-shorter}
use linux_programming.ProcessTree.{scan}
use linux_programming.Listings.{status_command, is_user, without_last}

-- Every fuel above the length of the file gives the same: the loop ends with the file.
status_command_fuel :
    (user : Option ℕ) (m n : ℕ) (command stream : Bytes)
    → length stream < m
    → length stream < n
    → status_command m user command stream ≡ status_command n user command stream
unfolding status_command
status_command_fuel user zero n command stream h k = absurd (omega (arith, h))
status_command_fuel user (suc m) zero command stream h k = absurd (omega (arith, k))
status_command_fuel user (suc m) (suc n) command stream h k =
    elim (Option-cases (fgets 256 stream)) [
      | inl e ↦ rw (status_command, e) refl
      | inr ((line, rest), e) ↦
          let less = fgets-shorter 254 stream line rest e in
          let same : (c : Bytes) → status_command m user c rest ≡ status_command n user c rest =
            λ c.
              status_command_fuel user m n c rest (omega (arith, h, less))
                (omega (arith, k, less)) in
          elim (Option-cases (scan (codes "Uid:") line)) [
            | inr (u, a) ↦ elim (Bool-cases (is_user user u)) [
              | inl b ↦ rw (status_command, e) (rw a (rw b refl))
              | inr b ↦ rw (status_command, e) (rw a (rw b (same command)))
            ]
            | inl a ↦ elim (Option-cases (scan (codes "Name:") line)) [
              | inl b ↦ rw (status_command, e) (rw a (rw b (same command)))
              | inr (w, b) ↦ rw (status_command, e) (rw a (rw b (same (without_last w))))
            ]
          ]
    ]
