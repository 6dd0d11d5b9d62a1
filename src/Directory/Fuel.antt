-- ===== src/Directory/Fuel.antt =====
-- The loop of `display_event`, and its fuel.
use linux_programming.Base.{ℕ, zero, suc, ◌+◌, ◌-◌, ◌≤◌, ◌≡◌, refl, arith, drop, le→ltb}
use linux_programming.Cstr.{Bytes}
use linux_programming.Directory.{len_of, display}

display_step :
    (m n : ℕ) (ptr : Bytes) (left : ℕ)
    → display m (drop (len_of ptr) (drop 16 ptr)) (left - (16 + len_of ptr))
      ≡ display n (drop (len_of ptr) (drop 16 ptr)) (left - (16 + len_of ptr))
    → display (suc m) ptr left ≡ display (suc n) ptr left
display_step m n ptr left e = unfold display in rw (display, e) refl

-- Every fuel from the number of bytes that were read on gives the same, whatever the bytes are: the
-- loop comes to their end.
display_fuel :
    (m n : ℕ) (ptr : Bytes) (left : ℕ)
    → left ≤ m
    → left ≤ n
    → display m ptr left ≡ display n ptr left
display_fuel zero zero ptr left h k = refl
display_fuel zero (suc n) ptr left h k =
    let nothing = le→ltb 0 left (omega (arith, h)) in unfold display in rw (display, nothing) refl
display_fuel (suc m) zero ptr left h k =
    let nothing = le→ltb 0 left (omega (arith, k)) in unfold display in rw (display, nothing) refl
display_fuel (suc m) (suc n) ptr left h k = display_step m n ptr left (
    display_fuel m n (drop (len_of ptr) (drop 16 ptr)) (left - (16 + len_of ptr)) (omega (arith, h))
      (omega (arith, k)))
