-- ===== src/Cstr/Numbers.antt =====
-- Decimal numbers in text: what `%d` prints of a number that is not negative, and what `atoi`
-- reads of a string that starts with a digit.
use linux_programming.Base.{ℕ, zero, suc, ◌+◌, ◌-◌, ◌*◌, ◌/◌, ◌%◌, [], ◌∷◌, ltb, if◌then◌else◌}
use linux_programming.Cstr.{Bytes, is_digit}

-- The digits of `n` in front of `rest`; `n + 1` rounds are enough.
unfoldable pub decimal_onto : ℕ → ℕ → Bytes → Bytes
decimal_onto zero n rest = rest
decimal_onto (suc fuel) n rest =
    let more = decimal_onto fuel (n / 10) ((b'0' + n % 10) ∷ rest) in
    if ltb n 10 then (b'0' + n) ∷ rest else more

unfoldable pub decimal : ℕ → Bytes
unfolding decimal_onto
decimal n = decimal_onto (n + 1) n []

-- The number that the leading digits make, behind those read so far.
unfoldable pub read_digits : ℕ → Bytes → ℕ
read_digits acc [] = acc
read_digits acc (c ∷ cs) =
    let more = read_digits (acc * 10 + (c - b'0')) cs in if is_digit c then more else acc
