-- ===== src/Queue/Tests.antt =====
-- A run of the queue servers, and each theorem at a concrete input.
use linux_programming.Base.{
  ℕ, ◌+◌, ◌<◌, ◌≡◌, refl, true, false, [], ◌∷◌, ◌++◌, map, arith, length, replicate,
  length-replicate,
}
use linux_programming.Cstr.{Bytes, codes}
use linux_programming.Cstr.Numbers.{read_digits}
use linux_programming.Queue.{starts_end, serve, serve_mq}
use linux_programming.Queue.Posix.{sent_for_mq, serve_mq-clients}
use linux_programming.Queue.Sums.{sent_for, IsNumber, sums, serve-clients}

-- Addition and `atoi` on texts of digits.
abbrev plus : ℕ → ℕ → ℕ
plus a b = a + b

abbrev atoi : Bytes → ℕ
atoi s = read_digits 0 s

abbrev array : Bytes
array = replicate 512 7

length-array : length array ≡ 512
length-array = length-replicate {A = ℕ} 512 7

no_nul : (c : ℕ) → 0 < c → c ≡ 0 → ⊥
no_nul c h e = absurd (omega arith)

number-12 : starts_end (codes "12") ≡ false
unfolding starts_end
number-12 = refl

end-end : starts_end (codes "end") ≡ true
unfolding starts_end
end-end = refl

IsNumber-12 : IsNumber (codes "12")
IsNumber-12 = ((no_nul _ (omega arith), (no_nul _ (omega arith), tt)), omega arith, number-12)

serve-clients_example :
    serve plus atoi [] 0
      (map (sent_for array) (codes "12" ∷ codes "12" ∷ []) ++ sent_for array (codes "end") ∷ [])
    ≡ (sums plus atoi 0 (codes "12" ∷ codes "12" ∷ []), true)
serve-clients_example =
    serve-clients plus atoi [] array 0 (codes "12" ∷ codes "12" ∷ []) (codes "end") [] length-array
      (IsNumber-12, (IsNumber-12, tt))
      (no_nul _ (omega arith), (no_nul _ (omega arith), (no_nul _ (omega arith), tt))) (omega arith)
      end-end

serve_mq-clients_example :
    serve_mq plus atoi 0
      (map sent_for_mq (codes "12" ∷ codes "12" ∷ []) ++ sent_for_mq (codes "end") ∷ [])
    ≡ (sums plus atoi 0 (codes "12" ∷ codes "12" ∷ []), true)
serve_mq-clients_example =
    serve_mq-clients plus atoi 0 (codes "12" ∷ codes "12" ∷ []) (codes "end") []
      ((IsNumber-12.0, number-12), ((IsNumber-12.0, number-12), tt))
      (no_nul _ (omega arith), (no_nul _ (omega arith), (no_nul _ (omega arith), tt))) end-end
