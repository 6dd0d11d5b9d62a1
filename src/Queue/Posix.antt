-- ===== src/Queue/Posix.antt =====
-- The client of homework/hw9/52-3, and the server there on what its clients send.
use linux_programming.Base.{
  ℕ, zero, suc, ◌+◌, ◌-◌, ◌<◌, ◌≡◌, refl, ap, ◌∙◌, Bool, true, false, List, [], ◌∷◌, ◌++◌, map,
  Option, none, some, if◌then◌else◌, length, take, replicate, set, All, arith,
}
use linux_programming.Cstr.{Bytes, c_str}
use linux_programming.Cstr.Arrays.{IsString, c_str-append_nul, c_str_whole}
use linux_programming.Queue.{is_end, starts_end, Client, usage, failed, sent, serve_mq}
use linux_programming.Queue.Sums.{max_text, sums}

-- `strncpy` of at most `n` bytes: those of the string, and NULs behind them.
unfoldable strncpy : ℕ → Bytes → Bytes
unfolding c_str
strncpy n s = take n (c_str s ++ replicate n 0)

-- `msgcontent`, with a NUL in its last place.
unfoldable pub msgcontent : Bytes → Bytes
unfolding strncpy
msgcontent arg = set (strncpy max_text arg) (max_text - 1) 0

-- `main` on `argv[1]`, if that is the only argument, and whether `mq_open` and `mq_send` work. The
-- bytes up to the NUL are sent, and the NUL.
unfoldable pub client_mq : Option Bytes → Bool → Bool → Client
unfolding msgcontent
client_mq none opens sends = usage
client_mq (some arg) opens sends =
    let text = msgcontent arg in
    if opens then (if sends then sent (take (length (c_str text) + 1) text) else failed) else failed

-- The message of a client whose calls work.
abbrev pub message_of : Client → Option Bytes
message_of usage = none
message_of failed = none
message_of (sent m) = some m

abbrev pub sent_for_mq : Bytes → Option Bytes
sent_for_mq arg = message_of (client_mq (some arg) true true)

-- A string with zeros behind it, cut off to an array with a NUL in its last place.
cut_off :
    (n k : ℕ) (s : Bytes)
    → n < k
    → (rest : Bytes) × (set (take (suc n) (s ++ replicate k 0)) n 0 ≡ take n s ++ 0 ∷ rest)
cut_off zero zero s h = absurd (omega (arith, h))
cut_off zero (suc k) [] h = ([], refl)
cut_off zero (suc k) (c ∷ s) h = ([], refl)
cut_off (suc n) zero s h = absurd (omega (arith, h))
cut_off (suc n) (suc k) [] h = (_, refl)
cut_off (suc n) (suc k) (c ∷ s) h =
    let (rest, e) = cut_off n (suc k) s (omega (arith, h)) in (rest, ap (◌∷◌ c) e)

take-IsString : (n : ℕ) (s : Bytes) → IsString s → IsString (take n s)
take-IsString zero s h = tt
take-IsString (suc n) [] h = tt
take-IsString (suc n) (c ∷ s) h = (h.0, take-IsString n s h.1)

take_nul : (s rest : Bytes) → take (length s + 1) (s ++ 0 ∷ rest) ≡ s ++ 0 ∷ []
take_nul [] rest = refl
take_nul (c ∷ s) rest =
    let more : suc (length s) + 1 ≡ suc (length s + 1) = omega arith in
    ap (λ n. take n (c ∷ (s ++ 0 ∷ rest))) more ∙ ap (◌∷◌ c) (take_nul s rest)

msgcontent-cut :
    (arg : Bytes)
    → IsString arg
    → (rest : Bytes) × (msgcontent arg ≡ take (max_text - 1) arg ++ 0 ∷ rest)
unfolding msgcontent strncpy
msgcontent-cut arg h = rw (c_str_whole arg h) (cut_off 511 512 arg (omega arith))

sent_for_mq-string :
    (arg : Bytes)
    → IsString arg
    → (m : Bytes) × (sent_for_mq arg ≡ some m) × (c_str m ≡ take (max_text - 1) arg)
unfolding client_mq
sent_for_mq-string arg h =
    let word = take (max_text - 1) arg in
    let str = take-IsString (max_text - 1) arg h in
    let (rest, e) = msgcontent-cut arg h in
    (
      word ++ 0 ∷ [],
      rw (e, c_str-append_nul word rest str, take_nul word rest) refl,
      c_str-append_nul word [] str,
    )

module _ {Int : Type 0} (plus : Int → Int → Int) (atoi : Bytes → Int) where
  serve_mq_number :
      (m : Bytes) (count : Int) (ms : List (Option Bytes))
      → is_end m ≡ false
      → serve_mq plus atoi count (some m ∷ ms) ≡ (
        count ∷ (serve_mq plus atoi (plus count (atoi (c_str m))) ms).0,
        (serve_mq plus atoi (plus count (atoi (c_str m))) ms).1,
      )
  unfolding serve_mq
  serve_mq_number m count ms e = rw (serve_mq, e) refl

  serve_mq_end :
      (m : Bytes) (count : Int) (ms : List (Option Bytes))
      → is_end m ≡ true
      → serve_mq plus atoi count (some m ∷ ms) ≡ (count ∷ [], true)
  unfolding serve_mq
  serve_mq_end m count ms e = rw (serve_mq, e) refl

  -- Clients that are run with strings of any length that do not start with "end", and then one
  -- whose argument does: where every message arrives, in order, the server of 52-3 prints 0 and the
  -- sums so far of the first 511 bytes of the arguments, and ends, whatever is still in the queue.
  pub serve_mq-clients :
      (count : Int) (args : List Bytes) (last : Bytes) (ms : List (Option Bytes))
      → All (λ a. IsString a × (starts_end (take (max_text - 1) a) ≡ false)) args
      → IsString last
      → starts_end (take (max_text - 1) last) ≡ true
      → serve_mq plus atoi count (map sent_for_mq args ++ sent_for_mq last ∷ ms)
        ≡ (sums plus atoi count (map (take (max_text - 1)) args), true)
  unfolding sums
  serve_mq-clients count [] last ms h str e =
      let (m, got, string) = sent_for_mq-string last str in
      rw got (serve_mq_end m count ms (rw string e))
  serve_mq-clients count (a ∷ args) last ms h str e =
      let (m, got, string) = sent_for_mq-string a h.0.0 in
      let k = serve_mq-clients (plus count (atoi (take (max_text - 1) a))) args last ms h.1 str e in
      rw got (
        serve_mq_number m count (map sent_for_mq args ++ sent_for_mq last ∷ ms) (rw string h.0.1)
        ∙ rw (string, k) refl)
