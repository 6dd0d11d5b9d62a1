-- ===== src/Queue/Sums.antt =====
-- The counts that the queue servers print.
use linux_programming.Base.{
  ℕ, ◌<◌, ◌≡◌, refl, ◌∙◌, true, false, List, [], ◌∷◌, ◌++◌, map, Option, none, some, arith, length,
  All, Bool-cases, inl, inr,
}
use linux_programming.Cstr.{Bytes, c_str}
use linux_programming.Cstr.Arrays.{IsString, strcpy-fits}
use linux_programming.Queue.{
  is_end, starts_end, Client, usage, failed, sent, client, serve, serve_mq,
}

-- MAX_TEXT of the client.
abbrev pub max_text : ℕ
max_text = 512

-- The messages that arrive.
abbrev pub arrived : List (Option Bytes) → List Bytes
arrived [] = []
arrived (none ∷ ms) = arrived ms
arrived (some m ∷ ms) = m ∷ arrived ms

-- What the queue gives for a client that is run with this argument.
abbrev pub delivered : Option Client → Option Bytes
delivered none = none
delivered (some usage) = none
delivered (some failed) = none
delivered (some (sent m)) = some m

abbrev pub sent_for : Bytes → Bytes → Option Bytes
sent_for text arg = delivered (client text (some arg) true true)

sent_for-string :
    (text arg : Bytes)
    → length text ≡ max_text
    → IsString arg
    → length arg < max_text
    → (m : Bytes) × (sent_for text arg ≡ some m) × (c_str m ≡ arg)
unfolding client
sent_for-string text arg l str h =
    let (array, copied, size, string) = strcpy-fits text arg (omega arith) str in
    (array, (rw (client, copied) refl), string)

-- An argument that fits and does not start with "end".
abbrev pub IsNumber : Bytes → Type 0
IsNumber arg = IsString arg × (length arg < max_text) × (starts_end arg ≡ false)

module _ {Int : Type 0} (plus : Int → Int → Int) (atoi : Bytes → Int) where
  -- The sums so far, from before the first number to after the last.
  unfoldable pub sums : Int → List Bytes → List Int
  sums count [] = count ∷ []
  sums count (a ∷ args) = count ∷ sums (plus count (atoi a)) args

  serve_number :
      (text m : Bytes) (count : Int) (ms : List (Option Bytes))
      → is_end m ≡ false
      → serve plus atoi text count (some m ∷ ms) ≡ (
        count ∷ (serve plus atoi m (plus count (atoi (c_str m))) ms).0,
        (serve plus atoi m (plus count (atoi (c_str m))) ms).1,
      )
  unfolding serve
  serve_number text m count ms e = rw (serve, e) refl

  serve_end :
      (text m : Bytes) (count : Int) (ms : List (Option Bytes))
      → is_end m ≡ true
      → serve plus atoi text count (some m ∷ ms) ≡ (count ∷ [], true)
  unfolding serve
  serve_end text m count ms e = rw (serve, e) refl

  -- Clients that are run with numbers as their arguments, and then one whose argument starts with
  -- "end", all of which fit the array: where every message arrives, in order, the server of 46-2
  -- prints 0 and the sums so far, one behind each number, and ends. What `data` and the array hold
  -- at first, and what is still in the queue, make no difference.
  pub serve-clients :
      (text array : Bytes) (count : Int) (args : List Bytes) (last : Bytes)
      (ms : List (Option Bytes))
      → length array ≡ max_text
      → All IsNumber args
      → IsString last
      → length last < max_text
      → starts_end last ≡ true
      → serve plus atoi text count (map (sent_for array) args ++ sent_for array last ∷ ms)
        ≡ (sums count args, true)
  unfolding sums
  serve-clients text array count [] last ms l h str f e =
      let (m, got, string) = sent_for-string array last l str f in
      rw got (serve_end text m count ms (rw string e))
  serve-clients text array count (a ∷ args) last ms l h str f e =
      let (m, got, string) = sent_for-string array a l h.0.0 h.0.1 in
      let k = serve-clients m array (plus count (atoi a)) args last ms l h.1 str f e in
      rw got (
        serve_number text m count (map (sent_for array) args ++ sent_for array last ∷ ms)
          (rw string h.0.2)
        ∙ rw (string, k) refl)

  -- The server of 52-3 skips what fails: it prints what the server of 46-2 prints on the messages
  -- that arrive.
  pub serve_mq-serve :
      (ms : List (Option Bytes)) (text : Bytes) (count : Int)
      → serve_mq plus atoi count ms ≡ serve plus atoi text count (map some (arrived ms))
  unfolding serve serve_mq
  serve_mq-serve [] text count = refl
  serve_mq-serve (none ∷ ms) text count = serve_mq-serve ms text count
  serve_mq-serve (some m ∷ ms) text count = elim (Bool-cases (is_end m)) [
    | inl e ↦ rw (serve, serve_mq, e) refl
    | inr e ↦
        let k = serve_mq-serve ms m (plus count (atoi (c_str m))) in rw (serve, serve_mq, e, k) refl
  ]
