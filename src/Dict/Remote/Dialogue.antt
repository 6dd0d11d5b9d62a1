-- ===== src/Dict/Remote/Dialogue.antt =====
-- A client's question, the server's answer and what the client makes of it.
use linux_programming.Base.{
  ℕ, ◌<◌, ◌≡◌, ◌≢◌, refl, ap, ◌∙◌, true, [], some, arith, length, take, drop, take-append, ◌⊎◌, inl,
  inr, if◌then◌else◌,
}
use mathlib.Core.List.{append-nil}
use linux_programming.Cstr.{Bytes, streq}
use linux_programming.Cstr.Arrays.{IsString, strcpy-fits}
use linux_programming.Cstr.Compare.{streq_refl, streq_ne}
use linux_programming.Dict.Record.{
  Dictrec, IsRecord, Answer, found, notfound, Call, returns, dies, faults, text_str, record_bytes,
  record_size,
}
use linux_programming.Dict.Record.Files.{first_of-record, length-record_bytes}
use linux_programming.Dict.Linear.Entries.{heard}
use linux_programming.Dict.Remote.{marker, received, ask, respond}

nul_ne : (c : ℕ) → 0 < c → c ≢ 0
nul_ne c h e = absurd (omega arith)

IsString-marker : IsString marker
IsString-marker = let n = nul_ne 88 (omega arith) in (n, (n, (n, (n, tt))))

take_all : (n : ℕ) (xs : Bytes) → length xs ≡ n → take n xs ≡ xs
take_all n xs e = rw (← e) (rw (append-nil xs) at (take-append {A = ℕ} xs []))

-- A whole record that is received replaces the one in memory.
pub received-record : (d r : Dictrec) → IsRecord r → received d (record_bytes r) ≡ r
unfolding received
received-record d r v =
    rw (received, take_all record_size (record_bytes r) (length-record_bytes r v))
      (first_of-record r (drop (length (record_bytes r)) (record_bytes d)) v)

module _ {S : Type 0} (lookup : S → Dictrec → Call (S × Answer × Dictrec)) where
  -- A question of a client that reaches the server as it was sent, and its answer the client.
  unfoldable pub remote : S → Dictrec → Call (S × Answer × Dictrec)
  unfolding respond ask
  remote s sought = elim (respond lookup s sought) [
    | dies ↦ dies
    | faults ↦ faults
    | returns (s', r) ↦ elim (ask true (some (record_bytes r)) sought) [
      | dies ↦ dies
      | faults ↦ faults
      | returns (a, d) ↦ returns (s', a, d)
    ]
  ]

  remote_sends :
      (s s' : S) (sought r : Dictrec)
      → IsRecord r
      → respond lookup s sought ≡ returns (s', r)
      → remote s sought ≡ returns (s', (if streq (text_str r) marker then notfound else found), r)
  unfolding remote ask
  remote_sends s s' sought r v e =
      rw (remote, e)
        (ap (λ x. returns (s', (if streq (text_str x) marker then notfound else found), x))
          (received-record sought r v))

  remote-found :
      (s s' : S) (sought d : Dictrec)
      → IsRecord d
      → lookup s sought ≡ returns (s', found, d)
      → text_str d ≢ marker
      → heard (remote s sought) ≡ heard (lookup s sought)
  unfolding respond
  remote-found s s' sought d v e n =
      rw (remote_sends s s' sought d v (rw (respond, e) refl), e)
        (rw (streq_ne (text_str d) marker n) refl)

  remote-notfound :
      (s s' : S) (sought d : Dictrec)
      → IsRecord d
      → lookup s sought ≡ returns (s', notfound, d)
      → heard (remote s sought) ≡ heard (lookup s sought)
  unfolding respond
  remote-notfound s s' sought d v e =
      let (array, copied, size, string) =
        strcpy-fits d.text marker (omega (arith, v.text_fits)) IsString-marker in
      let v' : IsRecord (record { word = d.word; text = array }) = record {
        word_fits = v.word_fits;
        text_fits = size ∙ v.text_fits;
      } in
      rw
        (
          remote_sends s s' sought (record { word = d.word; text = array }) v'
              (rw (respond, e, copied) refl),
          e,
        )
        (rw (string, streq_refl marker) refl)

  -- A client and its server: where the lookup that the server uses answers NOTFOUND, or FOUND with
  -- a text other than "XXXX", the client's lookup gives the same answer with the same text. The
  -- question and the reply are taken to arrive whole.
  pub remote-lookup :
      (s s' : S) (sought d : Dictrec) (a : Answer)
      → lookup s sought ≡ returns (s', a, d)
      → IsRecord d
      → (a ≡ notfound) ⊎ ((a ≡ found) × (text_str d ≢ marker))
      → heard (remote s sought) ≡ heard (lookup s sought)
  remote-lookup s s' sought d a e v (inl n) = remote-notfound s s' sought d v (rw n at e)
  remote-lookup s s' sought d a e v (inr (f, n)) = remote-found s s' sought d v (rw f at e) n

-- Nothing is received: the record in memory stays.
received_none : (d : Dictrec) → IsRecord d → received d [] ≡ d
unfolding received
received_none d v = rw (append-nil (record_bytes d)) at (first_of-record d [] v)

-- A server that closes the connection in place of a reply: `recv` gives 0, and the client's
-- lookup answers FOUND with the record as it was asked, unless that has the text "XXXX".
pub ask-closed :
    (d : Dictrec)
    → IsRecord d
    → ask true (some []) d ≡ returns ((if streq (text_str d) marker then notfound else found), d)
unfolding ask
ask-closed d v =
    ap (λ x. returns ((if streq (text_str x) marker then notfound else found), x))
      (received_none d v)
