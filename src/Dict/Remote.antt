-- ===== src/Dict/Remote.antt =====
-- homework/hw11: the lookups that ask a server (11-1/lookup7.c, 11-2/lookup8.c, 11-3/lookup9.c)
-- and the servers (11-1/usock_server.c, 11-2/isock_server.c, 11-3/udp_server.c).
pub mod Dialogue
pub mod Servers
use linux_programming.Base.{
  ℕ, zero, suc, Bool, true, false, List, [], ◌∷◌, ◌++◌, Option, none, some, if◌then◌else◌, length,
  take, drop, ◌&&◌,
}
use linux_programming.Cstr.{Bytes, streq, strcpy}
use linux_programming.Dict.Record.{
  Dictrec, Answer, found, notfound, unavail, Call, returns, dies, faults, text_str, record_bytes,
  word_size, text_size, record_size,
}

-- "XXXX"
abbrev pub marker : Bytes
marker = 88 ∷ 88 ∷ 88 ∷ 88 ∷ []

-- `recv` of these bytes into a record: it writes over the record's first bytes.
unfoldable pub received : Dictrec → Bytes → Dictrec
received d message =
    let got = take record_size message in
    let bytes = got ++ drop (length got) (record_bytes d) in
    record { word = take word_size bytes; text = take text_size (drop word_size bytes) }

-- What the calls of the system give in one `lookup`; a `recv` of no bytes is a closed connection.
pub record Net : Type 0 where
  pub host_known : Bool
  pub socket_made : Bool
  pub connected : Bool
  pub sent : Bool
  pub reply : Option Bytes

-- The `if (first_time)` of lookup7, lookup8 and lookup9: whether it gets through.
abbrev pub setup7 : Net → Bool
setup7 net = net.socket_made && net.connected

abbrev pub setup8 : Net → Bool
setup8 net = net.host_known && (net.socket_made && net.connected)

abbrev pub setup9 : Net → Bool
setup9 net = net.host_known && net.socket_made

-- The query, the reply and its reading.
unfoldable pub ask : Bool → Option Bytes → Dictrec → Call (Answer × Dictrec)
unfolding received
ask sent reply sought =
    if sent
    then (elim reply [
      | none ↦ dies
      | some message ↦
          let sought' = received sought message in
          returns ((if streq (text_str sought') marker then notfound else found), sought')
    ])
    else dies

-- The three lookups; the state is `first_time`.
abbrev asked : Call (Answer × Dictrec) → Call (Bool × Answer × Dictrec)
asked (returns (a, d)) = returns (false, a, d)
asked dies = dies
asked faults = faults

unfoldable pub lookup7 : Net → Bool → Dictrec → Call (Bool × Answer × Dictrec)
unfolding ask
lookup7 net first_time sought =
    if (if first_time then setup7 net else true)
    then asked (ask net.sent net.reply sought)
    else dies

unfoldable pub lookup8 : Net → Bool → Dictrec → Call (Bool × Answer × Dictrec)
unfolding ask
lookup8 net first_time sought =
    if (if first_time then setup8 net else true)
    then asked (ask net.sent net.reply sought)
    else dies

unfoldable pub lookup9 : Net → Bool → Dictrec → Call (Bool × Answer × Dictrec)
unfolding ask
lookup9 net first_time sought =
    if (if first_time then setup9 net else true)
    then asked (ask net.sent net.reply sought)
    else dies

-- The servers link one of the local lookups: its state and itself are parameters.
module _ {S : Type 0} (lookup : S → Dictrec → Call (S × Answer × Dictrec)) where
  -- The `switch (lookup(&tryit, argv[1]))`: the record to send.
  unfoldable pub respond : S → Dictrec → Call (S × Dictrec)
  respond s tryit = elim (lookup s tryit) [
    | dies ↦ dies
    | faults ↦ faults
    | returns (s', a, d) ↦ elim a [
      | found ↦ returns (s', d)
      | notfound ↦ elim (strcpy d.text marker) [
        | none ↦ faults
        | some array ↦ returns (s', record { word = d.word; text = array })
      ]
      | unavail ↦ dies
    ]
  ]
