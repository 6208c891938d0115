-- ===== src/Rabbit/Connections.antt =====
-- The connections and channels that `connect` of messaging/rabbitmq/rabbitmq.go leaves open.
use idp_sdk.Common.{
  ℕ, ◌+◌, ◌<◌, String, ◌≡◌, refl, ◌∙◌, Option, none, some, arith, GoError, Result, ok, err,
}
use idp_sdk.Rabbit.{Config, Amqp, Held, declared, with_channel, with_connection, connect}

-- The open connections and channels, as the library counts them: closing a connection counts also
-- where it returns an error.
pub record Ledger (q : Amqp) (connections channels : q.World → ℕ) : Type 0 where
  pub dials :
      (url : String) (w : q.World) (conn : q.Connection)
      → (q.dial url w).0 ≡ ok conn
      → connections (q.dial url w).1 ≡ connections w + 1
  pub dial_fails :
      (url : String) (w : q.World) (e : GoError)
      → (q.dial url w).0 ≡ err e
      → connections (q.dial url w).1 ≡ connections w
  pub channels_dial : (url : String) (w : q.World) → channels (q.dial url w).1 ≡ channels w
  pub opens :
      (conn : q.Connection) (w : q.World) (ch : q.Channel)
      → (q.channel conn w).0 ≡ ok ch
      → channels (q.channel conn w).1 ≡ channels w + 1
  pub open_fails :
      (conn : q.Connection) (w : q.World) (e : GoError)
      → (q.channel conn w).0 ≡ err e
      → channels (q.channel conn w).1 ≡ channels w
  pub connections_channel :
      (conn : q.Connection) (w : q.World) → connections (q.channel conn w).1 ≡ connections w
  pub connections_declare :
      (ch : q.Channel) (name : String) (w : q.World)
      → connections (q.exchange_declare ch name w).1 ≡ connections w
  pub channels_declare :
      (ch : q.Channel) (name : String) (w : q.World)
      → channels (q.exchange_declare ch name w).1 ≡ channels w
  pub closes_channel :
      (ch : q.Channel) (w : q.World)
      → 0 < channels w
      → channels (q.close_channel ch w) + 1 ≡ channels w
  pub connections_close_channel :
      (ch : q.Channel) (w : q.World) → connections (q.close_channel ch w) ≡ connections w
  pub closes :
      (conn : q.Connection) (w : q.World)
      → 0 < connections w
      → connections (q.close conn w).1 + 1 ≡ connections w
  pub channels_close :
      (conn : q.Connection) (w : q.World) → channels (q.close conn w).1 ≡ channels w

-- One of each for a client, and none for an error.
abbrev pub kept_open : {Held : Type 0} → Result Held → ℕ
kept_open (ok held) = 1
kept_open (err e) = 0

module _ (q : Amqp) (connections channels : q.World → ℕ) (t : Ledger q connections channels)
    (cfg : Config) where
  -- From n connections and m channels.
  abbrev pub Leaves : ℕ → ℕ → Result (Held q) × q.World → Type 0
  Leaves n m r = (connections r.1 ≡ n + kept_open r.0) × (channels r.1 ≡ m + kept_open r.0)

  declared-Leaves :
      (n m : ℕ) (conn : q.Connection) (ch : q.Channel) (o : Option GoError × q.World)
      → connections o.1 ≡ n + 1
      → channels o.1 ≡ m + 1
      → Leaves n m (declared q cfg conn ch o)
  declared-Leaves n m conn ch (none, w) a b = (a, b)
  declared-Leaves n m conn ch (some e, w) a b =
      let one = t.connections_close_channel ch w in
      let two = t.closes_channel ch w (omega (arith, b)) in
      let w' = q.close_channel ch w in
      let three = t.closes conn w' (omega (arith, a, one)) in
      (omega (arith, a, one, three), omega (arith, b, two, t.channels_close conn w'))

  with_channel-Leaves :
      (n m : ℕ) (conn : q.Connection) (r : Result q.Channel × q.World)
      → connections r.1 ≡ n + 1
      → ((ch : q.Channel) → r.0 ≡ ok ch → channels r.1 ≡ m + 1)
      → ((e : GoError) → r.0 ≡ err e → channels r.1 ≡ m)
      → Leaves n m (with_channel q cfg conn r)
  with_channel-Leaves n m conn (err e, w) a opens fails = (
    omega (arith, a, t.closes conn w (omega (arith, a))),
    omega (arith, fails e refl, t.channels_close conn w),
  )
  with_channel-Leaves n m conn (ok ch, w) a opens fails =
      declared-Leaves n m conn ch (q.exchange_declare ch cfg.exchange w)
        (t.connections_declare ch cfg.exchange w ∙ a)
        (t.channels_declare ch cfg.exchange w ∙ opens ch refl)

  with_connection-Leaves :
      (n m : ℕ) (r : Result q.Connection × q.World)
      → ((conn : q.Connection) → r.0 ≡ ok conn → connections r.1 ≡ n + 1)
      → ((e : GoError) → r.0 ≡ err e → connections r.1 ≡ n)
      → channels r.1 ≡ m
      → Leaves n m (with_connection q cfg r)
  with_connection-Leaves n m (err e, w) dials fails b =
      (fails e refl ∙ omega arith, omega (arith, b))
  with_connection-Leaves n m (ok conn, w) dials fails b =
      with_channel-Leaves n m conn (q.channel conn w)
        (t.connections_channel conn w ∙ dials conn refl)
        (λ ch e. omega (arith, b, t.opens conn w ch e)) (λ x e. t.open_fails conn w x e ∙ b)

  -- The library counting as documented, a connection attempt leaves one connection and one channel
  -- open where it succeeds, and none where any of its three calls fails.
  pub connect-Leaves : (w : q.World) → Leaves (connections w) (channels w) (connect q cfg w)
  unfolding connect
  connect-Leaves w =
      with_connection-Leaves (connections w) (channels w) (q.dial cfg.url w) (t.dials cfg.url w)
        (t.dial_fails cfg.url w) (t.channels_dial cfg.url w)
