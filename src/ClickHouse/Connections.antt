-- ===== src/ClickHouse/Connections.antt =====
-- The connections that `New` of database/clickhouse/clickhouse.go leaves open.
use idp_sdk.Common.{
  ℕ, ◌+◌, ◌<◌, ◌≡◌, refl, ◌∙◌, Option, none, some, ℤ, arith, GoError, Result, ok, err,
}
use idp_sdk.ClickHouse.{Config, Options, Driver, options, new, pinged, with_conn}

-- The open connections, as clickhouse-go counts them.
pub record Connections (d : Driver) (live : d.World → ℕ) : Type 0 where
  pub opens :
      (o : Options) (w : d.World) (conn : d.Conn)
      → (d.open_conn o w).0 ≡ ok conn
      → live (d.open_conn o w).1 ≡ live w + 1
  pub fails :
      (o : Options) (w : d.World) (e : GoError)
      → (d.open_conn o w).0 ≡ err e
      → live (d.open_conn o w).1 ≡ live w
  pub pings : (conn : d.Conn) (t : ℤ) (w : d.World) → live (d.ping conn t w).1 ≡ live w
  pub closes : (conn : d.Conn) (w : d.World) → 0 < live w → live (d.close conn w).1 + 1 ≡ live w

abbrev pub conns_of : {Conn : Type 0} → Result Conn → ℕ
conns_of (ok conn) = 1
conns_of (err e) = 0

module _ (d : Driver) (live : d.World → ℕ) (t : Connections d live) where
  pinged-live :
      (n : ℕ) (conn : d.Conn) (o : Option GoError × d.World)
      → live o.1 ≡ n + 1
      → live (pinged d conn o).1 ≡ n + conns_of (pinged d conn o).0
  pinged-live n conn (none, w) more = more
  pinged-live n conn (some e, w) more = omega (arith, more, t.closes conn w (omega (arith, more)))

  with_conn-live :
      (n : ℕ) (timeout : ℤ) (r : Result d.Conn × d.World)
      → ((conn : d.Conn) → r.0 ≡ ok conn → live r.1 ≡ n + 1)
      → ((e : GoError) → r.0 ≡ err e → live r.1 ≡ n)
      → live (with_conn d timeout r).1 ≡ n + conns_of (with_conn d timeout r).0
  with_conn-live n timeout (err e, w) opens fails = fails e refl ∙ omega arith
  with_conn-live n timeout (ok conn, w) opens fails =
      pinged-live n conn (d.ping conn timeout w) (t.pings conn timeout w ∙ opens conn refl)

  -- clickhouse-go counting connections as documented, New leaves one open exactly when it returns
  -- one: where the first ping fails, the connection is closed.
  pub new-live :
      (cfg : Config) (w : d.World) → live (new d cfg w).1 ≡ live w + conns_of (new d cfg w).0
  unfolding new
  new-live cfg w =
      let o = options cfg in
      with_conn-live (live w) o.dial_timeout (d.open_conn o w) (t.opens o w) (t.fails o w)
