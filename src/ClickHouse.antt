-- ===== src/ClickHouse.antt =====
-- database/clickhouse/clickhouse.go: the connection pool with its defaults, and the batch insert.
-- clickhouse-go is not part of the repository: a record of calls over a state of the outside world,
-- to which the effects of the callback belong. A timeout stands for the context that it is set on.
-- Durations are in nanoseconds.
pub mod Batches
pub mod Connections
mod Tests
use idp_sdk.Common.{
  ℕ, zero, suc, ◌+◌, ◌-◌, ◌*◌, ◌/◌, ◌%◌, ◌^◌, ◌≤◌, ◌<◌, String, ◌≡◌, ◌≢◌, refl, sym, ap, ◌∙◌, ◌↔◌,
  ◌⊎◌, inl, inr, Bool, true, false, not, ◌&&◌, ◌||◌, Option, none, some, List, [], ◌∷◌, map, ℤ, pos,
  negsuc, arith, eq_iff, ◌==◌, eqb, ltb, leb, ◌<>◌, if◌then◌else◌, GoError, Result, ok, err,
  Bool-cases, Option-cases, ok-injective,
}
use idp_sdk.Common.Failure.{wrap_with}
use idp_sdk.Common.Int.{positive_or}

pub record Config : Type 0 where
  pub addr : List String
  pub database : String
  pub username : String
  pub password : String
  pub secure : Bool
  pub dial_timeout : ℤ
  pub max_open_conns : ℤ
  pub max_idle_conns : ℤ

-- The fields of a `*clickhouse.Options` that the code sets; `tls` tells whether TLS is not nil.
pub record Options : Type 0 where
  pub addr : List String
  pub database : String
  pub username : String
  pub password : String
  pub dial_timeout : ℤ
  pub max_open_conns : ℤ
  pub max_idle_conns : ℤ
  pub tls : Bool

pub record Driver : Type 1 where
  pub World : Type 0
  pub Conn : Type 0
  pub Batch : Type 0
  pub open_conn : Options → World → Result Conn × World
  pub ping : Conn → ℤ → World → Option GoError × World
  pub close : Conn → World → Option GoError × World
  pub prepare_batch : Conn → String → World → Result Batch × World
  pub send : Batch → World → Option GoError × World
  -- `%q` of a string
  pub quote : String → String

unfoldable pub options : Config → Options
options cfg = record {
  addr = cfg.addr;
  database = cfg.database;
  username = cfg.username;
  password = cfg.password;
  dial_timeout = positive_or cfg.dial_timeout (pos 5_000_000_000);
  max_open_conns = positive_or cfg.max_open_conns (pos 10);
  max_idle_conns = positive_or cfg.max_idle_conns (pos 5);
  tls = cfg.secure;
}

module _ (d : Driver) where
  abbrev pinged : d.Conn → Option GoError × d.World → Result d.Conn × d.World
  pinged conn (some e, w) =
      (err (wrap_with "clickhouse: initial ping failed: " e), (d.close conn w).1)
  pinged conn (none, w) = (ok conn, w)

  abbrev with_conn : ℤ → Result d.Conn × d.World → Result d.Conn × d.World
  with_conn dial_timeout (err e, w) = (err (wrap_with "clickhouse: opening connection: " e), w)
  with_conn dial_timeout (ok conn, w) = pinged conn (d.ping conn dial_timeout w)

  unfoldable pub new : Config → d.World → Result d.Conn × d.World
  new cfg w = let opts = options cfg in with_conn opts.dial_timeout (d.open_conn opts w)

  unfoldable pub check : d.Conn → ℤ → d.World → Option GoError × d.World
  check db timeout w = d.ping db timeout w

  abbrev pub Fill : Type 0
  Fill = d.Batch → d.World → Option GoError × d.World

  abbrev sent : Option GoError × d.World → Option GoError × d.World
  sent (some e, w) = (some (wrap_with "clickhouse: sending batch: " e), w)
  sent (none, w) = (none, w)

  abbrev filled : d.Batch → Option GoError × d.World → Option GoError × d.World
  filled batch (some e, w) = (some (wrap_with "clickhouse: filling batch: " e), w)
  filled batch (none, w) = sent (d.send batch w)

  abbrev prepared : String → Fill → Result d.Batch × d.World → Option GoError × d.World
  prepared query fill (err e, w) =
      (some (wrap_with ("clickhouse: preparing batch for " <> d.quote query <> ": ") e), w)
  prepared query fill (ok batch, w) = filled batch (fill batch w)

  unfoldable pub batch_insert : d.Conn → String → Fill → d.World → Option GoError × d.World
  batch_insert db query fill w = prepared query fill (d.prepare_batch db query w)
