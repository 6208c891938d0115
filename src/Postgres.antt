-- ===== src/Postgres.antt =====
-- database/postgres/postgres.go: the pool with its defaults, and the transaction helper.
-- pgx is not part of the repository: a record of calls over a state of the outside world. A timeout
-- stands for the context that it is set on. Durations are in nanoseconds.
pub mod Transactions
pub mod Pools
mod Tests
use idp_sdk.Common.{
  ℕ, zero, suc, ◌+◌, ◌-◌, ◌*◌, ◌/◌, ◌%◌, ◌^◌, ◌≤◌, ◌<◌, String, ◌≡◌, ◌≢◌, refl, sym, ap, ◌∙◌, ◌↔◌,
  ◌⊎◌, inl, inr, Bool, true, false, not, ◌&&◌, ◌||◌, Option, none, some, List, [], ◌∷◌, map, ℤ, pos,
  negsuc, arith, eq_iff, ◌==◌, eqb, ltb, leb, ◌<>◌, if◌then◌else◌, GoError, Result, ok, err,
  Bool-cases, Option-cases, ok-injective,
}
use idp_sdk.Common.Failure.{wrap_with}
use idp_sdk.Common.Int.{positive_or}

pub record Config : Type 0 where
  pub dsn : String
  pub max_conns : ℤ
  pub min_conns : ℤ
  pub conn_timeout : ℤ
  pub max_conn_lifetime : ℤ
  pub min_conn_lifetime : ℤ

-- The fields of a `*pgxpool.Config` that the code sets.
pub record PoolSettings : Type 0 where
  pub max_conns : ℤ
  pub min_conns : ℤ
  pub max_conn_lifetime : ℤ
  pub max_conn_idle_time : ℤ
  pub health_check_period : ℤ
  pub connect_timeout : ℤ

pub record Pgx : Type 1 where
  pub World : Type 0
  -- a parsed DSN, a pool and a transaction
  pub Parsed : Type 0
  pub Pool : Type 0
  pub Tx : Type 0
  pub parse_config : String → Result Parsed
  pub new_with_config : Parsed → PoolSettings → World → Result Pool × World
  pub ping : Pool → ℤ → World → Option GoError × World
  pub close : Pool → World → World
  pub begin : Pool → World → Result Tx × World
  pub commit : Tx → World → Option GoError × World
  pub rollback : Tx → World → Option GoError × World

-- `orDefault` and `orDefaultDuration` are both `positive_or`.
unfoldable pub pool_settings : Config → PoolSettings
pool_settings cfg = record {
  max_conns = positive_or cfg.max_conns (pos 20);
  min_conns = positive_or cfg.min_conns (pos 2);
  max_conn_lifetime = positive_or cfg.max_conn_lifetime (pos 1_800_000_000_000);
  max_conn_idle_time = positive_or cfg.min_conn_lifetime (pos 300_000_000_000);
  health_check_period = pos 60_000_000_000;
  connect_timeout = positive_or cfg.conn_timeout (pos 5_000_000_000);
}

-- How a call ends: it returns nil or an error, or it panics with a value.
pub data Outcome : Type 0 where
  returned : Option GoError → Outcome
  panicked : String → Outcome

module _ (p : Pgx) where
  abbrev pinged : p.Pool → Option GoError × p.World → Result p.Pool × p.World
  pinged pool (some e, w) = (err (wrap_with "postgres: initial ping failed: " e), p.close pool w)
  pinged pool (none, w) = (ok pool, w)

  abbrev with_pool : PoolSettings → Result p.Pool × p.World → Result p.Pool × p.World
  with_pool settings (err e, w) = (err (wrap_with "postgres: creating pool: " e), w)
  with_pool settings (ok pool, w) = pinged pool (p.ping pool settings.connect_timeout w)

  abbrev with_parsed : PoolSettings → Result p.Parsed → p.World → Result p.Pool × p.World
  with_parsed settings (err e) w = (err (wrap_with "postgres: parsing DSN: " e), w)
  with_parsed settings (ok parsed) w = with_pool settings (p.new_with_config parsed settings w)

  unfoldable pub new : Config → p.World → Result p.Pool × p.World
  new cfg w = with_parsed (pool_settings cfg) (p.parse_config cfg.dsn) w

  unfoldable pub check : p.Pool → ℤ → p.World → Option GoError × p.World
  check db timeout w = p.ping db timeout w

  -- The deferred function. A failed rollback is not told.
  abbrev settle_tx : p.Tx → Outcome × p.World → Outcome × p.World
  settle_tx tx (panicked v, w) = (panicked v, (p.rollback tx w).1)
  settle_tx tx (returned (some e), w) = (returned (some e), (p.rollback tx w).1)
  settle_tx tx (returned none, w) = let (failed, w') = p.commit tx w in (returned failed, w')

  abbrev with_begun :
      (p.Tx → p.World → Outcome × p.World) → Result p.Tx × p.World → Outcome × p.World
  with_begun fn (err e, w) = (returned (some (wrap_with "postgres: begin tx: " e)), w)
  with_begun fn (ok tx, w) = settle_tx tx (fn tx w)

  unfoldable pub with_tx :
      p.Pool → (p.Tx → p.World → Outcome × p.World) → p.World → Outcome × p.World
  with_tx db fn w = with_begun fn (p.begin db w)
