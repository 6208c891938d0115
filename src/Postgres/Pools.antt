-- ===== src/Postgres/Pools.antt =====
-- The pools that `New` of database/postgres/postgres.go leaves open.
use idp_sdk.Common.{
  ℕ, ◌+◌, ◌<◌, ◌≡◌, refl, ◌∙◌, Option, none, some, ℤ, arith, GoError, Result, ok, err,
}
use idp_sdk.Postgres.{Config, PoolSettings, Pgx, pool_settings, new, pinged, with_pool, with_parsed}

-- The open pools, as pgx counts them.
pub record Pools (p : Pgx) (live : p.World → ℕ) : Type 0 where
  pub creates :
      (parsed : p.Parsed) (s : PoolSettings) (w : p.World) (pool : p.Pool)
      → (p.new_with_config parsed s w).0 ≡ ok pool
      → live (p.new_with_config parsed s w).1 ≡ live w + 1
  pub fails :
      (parsed : p.Parsed) (s : PoolSettings) (w : p.World) (e : GoError)
      → (p.new_with_config parsed s w).0 ≡ err e
      → live (p.new_with_config parsed s w).1 ≡ live w
  pub pings : (pool : p.Pool) (d : ℤ) (w : p.World) → live (p.ping pool d w).1 ≡ live w
  pub closes : (pool : p.Pool) (w : p.World) → 0 < live w → live (p.close pool w) + 1 ≡ live w

-- The pools that a result leaves to the caller.
abbrev pub pools_of : {Pool : Type 0} → Result Pool → ℕ
pools_of (ok pool) = 1
pools_of (err e) = 0

module _ (p : Pgx) (live : p.World → ℕ) (t : Pools p live) where
  pinged-live :
      (n : ℕ) (pool : p.Pool) (o : Option GoError × p.World)
      → live o.1 ≡ n + 1
      → live (pinged p pool o).1 ≡ n + pools_of (pinged p pool o).0
  pinged-live n pool (none, w) more = more
  pinged-live n pool (some e, w) more = omega (arith, more, t.closes pool w (omega (arith, more)))

  with_pool-live :
      (n : ℕ) (s : PoolSettings) (r : Result p.Pool × p.World)
      → ((pool : p.Pool) → r.0 ≡ ok pool → live r.1 ≡ n + 1)
      → ((e : GoError) → r.0 ≡ err e → live r.1 ≡ n)
      → live (with_pool p s r).1 ≡ n + pools_of (with_pool p s r).0
  with_pool-live n s (err e, w) creates fails = fails e refl ∙ omega arith
  with_pool-live n s (ok pool, w) creates fails =
      pinged-live n pool (p.ping pool s.connect_timeout w)
        (t.pings pool s.connect_timeout w ∙ creates pool refl)

  with_parsed-live :
      (s : PoolSettings) (r : Result p.Parsed) (w : p.World)
      → live (with_parsed p s r w).1 ≡ live w + pools_of (with_parsed p s r w).0
  with_parsed-live s (err e) w = omega arith
  with_parsed-live s (ok parsed) w =
      with_pool-live (live w) s (p.new_with_config parsed s w) (t.creates parsed s w)
        (t.fails parsed s w)

  -- pgx counting pools as documented, New leaves a pool open exactly when it returns one: where the
  -- first ping fails, the pool is closed.
  pub new-live :
      (cfg : Config) (w : p.World) → live (new p cfg w).1 ≡ live w + pools_of (new p cfg w).0
  unfolding new
  new-live cfg w = with_parsed-live (pool_settings cfg) (p.parse_config cfg.dsn) w
