-- ===== src/Migrate.antt =====
-- migrate/migrate.go: the driver switch, the scheme guard, and Up, Down and Version.
-- golang-migrate is not part of the repository: `Migrations` has its calls, over a state of the
-- outside world. A text is read by characters, and the source's by bytes: "://" is ASCII, so its
-- places are the same.
pub mod Scheme
pub mod Release
mod Tests
use Prim.Native.Char.{code}
use Prim.Native.String.{[], ◌∷◌}
use idp_sdk.Common.{
  quoted, ℕ, String, Bool, true, false, not, ◌&&◌, ◌||◌, Option, none, some, ◌==◌, eqb, ◌<>◌,
  if◌then◌else◌, GoError, Result, ok, err,
}
use idp_sdk.Common.Failure.{plain, is_variable, wrap_with}

-- Whether "://" stands at the front.
abbrev pub at_scheme : String → Bool
at_scheme (a ∷ b ∷ c ∷ _) = eqb (code a) b':' && eqb (code b) b'/' && eqb (code c) b'/'
at_scheme _ = false

-- The loop of `ensureScheme`.
unfoldable pub has_scheme : String → Bool
has_scheme [] = false
has_scheme (c ∷ s) = at_scheme (c ∷ s) || has_scheme s

unfoldable pub ensure_scheme : String → String → String
ensure_scheme dsn scheme = if has_scheme dsn then dsn else scheme <> "://" <> dsn

abbrev pub driver_postgres : String
driver_postgres = "postgres"

abbrev pub driver_click_house : String
driver_click_house = "clickhouse"

-- The calls of golang-migrate; `World` is the database and the migrators that are open.
pub record Migrations : Type 1 where
  pub World : Type 0
  pub Migrator : Type 0
  pub new : String → String → World → Result Migrator × World
  pub up : Migrator → World → Option GoError × World
  pub down : Migrator → World → Option GoError × World
  pub version : Migrator → World → Result (ℕ × Bool) × World
  pub close : Migrator → World → World

module _ (m : Migrations) where
  open m use {World, Migrator}

  unfoldable pub new_migrator : String → String → String → World → Result Migrator × World
  new_migrator driver source_dir dsn w =
      if driver == driver_postgres
      then m.new ("file://" <> source_dir) (ensure_scheme dsn "postgres") w
      else if driver == driver_click_house
      then m.new ("file://" <> source_dir) (ensure_scheme dsn "clickhouse") w
      else (err (plain ("migrate: unknown driver " <> quoted driver)), w)

  -- `err != nil && !errors.Is(err, migrate.ErrNoChange)`
  abbrev settle : String → Option GoError → Option GoError
  settle prefix none = none
  settle prefix (some e) =
      if is_variable "migrate.ErrNoChange" e then none else some (wrap_with prefix e)

  abbrev up_with : Result Migrator × World → Option GoError × World
  up_with (err e, w) = (some e, w)
  up_with (ok mg, w) =
      let (failed, w') = m.up mg w in (settle "migrate: up: " failed, m.close mg w')

  abbrev down_with : Result Migrator × World → Option GoError × World
  down_with (err e, w) = (some e, w)
  down_with (ok mg, w) =
      let (failed, w') = m.down mg w in (settle "migrate: down: " failed, m.close mg w')

  abbrev version_with : Result Migrator × World → Result (ℕ × Bool) × World
  version_with (err e, w) = (err e, w)
  version_with (ok mg, w) = let (v, w') = m.version mg w in (v, m.close mg w')

  unfoldable pub up : String → String → String → World → Option GoError × World
  up driver source_dir dsn w = up_with (new_migrator driver source_dir dsn w)

  unfoldable pub down : String → String → String → World → Option GoError × World
  down driver source_dir dsn w = down_with (new_migrator driver source_dir dsn w)

  unfoldable pub version : String → String → String → World → Result (ℕ × Bool) × World
  version driver source_dir dsn w = version_with (new_migrator driver source_dir dsn w)
