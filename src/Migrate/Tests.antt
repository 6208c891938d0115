-- ===== src/Migrate/Tests.antt =====
-- Runs of migrate/migrate.go, and its theorems at concrete inputs.
use idp_sdk.Common.{
  ℕ, String, ◌+◌, ◌-◌, ◌≡◌, refl, ◌↔◌, Bool, true, false, none, some, GoError, Result, ok, err, suc,
  arith, ◌==◌,
}
use idp_sdk.Common.Failure.{plain, variable, is_variable}
use idp_sdk.Migrate.{Migrations, new_migrator, up, down, version, has_scheme, ensure_scheme}
use idp_sdk.Migrate.Scheme.{HasScheme, has_scheme_iff}
use idp_sdk.Migrate.Release.{Tracks, releases}

guards :
    (ensure_scheme "db:5432/app" "postgres" ≡ "postgres://db:5432/app")
    × (ensure_scheme "postgres://db" "clickhouse" ≡ "postgres://db")
    × (ensure_scheme "" "postgres" ≡ "postgres://")
unfolding ensure_scheme has_scheme
guards = (refl, refl, refl)

abbrev open_counted : Bool → String → ℕ → Result String × ℕ
open_counted true url w = (err (plain "no such directory"), w)
open_counted false url w = (ok url, suc w)

-- A library whose migrators are counted; the one behind "file://bad" cannot be opened.
abbrev counted : Migrations
counted = record {
  World = ℕ;
  Migrator = String;
  new = λ url dsn w. open_counted (url == "file://bad") url w;
  up = λ mg w. (some (variable "migrate.ErrNoChange" "no change"), w);
  down = λ mg w. (some (plain "dirty"), w);
  version = λ mg w. (ok (7, false), w);
  close = λ mg w. w - 1;
}

opened :
    (bad : Bool) (url : String) (w : ℕ) (mg : String)
    → (open_counted bad url w).0 ≡ ok mg
    → (open_counted bad url w).1 ≡ w + 1
opened true url w mg h = cc
opened false url w mg h = omega arith

failed :
    (bad : Bool) (url : String) (w : ℕ) (e : GoError)
    → (open_counted bad url w).0 ≡ err e
    → (open_counted bad url w).1 ≡ w
failed true url w e h = refl
failed false url w e h = cc

counted-Tracks : Tracks counted (λ w. w)
counted-Tracks = record {
  opens = λ url dsn w mg h. opened (url == "file://bad") url w mg h;
  fails = λ url dsn w e h. failed (url == "file://bad") url w e h;
  ups = λ mg w. refl;
  downs = λ mg w. refl;
  versions = λ mg w. refl;
  closes = λ mg w h. omega arith;
}

releases_example :
    ((up counted "postgres" "sql" "db" 2).1 ≡ 2)
    × ((down counted "postgres" "sql" "db" 2).1 ≡ 2)
    × ((version counted "postgres" "sql" "db" 2).1 ≡ 2)
releases_example = releases counted (λ w. w) counted-Tracks "postgres" "sql" "db" 2

outcomes :
    ((up counted "postgres" "sql" "db" 2).0 ≡ none)
    × ((down counted "mysql" "sql" "db" 2).0 ≡ some (plain "migrate: unknown driver \"mysql\""))
unfolding up down new_migrator is_variable
outcomes = (refl, refl)

has_scheme_iff_example : (has_scheme "a://b" ≡ true) ↔ HasScheme "a://b"
has_scheme_iff_example = has_scheme_iff "a://b"
