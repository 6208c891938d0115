-- ===== src/ClickHouse/Tests.antt =====
-- Runs of database/clickhouse/clickhouse.go, and its theorem at a concrete input.
use idp_sdk.Common.{
  ℕ, ◌+◌, ◌-◌, String, ◌≡◌, refl, true, none, some, [], ◌∷◌, pos, negsuc, arith, ok, err, ◌<>◌,
}
use idp_sdk.Common.Failure.{plain, wrap_with}
use idp_sdk.ClickHouse.{Config, Driver, Fill, options, new, batch_insert}
use idp_sdk.ClickHouse.Batches.{Batches, Inserted, batch_insert-Inserted}

-- A server that counts: batches that hold a connection, and batches that it took.
record Counts : Type 0 where
  live : ℕ
  taken : ℕ

abbrev db : Driver
db = record {
  World = Counts;
  Conn = String;
  Batch = String;
  open_conn = λ o w. (ok "conn", w);
  ping = λ conn t w. (some (plain "timeout"), w);
  close = λ conn w. (none, w);
  prepare_batch = λ conn q w. (ok q, record w { live = w.live + 1 });
  send = λ b w. (none, record { live = w.live - 1; taken = w.taken + 1 });
  quote = λ q. "\"" <> q <> "\"";
}

-- A callback that fails on its own data, before it appends a row.
abbrev spoiled : Fill db
spoiled batch w = (some (plain "event without an id"), w)

spoiled-Batches : Batches db spoiled (λ w. w.live) (λ w. w.taken)
spoiled-Batches = record {
  prepares = λ conn q w b h. refl;
  refuses = λ conn q w e h. cc;
  taken_prepare = λ conn q w. refl;
  live_fill = λ b w h. refl;
  taken_fill = λ b w h. refl;
  releases = λ b w h. omega arith;
  takes = λ b w h. refl;
  drops = λ b w e h. cc;
}

abbrev idle : Counts
idle = record { live = 0; taken = 0 }

leaked : (batch_insert db "conn" "INSERT INTO events" spoiled idle).1.live ≡ 1
unfolding batch_insert
leaked = refl

batch_insert-Inserted_example :
    Inserted db spoiled
      (λ w. w.live)
      (λ w. w.taken)
      spoiled-Batches
      (db.prepare_batch "conn" "INSERT INTO events" idle)
      idle
      (batch_insert db "conn" "INSERT INTO events" spoiled idle)
batch_insert-Inserted_example =
    batch_insert-Inserted db spoiled (λ w. w.live) (λ w. w.taken) spoiled-Batches "conn"
      "INSERT INTO events" idle

abbrev secured : Config
secured = record {
  addr = "clickhouse.db.svc:9000" ∷ [];
  database = "events";
  username = "default";
  password = "";
  secure = true;
  dial_timeout = pos 0;
  max_open_conns = negsuc 0;
  max_idle_conns = pos 3;
}

defaults_used :
    ((options secured).dial_timeout ≡ pos 5_000_000_000)
    × ((options secured).max_open_conns ≡ pos 10)
    × ((options secured).max_idle_conns ≡ pos 3)
    × ((options secured).tls ≡ true)
unfolding options
defaults_used = (refl, refl, refl, refl)

unreachable :
    (new db secured idle).0 ≡ err (wrap_with "clickhouse: initial ping failed: " (plain "timeout"))
unfolding new options
unreachable = refl
