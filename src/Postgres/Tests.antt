-- ===== src/Postgres/Tests.antt =====
-- Runs of database/postgres/postgres.go, and its theorems at concrete inputs.
use idp_sdk.Common.{ℕ, ◌+◌, ◌-◌, String, ◌≡◌, refl, none, some, pos, arith, ok}
use idp_sdk.Common.Failure.{plain}
use idp_sdk.Postgres.{Pgx, Config, Outcome, returned, panicked, with_tx}
use idp_sdk.Postgres.Transactions.{TxLedger, IsTame, kept, with_tx_lem}
use idp_sdk.Postgres.Pools.{Pools}

-- A database that only counts: open transactions, committed ones, open pools.
record Counts : Type 0 where
  running : ℕ
  committed : ℕ
  pools : ℕ

abbrev db : Pgx
db = record {
  World = Counts;
  Parsed = String;
  Pool = String;
  Tx = ℕ;
  parse_config = λ dsn. ok dsn;
  new_with_config = λ parsed s w. (ok parsed, record w { pools = w.pools + 1 });
  ping = λ pool d w. (some (plain "connection refused"), w);
  close = λ pool w. record w { pools = w.pools - 1 };
  begin = λ pool w. (ok w.running, record w { running = w.running + 1 });
  commit = λ tx w. (none, record w { running = w.running - 1; committed = w.committed + 1 });
  rollback = λ tx w. (none, record w { running = w.running - 1 });
}

db-TxLedger : TxLedger db (λ w. w.running) (λ w. w.committed)
db-TxLedger = record {
  begins = λ pool w tx h. refl;
  refuses = λ pool w e h. cc;
  committed_begin = λ pool w. refl;
  commit_ends = λ tx w h. omega arith;
  rollback_ends = λ tx w h. omega arith;
  commits = λ tx w h. refl;
  commit_fails = λ tx w e h. cc;
  rolls_back = λ tx w. refl;
}

db-Pools : Pools db (λ w. w.pools)
db-Pools = record {
  creates = λ parsed s w pool h. refl;
  fails = λ parsed s w e h. cc;
  pings = λ pool d w. refl;
  closes = λ pool w h. omega arith;
}

abbrev idle : Counts
idle = record { running = 0; committed = 0; pools = 0 }

-- A callback that panics, and one that succeeds.
abbrev bad : ℕ → Counts → Outcome × Counts
bad tx w = (panicked "index out of range", w)

abbrev good : ℕ → Counts → Outcome × Counts
good tx w = (returned none, w)

bad-IsTame : IsTame db (λ w. w.running) (λ w. w.committed) bad
bad-IsTame = record { running_fn = λ tx w. refl; committed_fn = λ tx w. refl }

undone : with_tx db "main" bad idle ≡ (panicked "index out of range", idle)
unfolding with_tx
undone = refl

done : with_tx db "main" good idle ≡ (returned none, record idle { committed = 1 })
unfolding with_tx
done = refl

with_tx_lem_example :
    ((with_tx db "main" bad idle).1.running ≡ 0)
    × ((with_tx db "main" bad idle).1.committed ≡ 0 + kept (with_tx db "main" bad idle).0)
with_tx_lem_example =
    with_tx_lem db (λ w. w.running) (λ w. w.committed) db-TxLedger "main" bad idle bad-IsTame

abbrev cfg : Config
cfg = record {
  dsn = "postgres://localhost/app";
  max_conns = pos 0;
  min_conns = pos 0;
  conn_timeout = pos 0;
  max_conn_lifetime = pos 0;
  min_conn_lifetime = pos 0;
}
