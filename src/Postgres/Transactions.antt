-- ===== src/Postgres/Transactions.antt =====
-- When a transaction of database/postgres/postgres.go counts, and that none stays open.
use idp_sdk.Common.{
  ℕ, ◌+◌, ◌<◌, ◌≡◌, refl, ◌∙◌, Option, none, some, arith, GoError, Result, ok, err,
}
use idp_sdk.Postgres.{Pgx, Outcome, returned, panicked, settle_tx, with_begun, with_tx}

-- The open transactions and those that were committed, as pgx counts them: a commit or a rollback
-- ends a transaction, also where it fails, and only a commit without an error counts.
pub record TxLedger (p : Pgx) (running committed : p.World → ℕ) : Type 0 where
  pub begins :
      (db : p.Pool) (w : p.World) (tx : p.Tx)
      → (p.begin db w).0 ≡ ok tx
      → running (p.begin db w).1 ≡ running w + 1
  pub refuses :
      (db : p.Pool) (w : p.World) (e : GoError)
      → (p.begin db w).0 ≡ err e
      → running (p.begin db w).1 ≡ running w
  pub committed_begin : (db : p.Pool) (w : p.World) → committed (p.begin db w).1 ≡ committed w
  pub commit_ends :
      (tx : p.Tx) (w : p.World) → 0 < running w → running (p.commit tx w).1 + 1 ≡ running w
  pub rollback_ends :
      (tx : p.Tx) (w : p.World) → 0 < running w → running (p.rollback tx w).1 + 1 ≡ running w
  pub commits :
      (tx : p.Tx) (w : p.World)
      → (p.commit tx w).0 ≡ none
      → committed (p.commit tx w).1 ≡ committed w + 1
  pub commit_fails :
      (tx : p.Tx) (w : p.World) (e : GoError)
      → (p.commit tx w).0 ≡ some e
      → committed (p.commit tx w).1 ≡ committed w
  pub rolls_back : (tx : p.Tx) (w : p.World) → committed (p.rollback tx w).1 ≡ committed w

-- A callback that leaves the end of its transaction to its caller.
pub record IsTame (p : Pgx) (running committed : p.World → ℕ)
    (fn : p.Tx → p.World → Outcome × p.World) : Type 0 where
  pub running_fn : (tx : p.Tx) (w : p.World) → running (fn tx w).1 ≡ running w
  pub committed_fn : (tx : p.Tx) (w : p.World) → committed (fn tx w).1 ≡ committed w

-- The transactions that count when a call ended in this way.
abbrev pub kept : Outcome → ℕ
kept (returned none) = 1
kept (returned (some e)) = 0
kept (panicked v) = 0

module _ (p : Pgx) (running committed : p.World → ℕ) (t : TxLedger p running committed) where
  settle_tx_lem :
      (tx : p.Tx) (o : Outcome × p.World)
      → 0 < running o.1
      → (running (settle_tx p tx o).1 + 1 ≡ running o.1)
        × (committed (settle_tx p tx o).1 ≡ committed o.1 + kept (settle_tx p tx o).0)
  settle_tx_lem tx (panicked v, w) h = (t.rollback_ends tx w h, t.rolls_back tx w ∙ omega arith)
  settle_tx_lem tx (returned (some e), w) h =
      (t.rollback_ends tx w h, t.rolls_back tx w ∙ omega arith)
  settle_tx_lem tx (returned none, w) h = (t.commit_ends tx w h, by_error (p.commit tx w).0 refl)
    where
      by_error :
          (o : Option GoError)
          → (p.commit tx w).0 ≡ o
          → committed (p.commit tx w).1 ≡ committed w + kept (returned o)
      by_error none e = t.commits tx w e
      by_error (some x) e = t.commit_fails tx w x e ∙ omega arith

  with_begun_lem :
      (n m : ℕ) (fn : p.Tx → p.World → Outcome × p.World) (b : Result p.Tx × p.World)
      → IsTame p running committed fn
      → ((tx : p.Tx) → b.0 ≡ ok tx → running b.1 ≡ n + 1)
      → ((e : GoError) → b.0 ≡ err e → running b.1 ≡ n)
      → committed b.1 ≡ m
      → (running (with_begun p fn b).1 ≡ n)
        × (committed (with_begun p fn b).1 ≡ m + kept (with_begun p fn b).0)
  with_begun_lem n m fn (err e, w) tame begins refuses same = (refuses e refl, omega (arith, same))
  with_begun_lem n m fn (ok tx, w) tame begins refuses same =
      let more = begins tx refl in
      let ran = tame.running_fn tx w in
      let (ended, counted) = settle_tx_lem tx (fn tx w) (omega (arith, more, ran)) in
      (omega (arith, more, ran, ended), omega (arith, same, counted, tame.committed_fn tx w))

  -- The callback leaving the end of the transaction to WithTx, and pgx counting as documented: WithTx
  -- leaves no transaction open on any path, a panic of the callback included, and it returns nil
  -- exactly when one transaction was committed; with an error or a panic none was.
  pub with_tx_lem :
      (db : p.Pool) (fn : p.Tx → p.World → Outcome × p.World) (w : p.World)
      → IsTame p running committed fn
      → (running (with_tx p db fn w).1 ≡ running w)
        × (committed (with_tx p db fn w).1 ≡ committed w + kept (with_tx p db fn w).0)
  unfolding with_tx
  with_tx_lem db fn w tame =
      with_begun_lem (running w) (committed w) fn (p.begin db w) tame (t.begins db w)
        (t.refuses db w) (t.committed_begin db w)
