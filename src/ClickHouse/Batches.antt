-- ===== src/ClickHouse/Batches.antt =====
-- The batches that `BatchInsert` of database/clickhouse/clickhouse.go sends, and those that it leaves
-- open.
use idp_sdk.Common.{
  ℕ, ◌+◌, ◌<◌, String, ◌≡◌, refl, sym, ap, ◌∙◌, ◌⊎◌, inl, inr, Option, none, some, arith, GoError,
  Result, ok, err,
}
use idp_sdk.Common.Failure.{wrap_with}
use idp_sdk.ClickHouse.{Driver, Fill, batch_insert, prepared, filled, sent}

-- The batches that hold a connection and those that the server took, as clickhouse-go counts them: a
-- batch holds its connection until it is sent, with or without success. A callback that returns nil
-- has appended its rows, and neither sent nor aborted the batch; of one that fails nothing is asked.
pub record Batches (d : Driver) (fill : Fill d) (live taken : d.World → ℕ) : Type 0 where
  pub prepares :
      (conn : d.Conn) (q : String) (w : d.World) (b : d.Batch)
      → (d.prepare_batch conn q w).0 ≡ ok b
      → live (d.prepare_batch conn q w).1 ≡ live w + 1
  pub refuses :
      (conn : d.Conn) (q : String) (w : d.World) (e : GoError)
      → (d.prepare_batch conn q w).0 ≡ err e
      → live (d.prepare_batch conn q w).1 ≡ live w
  pub taken_prepare :
      (conn : d.Conn) (q : String) (w : d.World) → taken (d.prepare_batch conn q w).1 ≡ taken w
  pub live_fill : (b : d.Batch) (w : d.World) → (fill b w).0 ≡ none → live (fill b w).1 ≡ live w
  pub taken_fill : (b : d.Batch) (w : d.World) → (fill b w).0 ≡ none → taken (fill b w).1 ≡ taken w
  pub releases : (b : d.Batch) (w : d.World) → 0 < live w → live (d.send b w).1 + 1 ≡ live w
  pub takes :
      (b : d.Batch) (w : d.World) → (d.send b w).0 ≡ none → taken (d.send b w).1 ≡ taken w + 1
  pub drops :
      (b : d.Batch) (w : d.World) (e : GoError)
      → (d.send b w).0 ≡ some e
      → taken (d.send b w).1 ≡ taken w

module _ (d : Driver) (fill : Fill d) (live taken : d.World → ℕ)
    (t : Batches d fill live taken) where
  -- The callback failed, with this error, on the batch that was made for it: a batch more than before
  -- held a connection, and the callback's own world is the last.
  abbrev pub Unfilled : Result d.Batch × d.World → d.World → GoError → d.World → Type 0
  Unfilled r w e w' =
      (b : d.Batch) × (c : GoError) × (r.0 ≡ ok b)
      × ((fill b r.1).0 ≡ some c)
      × (e ≡ wrap_with "clickhouse: filling batch: " c)
      × (live r.1 ≡ live w + 1)
      × (w' ≡ (fill b r.1).1)

  -- What an insert leaves behind, by how the batch was made and filled.
  abbrev pub Inserted : Result d.Batch × d.World → d.World → Option GoError × d.World → Type 0
  Inserted r w (none, w') = (taken w' ≡ taken w + 1) × (live w' ≡ live w)
  Inserted r w (some e, w') =
      Unfilled r w e w'
      ⊎ ((((c : GoError) × (r.0 ≡ err c))
            ⊎ ((b : d.Batch) × (r.0 ≡ ok b) × ((fill b r.1).0 ≡ none)))
          × (taken w' ≡ taken w)
          × (live w' ≡ live w))

  sent-Inserted :
      (b : d.Batch) (v w : d.World) (o : Option GoError × d.World)
      → (fill b v).0 ≡ none
      → live o.1 ≡ live w
      → (o.0 ≡ none → taken o.1 ≡ taken w + 1)
      → ((e : GoError) → o.0 ≡ some e → taken o.1 ≡ taken w)
      → Inserted (ok b, v) w (sent d o)
  sent-Inserted b v w (none, w') well same takes drops = (takes refl, same)
  sent-Inserted b v w (some e, w') well same takes drops =
      inr (inr (b, refl, well), drops e refl, same)

  filled-Inserted :
      (b : d.Batch) (v w : d.World) (o : Option GoError × d.World)
      → fill b v ≡ o
      → live v ≡ live w + 1
      → taken v ≡ taken w
      → Inserted (ok b, v) w (filled d b o)
  filled-Inserted b v w (some e, w') q more same =
      inl (b, e, refl, ap (λ x. x.0) q, refl, more, sym (ap (λ x. x.1) q))
  filled-Inserted b v w (none, w') q more same =
      let well : (fill b v).0 ≡ none = ap (λ x. x.0) q in
      let left : live w' ≡ live v = ap (λ x. live x.1) (sym q) ∙ t.live_fill b v well in
      let kept : taken w' ≡ taken v = ap (λ x. taken x.1) (sym q) ∙ t.taken_fill b v well in
      sent-Inserted b v w (d.send b w') well
        (omega (arith, more, left, t.releases b w' (omega (arith, more, left))))
        (λ h. t.takes b w' h ∙ ap (λ n. n + 1) (kept ∙ same))
        (λ e h. t.drops b w' e h ∙ kept ∙ same)

  prepared-Inserted :
      (q : String) (w : d.World) (r : Result d.Batch × d.World)
      → ((b : d.Batch) → r.0 ≡ ok b → live r.1 ≡ live w + 1)
      → ((e : GoError) → r.0 ≡ err e → live r.1 ≡ live w)
      → taken r.1 ≡ taken w
      → Inserted r w (prepared d q fill r)
  prepared-Inserted q w (err e, w') prepares refuses same =
      inr (inl (e, refl), same, refuses e refl)
  prepared-Inserted q w (ok b, w') prepares refuses same =
      filled-Inserted b w' w (fill b w') refl (prepares b refl) same

  -- clickhouse-go counting batches as documented, for a callback that leaves the batch open where it
  -- returns nil. BatchInsert returns nil only where the server took one more batch, which then holds
  -- no connection any more. An error of the callback comes back wrapped, and what the callback left
  -- is left: the batch that was made for it is neither sent nor aborted behind it. With any other
  -- error, no batch could be made or the filled one could not be sent, nothing was taken, and no
  -- batch holds a connection more than before.
  pub batch_insert-Inserted :
      (conn : d.Conn) (q : String) (w : d.World)
      → Inserted (d.prepare_batch conn q w) w (batch_insert d conn q fill w)
  unfolding batch_insert
  batch_insert-Inserted conn q w =
      prepared-Inserted q w (d.prepare_batch conn q w) (t.prepares conn q w) (t.refuses conn q w)
        (t.taken_prepare conn q w)
