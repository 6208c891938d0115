-- ===== src/Nats/Streams.antt =====
-- The streams that `EnsureStream` of messaging/nats/nats.go creates.
use idp_sdk.Common.{
  String, ◌≡◌, refl, sym, ap, ◌⊎◌, inl, inr, ◌<>◌, ◌∙◌, Option, some, GoError, Result, ok, err,
}
use idp_sdk.Common.Failure.{wrap_with}
use idp_sdk.Nats.{Nats, Client, ensure_stream, looked_up, created}

-- The streams of the server by their names, as JetStream documents its calls: looking a stream up
-- changes none, and may fail for a stream that exists; creating one adds it, and never changes or
-- loses a stream that exists. A creation that fails may have been done.
pub record Streams (n : Nats) (streams : n.World → String → Option n.StreamConfig) : Type 0 where
  pub looks_up :
      (js : n.JetStream) (name key : String) (w : n.World)
      → streams (n.stream js name w).1 key ≡ streams w key
  pub finds :
      (js : n.JetStream) (name : String) (w : n.World) (s : n.Stream)
      → (n.stream js name w).0 ≡ ok s
      → (c : n.StreamConfig) × (streams w name ≡ some c)
  pub adds :
      (js : n.JetStream) (cfg : n.StreamConfig) (w : n.World) (s : n.Stream)
      → (n.create_stream js cfg w).0 ≡ ok s
      → streams (n.create_stream js cfg w).1 (n.stream_name cfg) ≡ some cfg
  pub keeps :
      (js : n.JetStream) (cfg : n.StreamConfig) (w : n.World) (key : String) (c : n.StreamConfig)
      → streams w key ≡ some c
      → streams (n.create_stream js cfg w).1 key ≡ some c

module _ (n : Nats) (streams : n.World → String → Option n.StreamConfig)
    (t : Streams n streams) where
  -- No stream is lost or changed.
  abbrev pub Kept : n.World → n.World → Type 0
  Kept w w' = (key : String) (c : n.StreamConfig) → streams w key ≡ some c → streams w' key ≡ some c

  -- What a stream's set-up promises, by the look-up of its name and, where that fails, by the
  -- creation in the world behind it. The stream that is found is returned, and exists; else the one
  -- that is created is, and exists with the configuration; and only where both fail, there is an
  -- error, that of the creation.
  abbrev pub Ensured : Client n → n.StreamConfig → n.World → Result n.Stream × n.World → Type 0
  Ensured c cfg w (ok s, w') =
      (((n.stream c.js (n.stream_name cfg) w).0 ≡ ok s)
        × ((d : n.StreamConfig) × (streams w' (n.stream_name cfg) ≡ some d)))
      ⊎ (((e : GoError) × ((n.stream c.js (n.stream_name cfg) w).0 ≡ err e))
          × ((n.create_stream c.js cfg (n.stream c.js (n.stream_name cfg) w).1).0 ≡ ok s)
          × (streams w' (n.stream_name cfg) ≡ some cfg))
  Ensured c cfg w (err e, w') =
      ((missing : GoError) × ((n.stream c.js (n.stream_name cfg) w).0 ≡ err missing))
      × ((cause : GoError) × ((n.create_stream c.js cfg (n.stream c.js (n.stream_name cfg) w).1).0
            ≡ err cause)
          × (e ≡ wrap_with ("nats: creating stream " <> n.stream_name cfg <> ": ") cause))

  created-Ensured :
      (c : Client n) (cfg : n.StreamConfig) (w v : n.World) (missing : GoError)
      (r : Result n.Stream × n.World)
      → n.stream c.js (n.stream_name cfg) w ≡ (err missing, v)
      → n.create_stream c.js cfg v ≡ r
      → Ensured c cfg w (created n (n.stream_name cfg) r)
        × Kept v (created n (n.stream_name cfg) r).1
  created-Ensured c cfg w v missing (ok s, w') q made = (
    rw q (
        inr (
          (missing, refl),
          ap (λ x. x.0) made,
          rw (ap (λ x. x.1) made) at (t.adds c.js cfg v s (ap (λ x. x.0) made)),
        )),
    λ key d h. rw (ap (λ x. x.1) made) at (t.keeps c.js cfg v key d h),
  )
  created-Ensured c cfg w v missing (err e, w') q made = (
    rw q ((missing, refl), (e, ap (λ x. x.0) made, refl)),
    λ key d h. rw (ap (λ x. x.1) made) at (t.keeps c.js cfg v key d h),
  )

  looked_up-Ensured :
      (c : Client n) (cfg : n.StreamConfig) (w : n.World) (r : Result n.Stream × n.World)
      → n.stream c.js (n.stream_name cfg) w ≡ r
      → Ensured c cfg w (looked_up n c cfg r) × Kept r.1 (looked_up n c cfg r).1
  looked_up-Ensured c cfg w (ok s, w') q =
      let (d, h) = t.finds c.js (n.stream_name cfg) w s (ap (λ x. x.0) q) in
      let same : streams w' (n.stream_name cfg) ≡ streams w (n.stream_name cfg) =
        ap (λ x. streams x.1 (n.stream_name cfg)) (sym q)
        ∙ t.looks_up c.js (n.stream_name cfg) (n.stream_name cfg) w in
      (inl (ap (λ x. x.0) q, (d, same ∙ h)), λ key e k. k)
  looked_up-Ensured c cfg w (err e, w') q =
      let (made, kept) = created-Ensured c cfg w w' e (n.create_stream c.js cfg w') q refl in
      (made, kept)

  -- EnsureStream, JetStream working as documented. It returns the stream that it finds, and creates
  -- one of the configuration only where it finds none; it fails only where the creation fails, too,
  -- with that error as the cause. The stream that it returns exists, and it never changes or loses an
  -- existing stream, its configuration included, not even where the look-up of an existing stream
  -- fails and the creation is tried, or where the creation fails: it is safe on every start.
  pub ensure_stream-Ensured :
      (c : Client n) (cfg : n.StreamConfig) (w : n.World)
      → Ensured c cfg w (ensure_stream n c cfg w) × Kept w (ensure_stream n c cfg w).1
  unfolding ensure_stream
  ensure_stream-Ensured c cfg w =
      let (ensured, kept) = looked_up-Ensured c cfg w (n.stream c.js (n.stream_name cfg) w) refl in
      (ensured, λ key d h. kept key d (t.looks_up c.js (n.stream_name cfg) key w ∙ h))
