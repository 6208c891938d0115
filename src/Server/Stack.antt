-- ===== src/Server/Stack.antt =====
-- A request through the middleware that server/server.go installs, and through that of logging/
-- behind it.
use idp_sdk.Common.{
  String, ◌≡◌, ◌≢◌, refl, sym, ◌∙◌, ◌↔◌, ◌⊎◌, inl, inr, Option, List, [], ◌∷◌, map, ◌==◌,
  if◌then◌else◌,
}
use idp_sdk.Common.{◌++◌}
use mathlib.Core.List.{append-nil, append_assoc}
use idp_sdk.Common.Value.{text as text_value, field, end}
use idp_sdk.Common.Int.{◌-ℤ◌}
use idp_sdk.Gin.{Gin}
use idp_sdk.Gin.Chain.{Ended, finished, panicked, Handler, Middleware, chain}
use idp_sdk.Slog.{text, error, Logger, Process, log}
use idp_sdk.Logging.{
  Requests, with_context, request_logger, request_attrs, request_level, logged, gin_middleware,
}
use idp_sdk.Logging.Attrs.{Has, request_logger_iff}
use idp_sdk.Server.{
  Config, State, Server, use_all, with_middleware, request_id_middleware, recovered,
  recovery_middleware, or_default, apply_options, new, serve,
}

abbrev pub flatten : {A : Type 0} → List (List A) → List A
flatten [] = []
flatten (xs ∷ xss) = xs ++ flatten xss

-- Gin as documented: a request's headers stay as they are when response headers and keys are set.
pub record KeepsRequest {Entry : Type 0} (g : Gin Entry) : Type 0 where
  pub after_header :
      (key k v : String) (c : g.Context) → g.get_header key (g.header k v c) ≡ g.get_header key c
  pub after_set :
      (key k : String) (e : Entry) (c : g.Context)
      → g.get_header key (g.set k e c) ≡ g.get_header key c

module _ {Entry : Type 0} (g : Gin Entry) (q : Requests g) (p : Process)
    (as_entry : String → Entry) where
  -- The id of a request: its own, or a fresh one.
  abbrev pub id_of : State g q p as_entry → String × p.World
  id_of (c, w) =
      let id = g.get_header "X-Request-Id" c in if id == "" then p.new_uuid w else (id, w)

  -- What stands behind the request id: the id in the answer's header and in the context.
  abbrev pub arrived : State g q p as_entry → State g q p as_entry
  arrived (c, w) =
      let (id, w') = id_of (c, w) in
      (g.set "request_id" (as_entry id) (g.header "X-Request-Id" id c), w')

  -- The answer to a panic.
  abbrev pub rescued : Logger → String → State g q p as_entry → State g q p as_entry
  rescued l v (c, w) = (
    g.abort_with_status_json 500 (field "error" (text_value "internal server error") end) c,
    log p l error "panic recovered" (("panic", text v) ∷ ("path", text (q.url_path c)) ∷ []) w,
  )

  engine-apply_options :
      (opts : List (List (Middleware (State g q p as_entry)))) (s : Server g q p as_entry)
      → (apply_options g q p as_entry (map (with_middleware g q p as_entry) opts) s).engine
        ≡ s.engine ++ flatten opts
  unfolding with_middleware
  engine-apply_options [] s = sym (append-nil s.engine)
  engine-apply_options (mws ∷ opts) s =
      engine-apply_options opts (use_all g q p as_entry mws s)
      ∙ append_assoc s.engine mws (flatten opts)

  -- How a handler ended behind the recovery, and what the server makes of it.
  abbrev pub Rescued : Logger → Ended (State g q p as_entry) → Ended (State g q p as_entry) → Type 0
  Rescued l inner result =
      ((s : State g q p as_entry) × (inner ≡ finished s) × (result ≡ finished s))
      ⊎ ((v : String) × (s : State g q p as_entry) × (inner ≡ panicked v s)
          × (result ≡ finished (rescued l v s)))

  recovered-Rescued :
      (l : Logger) (o : Ended (State g q p as_entry)) → Rescued l o (recovered g q p as_entry l o)
  recovered-Rescued l (finished s) = inl (s, refl, refl)
  recovered-Rescued l (panicked v (c, w)) = inr (v, (c, w), refl, refl)

  identified :
      (next : Handler (State g q p as_entry)) (s : State g q p as_entry)
      → request_id_middleware g q p as_entry next s ≡ next (arrived s)
  unfolding request_id_middleware
  identified next (c, w) = refl

  module _ (default : Logger) (cfg : Config) (logger : Option Logger)
      (opts : List (List (Middleware (State g q p as_entry))))
      (handler : Handler (State g q p as_entry)) (s : State g q p as_entry) where
    -- A server with any middleware added never panics on a request: behind its request id the added
    -- middleware and the handler run, and their panic becomes the answer 500 with a line in the log.
    pub serve-Rescued :
        Rescued
          (or_default g q p as_entry default logger)
          (chain (flatten opts) handler (arrived s))
          (serve g q p as_entry
            (new g q p as_entry default cfg logger (map (with_middleware g q p as_entry) opts)).0
            handler
            s)
    unfolding serve new recovery_middleware
    serve-Rescued =
        rw (engine-apply_options opts _)
          (rw (identified _ s) (recovered-Rescued _ (chain (flatten opts) handler (arrived s))))

  module _ (k : KeepsRequest g) (default base : Logger) (cfg : Config) (logger : Option Logger)
      (handler : Handler (State g q p as_entry)) (s : State g q p as_entry) where
    abbrev pub request_log : List (List (Middleware (State g q p as_entry)))
    request_log = ((gin_middleware g q p base) ∷ []) ∷ []

    -- What the handler is given behind the request log.
    abbrev pub handed : State g q p as_entry
    handed =
        let (c, w) = arrived s in
        (q.with_request_context (with_context (q.context c) (request_logger g q p base c)) c, w)

    -- The end of a request by that of its handler: one line of the request log for an answer, and
    -- one of the recovery for a panic.
    abbrev pub Told : Ended (State g q p as_entry) → Ended (State g q p as_entry) → Type 0
    Told inner result =
        ((c : g.Context) × (w : p.World) × (inner ≡ finished (c, w))
          × (result
              ≡ finished (
                c,
                log p (request_logger g q p base (arrived s).0) (request_level g q p (q.status c))
                    "request" (request_attrs g q p c (p.now w -ℤ p.now (arrived s).1)) w,
              )))
        ⊎ ((v : String) × (t : State g q p as_entry) × (inner ≡ panicked v t)
            × (result ≡ finished (rescued (or_default g q p as_entry default logger) v t)))

    told :
        (o : Ended (State g q p as_entry))
        → Told o (
            recovered g q p as_entry
              (or_default g q p as_entry default logger)
              (logged g q p (request_logger g q p base (arrived s).0) (p.now (arrived s).1) o))
    told (finished (c, w)) = inl (c, w, refl, refl)
    told (panicked v (c, w)) = inr (v, (c, w), refl, refl)

    served : Told (handler handed) (
        serve g q p as_entry
          (new g q p as_entry default cfg logger
            (map (with_middleware g q p as_entry) request_log)).0
          handler
          s)
    unfolding serve new recovery_middleware gin_middleware
    served = rw (engine-apply_options request_log _) (rw (identified _ s) (told (handler handed)))

    same_header : g.get_header "X-Request-Id" (arrived s).0 ≡ g.get_header "X-Request-Id" s.0
    same_header =
        k.after_set "X-Request-Id" "request_id" _ _
        ∙ k.after_header "X-Request-Id" "X-Request-Id" _ s.0

    -- With request logging installed, Gin keeping a request's headers as documented: a handler that
    -- returns has one line "request" logged, at the level of its status; one that panics has none, but
    -- the line of the recovery, and is answered with 500. The line carries the request id exactly of a
    -- request that came with one, besides those of the logger it is built on: an id that the server
    -- made up stands in the answer and not in the log.
    pub request_log_lem :
        (id : String)
        → Told (handler handed) (
            serve g q p as_entry
              (new g q p as_entry default cfg logger
                (map (with_middleware g q p as_entry) request_log)).0
              handler
              s)
          × (Has "request_id" id (request_logger g q p base (arrived s).0) ↔ (
              Has "request_id" id base
              ⊎ (g.get_header "X-Request-Id" s.0 ≢ "") × (id ≡ g.get_header "X-Request-Id" s.0)))
    request_log_lem id =
        (served, rw same_header at (request_logger_iff g q p id base (arrived s).0))
