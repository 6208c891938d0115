-- ===== src/Endpoint/Served.antt =====
-- The answers of a protected endpoint of a service, with server/ and auth/ in front of it.
use idp_sdk.Common.{
  refl, String, ◌≡◌, ◌≢◌, sym, ◌∙◌, ◌⊎◌, inl, inr, Option, none, List, [], ◌∷◌, ℤ, GoError, ok, err,
}
use idp_sdk.Gin.{Gin}
use idp_sdk.Gin.Chain.{Ended, finished, panicked, Handler}
use idp_sdk.Slog.{Line, Logger, Process}
use idp_sdk.Logging.{Requests}
use idp_sdk.Server.{Config, serve, or_default}
use idp_sdk.Server.Stack.{arrived, Rescued, serve-Rescued}
use idp_sdk.Auth.Claims.{Claims}
use idp_sdk.Auth.Config as AuthConfig
use idp_sdk.Auth.Config.{set_defaults}
use idp_sdk.Auth.Idp.{Idp}
use idp_sdk.Auth.Middleware.{Entry, other, required_auth, require_roles}
use idp_sdk.Auth.Middleware.Protected.{
  KeepsKeys, MayPass, authenticated, Guarded, required_auth-Guarded,
}
use idp_sdk.Auth.Middleware.Protected as Protected
use idp_sdk.Auth.Middleware.Protected.{unauthorized, forbidden}
use idp_sdk.Auth.Middleware.Token.{Carries}
use idp_sdk.Auth.Middleware.{unauthorized_text}
use idp_sdk.Auth.Roles.{Extracted, returns, panics_with}
use idp_sdk.Auth.Service.{Auth, AuthOption, unset}
use idp_sdk.Auth.Service.Vouched.{Validates, Vouched}
use idp_sdk.Auth.Service as Service
use idp_sdk.Auth.Service.Built.{new-Fits}
use idp_sdk.Endpoint.{process, protected_server}

module _ (p : Idp) (now : p.World → ℤ) (print : Line → p.World → p.World)
    (new_uuid : p.World → String × p.World) where
  abbrev proc : Process
  proc = process p now print new_uuid

  module _ (g : Gin Entry) (q : Requests g) (a : Auth p) (roles : List String) where
    -- The answer to authenticated claims by the roles that the extractor finds in them: 403 where
    -- they hold none of the asked ones, and else that of the endpoint, or the one to its panic. The
    -- panic of an extractor is answered like one of the endpoint.
    abbrev pub ByRoles :
        Logger
        → Handler (g.Context × p.World)
        → g.Context × p.World
        → Extracted
        → Ended (g.Context × p.World)
        → Type 0
    ByRoles l handler s (panics_with v) result = Rescued g q proc other l (panicked v s) result
    ByRoles l handler s (returns have) result =
        (MayPass have roles × Rescued g q proc other l (handler s) result)
        ⊎ ((¬ MayPass have roles) × (result ≡ forbidden p g s))

    -- The answer to a request that has arrived with this token.
    abbrev pub Judged :
        Logger
        → Handler (g.Context × p.World)
        → String
        → g.Context × p.World
        → Ended (g.Context × p.World)
        → Type 0
    Judged l handler token (c, w) result =
        ((e : GoError) × (v : p.World) × Validates a.validator token w (err e) v
          × (result ≡ unauthorized p g (unauthorized_text e) (c, v)))
        ⊎ ((cl : Claims) × (v : p.World) × Validates a.validator token w (ok cl) v
            × Vouched a.validator token w cl
            × ByRoles l handler (authenticated p g cl c, v) (a.roles_extractor cl) result)

    -- The answer to a request that has arrived, by its Authorization header.
    abbrev pub Answered :
        Logger
        → Handler (g.Context × p.World)
        → g.Context × p.World
        → Ended (g.Context × p.World)
        → Type 0
    Answered l handler (c, w) result =
        (((token : String) → ¬ Carries (g.get_header "Authorization" c) token)
          × (result ≡ unauthorized p g "auth: missing bearer token" (c, w)))
        ⊎ ((token : String) × Carries (g.get_header "Authorization" c) token
            × Judged l handler token (c, w) result)

    Rescued-finished :
        (l : Logger) (o result : Ended (g.Context × p.World)) (s : g.Context × p.World)
        → o ≡ finished s
        → Rescued g q proc other l o result
        → result ≡ finished s
    Rescued-finished l o result s h (inl (s', x, y)) = y ∙ sym x ∙ h
    Rescued-finished l o result s h (inr (v, s', x, y)) = cc

    ByRoles-ByRoles :
        (l : Logger) (handler : Handler (g.Context × p.World)) (s : g.Context × p.World)
        (x : Extracted) (o result : Ended (g.Context × p.World))
        → Protected.ByRoles p g roles handler s x o
        → Rescued g q proc other l o result
        → ByRoles l handler s x result
    ByRoles-ByRoles l handler s (panics_with v) o result h r = rw h at r
    ByRoles-ByRoles l handler s (returns have) o result (inl (may, y)) r = inl (may, rw y at r)
    ByRoles-ByRoles l handler (c, v) (returns have) o result (inr (may, y)) r =
        inr (may, Rescued-finished l o result _ y r)

    Judged-Judged :
        (l : Logger) (handler : Handler (g.Context × p.World)) (token : String)
        (s : g.Context × p.World) (o result : Ended (g.Context × p.World))
        → a.validator ≢ unset
        → Protected.Judged p g a roles handler token s o
        → Rescued g q proc other l o result
        → Judged l handler token s result
    Judged-Judged l handler token (c, w) o result set (inl (x, y)) r = absurd (set x)
    Judged-Judged l handler token (c, w) o result set (inr (inl (e, v, x, y))) r =
        inl (e, v, x, Rescued-finished l o result _ y r)
    Judged-Judged l handler token (c, w) o result set (inr (inr (cl, v, x, z, by))) r = inr (
      cl,
      v,
      x,
      z,
      ByRoles-ByRoles l handler (authenticated p g cl c, v) (a.roles_extractor cl) o result by r,
    )

    Answered-Guarded :
        (l : Logger) (handler : Handler (g.Context × p.World)) (s : g.Context × p.World)
        (o result : Ended (g.Context × p.World))
        → a.validator ≢ unset
        → Guarded p g a roles handler s o
        → Rescued g q proc other l o result
        → Answered l handler s result
    Answered-Guarded l handler (c, w) o result set (inl (missing, y)) r =
        inl (missing, Rescued-finished l o result _ y r)
    Answered-Guarded l handler (c, w) o result set (inr (token, carries, j)) r =
        inr (token, carries, Judged-Judged l handler token (c, w) o result set j r)

    set_of_runs :
        ((t : String) (w : p.World) → Service.validate_token p a t w ≢ none)
        → p.World
        → a.validator ≢ unset
    unfolding Service.validate_token
    set_of_runs runs w nil = runs "" w (rw nil refl)

    abbrev pub at_door : g.Context × p.World → g.Context × p.World
    at_door s = arrived g q proc other s

    -- A service that serves an endpoint behind RequiredAuth and RequireRoles of an instance that New
    -- returned, Gin storing keys as documented, answers every request without a panic. A request whose
    -- Authorization header carries no bearer token is answered with 401, and no validator runs; where
    -- the validator refuses the token that it carries, with 401; where the provider stands for claims
    -- of that token that hold none of the asked roles, with 403; and else as the endpoint does, which
    -- alone then runs and finds the claims in the context, or with 500 and a line in the log where the
    -- endpoint, or the roles extractor, panics.
    pub serve-Answered :
        (k : KeepsKeys g) (auth_cfg : AuthConfig.Config p) (opts : List (AuthOption p))
        (w : p.World)
        → (Service.new p auth_cfg opts w).0 ≡ ok a
        → (default : Logger) (cfg : Config) (logger : Option Logger)
          (handler : Handler (g.Context × p.World)) (s : g.Context × p.World)
        → Answered (or_default g q proc other default logger) handler (at_door s) (
            serve g q proc other
              (protected_server p now print new_uuid g q a roles default cfg logger)
              handler
              s)
    serve-Answered k auth_cfg opts w built default cfg logger handler s =
        let (c, v) = at_door s in
        Answered-Guarded (or_default g q proc other default logger) handler (c, v)
          (required_auth p g a (require_roles p g a roles handler) (c, v)) _
          (set_of_runs (new-Fits p auth_cfg opts w a built).runs v)
          (required_auth-Guarded p g k a roles handler c v)
          (serve-Rescued g q proc other default cfg logger
            (((required_auth p g a) ∷ (require_roles p g a roles) ∷ []) ∷ []) handler s)
