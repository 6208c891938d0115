-- ===== src/Endpoint.antt =====
-- A protected endpoint of a service: server/server.go with the middleware of auth/middleware.go on an
-- instance that auth/auth.go built.
pub mod Served
pub mod Limited
mod Tests
use idp_sdk.Common.{
  ℕ, zero, suc, ◌+◌, ◌-◌, ◌*◌, ◌/◌, ◌%◌, ◌^◌, ◌≤◌, ◌<◌, String, ◌≡◌, ◌≢◌, refl, sym, ap, ◌∙◌, ◌↔◌,
  ◌⊎◌, inl, inr, Bool, true, false, not, ◌&&◌, ◌||◌, Option, none, some, List, [], ◌∷◌, map, ℤ, pos,
  negsuc, arith, eq_iff, ◌==◌, eqb, ltb, leb, ◌<>◌, if◌then◌else◌, GoError, Result, ok, err,
  Bool-cases, Option-cases, ok-injective,
}
use mathlib.Core.Path.{subst}
use idp_sdk.Common.Failure.{error_text}
use idp_sdk.Gin.{Gin}
use idp_sdk.Gin.Chain.{Ended, finished, panicked, Handler, chain}
use idp_sdk.Slog.{Line, Logger, Process}
use idp_sdk.Logging.{Requests}
use idp_sdk.Server as Server
use idp_sdk.Server.{Config, with_middleware, serve, or_default}
use idp_sdk.Server.Stack.{arrived, Rescued, rescued, serve-Rescued, flatten}
use idp_sdk.Auth.Claims.{Claims}
use idp_sdk.Auth.Config as AuthConfig
use idp_sdk.Auth.Config.{set_defaults}
use idp_sdk.Auth.Errors.{err_insufficient_role}
use idp_sdk.Auth.Idp.{Idp}
use idp_sdk.Auth.Middleware.{
  Entry, other, error_body, abort_unauthorized, authenticate, with_token, extract_bearer_token,
  required_auth, require_roles,
}
use idp_sdk.Auth.Middleware.Protected.{
  KeepsKeys, MayPass, authenticated, Guarded, required_auth-Guarded,
}
use idp_sdk.Auth.Service.{Auth, AuthOption}
use idp_sdk.Auth.Service as Service
use idp_sdk.Auth.Service.Built.{Fits, new-Fits}

module _ (p : Idp) (now : p.World → ℤ) (print : Line → p.World → p.World)
    (new_uuid : p.World → String × p.World) where
  -- The service's process: one outside world for the identity provider and the log.
  abbrev pub process : Process
  process = record { World = p.World; now = now; print = print; new_uuid = new_uuid }

  module _ (g : Gin Entry) (q : Requests g) (a : Auth p) (roles : List String) where
    abbrev pub State : Type 0
    State = g.Context × p.World

    -- `server.New(cfg, logger, WithMiddleware(a.RequiredAuth(), a.RequireRoles(roles...)))`
    abbrev pub protected_server : Logger → Config → Option Logger → Server.Server g q process other
    protected_server default cfg logger =
        (Server.new g q process other default cfg logger (
          (with_middleware g q process other
            ((required_auth p g a) ∷ (require_roles p g a roles) ∷ []))
          ∷ [])).0
