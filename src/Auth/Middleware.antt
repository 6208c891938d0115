-- ===== src/Auth/Middleware.antt =====
-- auth/middleware.go: the bearer token of a request, and the Gin middleware.
-- A handler takes the context and the outside world, and the rest of its chain as a function; where
-- a validator panics on nil the handler has no result.
pub mod Token
pub mod Protected
use idp_sdk.Common.{
  ℕ, String, Bool, true, false, not, Option, none, some, List, [], ◌∷◌, ◌==◌, if◌then◌else◌,
  cut_prefix, trim_space, GoError, Result, ok, err,
}
use idp_sdk.Common.Failure.{is_variable, error_text}
use idp_sdk.Common.Value.{Fields, text, field, end}
use idp_sdk.Auth.Claims.{Claims}
use idp_sdk.Auth.Errors.{
  err_missing_token, err_invalid_token, err_token_expired, err_token_inactive,
  err_insufficient_role,
}
use idp_sdk.Auth.Idp.{Idp}
use idp_sdk.Auth.Roles.{Extracted, returns, panics_with, has_any_role}
use idp_sdk.Auth.Service.{Auth, validate_token}
use idp_sdk.Gin.{Gin}
use idp_sdk.Gin.Chain.{Ended, finished, panicked}

-- What a context holds under a key: claims, or something of another type.
pub data Entry : Type 0 where
  claims : Claims → Entry
  other : String → Entry

abbrev pub claims_context_key : String
claims_context_key = "auth.claims"

abbrev after_prefix : Option String → Result String
after_prefix none = err err_missing_token
after_prefix (some rest) =
    let token = trim_space rest in if token == "" then err err_missing_token else ok token

-- `HasPrefix` and `TrimPrefix` are one cut.
unfoldable pub extract_bearer_token : String → Result String
extract_bearer_token header =
    if header == "" then err err_missing_token else after_prefix (cut_prefix "Bearer " header)

-- The text of the answer to an unauthorized request.
unfoldable pub unauthorized_text : GoError → String
unfolding is_variable error_text
unauthorized_text e =
    if is_variable "auth.ErrMissingToken" e
    then error_text err_missing_token
    else if is_variable "auth.ErrTokenExpired" e
    then error_text err_token_expired
    else if is_variable "auth.ErrTokenInactive" e
    then error_text err_token_inactive
    else if is_variable "auth.ErrInvalidToken" e
    then error_text err_invalid_token
    else error_text e

-- The value of the panic of a call on a nil interface.
abbrev pub nil_pointer : String
nil_pointer = "runtime error: invalid memory address or nil pointer dereference"

abbrev pub error_body : String → Fields
error_body message = field "error" (text message) end

module _ (p : Idp) (g : Gin Entry) where
  abbrev pub State : Type 0
  State = g.Context × p.World

  -- The rest of a chain.
  abbrev pub Handler : Type 0
  Handler = State → Ended State

  abbrev as_claims : Option Entry → Option Claims
  as_claims none = none
  as_claims (some (claims c)) = some c
  as_claims (some (other s)) = none

  unfoldable pub get_claims : g.Context → Option Claims
  get_claims c = as_claims (g.get claims_context_key c)

  unfoldable pub abort_unauthorized : g.Context → GoError → g.Context
  abort_unauthorized c e =
      g.abort_with_status_json 401 (error_body (unauthorized_text e))
        (g.header "WWW-Authenticate" "Bearer error=\"invalid_token\"" c)

  abbrev pub with_token : Auth p → Result String → p.World → Option (Result Claims × p.World)
  with_token a (err e) w = some (err e, w)
  with_token a (ok token) w = validate_token p a token w

  unfoldable pub authenticate : Auth p → g.Context → p.World → Option (Result Claims × p.World)
  authenticate a c w = with_token a (extract_bearer_token (g.get_header "Authorization" c)) w

  -- The state is that before the authentication, for a panic.
  abbrev admit : State → Handler → Option (Result Claims × p.World) → Ended State
  admit s next none = panicked nil_pointer s
  admit (c, v) next (some (err e, w)) = finished (abort_unauthorized c e, w)
  admit (c, v) next (some (ok cl, w)) = next (g.set claims_context_key (claims cl) c, w)

  unfoldable pub required_auth : Auth p → Handler → Handler
  required_auth a next (c, w) = admit (c, w) next (authenticate a c w)

  abbrev admit_any : State → Handler → Option (Result Claims × p.World) → Ended State
  admit_any s next none = panicked nil_pointer s
  admit_any (c, v) next (some (err e, w)) = next (c, w)
  admit_any (c, v) next (some (ok cl, w)) = next (g.set claims_context_key (claims cl) c, w)

  unfoldable pub optional_auth : Auth p → Handler → Handler
  optional_auth a next (c, w) = admit_any (c, w) next (authenticate a c w)

  abbrev by_roles : List String → Handler → State → Extracted → Ended State
  by_roles roles next s (panics_with v) = panicked v s
  by_roles roles next (c, w) (returns have) =
      if not (has_any_role have roles)
      then finished
          (g.abort_with_status_json 403 (error_body (error_text err_insufficient_role)) c, w)
      else next (c, w)

  abbrev with_claims : Auth p → List String → Handler → Option Claims → State → Ended State
  with_claims a roles next none (c, w) = finished (abort_unauthorized c err_missing_token, w)
  with_claims a roles next (some cl) (c, w) = by_roles roles next (c, w) (a.roles_extractor cl)

  unfoldable pub require_roles : Auth p → List String → Handler → Handler
  require_roles a roles next (c, w) = with_claims a roles next (get_claims c) (c, w)
