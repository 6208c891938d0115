-- ===== src/Auth/Idp.antt =====
-- What auth/ uses and does not implement: the network behind net/http, JSON decoding, the JWKS client
-- and golang-jwt, as a record of calls over a state of the outside world (the identity provider, the
-- clock, the open response bodies).
use idp_sdk.Common.{ℕ, String, Bool, Option, List, ℤ, GoError, Result}
use idp_sdk.Common.Value.{Any}
use idp_sdk.Auth.Claims.{Claims}

-- An `*http.Request` as the package fills it.
pub record Request : Type 0 where
  pub method : String
  pub url : String
  pub body : String
  pub headers : List (String × String)
  pub basic_auth : Option (String × String)

-- The fields of the discovery document that the package reads.
pub record Discovery : Type 0 where
  pub issuer : String
  pub jwks_uri : String
  pub introspection_endpoint : String
  pub token_endpoint : String
  pub authorization_endpoint : String
  pub userinfo_endpoint : String
  pub end_session_endpoint : String

-- `introspectionResponse`
pub record IntrospectionResponse : Type 0 where
  pub active : Bool
  pub exp : ℤ
  pub iat : ℤ
  pub nbf : ℤ

-- The parser options of golang-jwt that are set.
pub record ParserOptions : Type 0 where
  pub issuer : String
  pub leeway : ℤ
  pub valid_methods : List String
  pub audience : Option String

pub record Idp : Type 1 where
  pub World : Type 0
  pub Client : Type 0
  pub Body : Type 0
  pub Keys : Type 0
  -- `&http.Client{Timeout: …}`
  pub new_client : ℤ → Client
  -- the error of `http.NewRequestWithContext`
  pub request_error : String → String → Option GoError
  -- `client.Do`; the status and the body of the response
  pub send : Client → Request → World → Result (ℕ × Body) × World
  pub close : Body → World → World
  pub read_all : Body → World → Result String × World
  pub encode_form : List (String × String) → String
  pub decode_discovery : Body → World → Result Discovery × World
  pub decode_introspection : String → Result IntrospectionResponse
  pub decode_raw : String → Result (List (String × Any))
  -- `keyfunc.NewDefaultCtx`
  pub new_keys : String → World → Result Keys × World
  -- `jwt.ParseWithClaims`: the claims, and whether the token is valid
  pub parse_with_claims : ParserOptions → Keys → String → World → Result (Claims × Bool) × World
