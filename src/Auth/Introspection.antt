-- ===== src/Auth/Introspection.antt =====
-- auth/introspection_validator.go: validation at the provider's introspection endpoint.
pub mod Audience
pub mod Accepted
pub mod Credentials
use idp_sdk.Common.{
  ℕ, String, Bool, true, false, not, ◌&&◌, ◌||◌, Option, none, some, List, [], ◌∷◌, ℤ, pos, ◌==◌,
  eqb, ◌<>◌, if◌then◌else◌, lookup, GoError, Result, ok, err,
}
use idp_sdk.Common.Decimal.{decimal}
use idp_sdk.Common.Failure.{plain, wrapped, wrap_with, error_text}
use idp_sdk.Common.Int.{leb_ℤ}
use idp_sdk.Common.Value.{Any, text, array, items, as_text, or_nil}
use idp_sdk.Auth.Claims.{Claims, empty_claims, or_empty}
use idp_sdk.Auth.Errors.{err_invalid_token, err_token_inactive}
use idp_sdk.Auth.Idp.{Idp, Request, IntrospectionResponse}

pub record IntrospectionValidator (p : Idp) : Type 0 where
  pub endpoint : String
  pub client_id : String
  pub client_secret : String
  pub issuer : String
  pub audience : String
  pub client : p.Client

-- The source fills `clientSecret` from `clientID`.
unfoldable pub new_introspection_validator :
    {p : Idp}
    → (endpoint client_id client_secret issuer audience : String) → p.Client
    → IntrospectionValidator p
new_introspection_validator endpoint client_id client_secret issuer audience client = record {
  endpoint = endpoint;
  client_id = client_id;
  client_secret = client_id;
  issuer = issuer;
  audience = audience;
  client = client;
}

-- The loop over an array of audiences.
unfoldable pub any_text : List Any → String → Bool
any_text [] want = false
any_text (text s ∷ vs) want = s == want || any_text vs want
any_text (v ∷ vs) want = any_text vs want

unfoldable pub audience_contains : Any → String → Bool
unfolding any_text
audience_contains (text s) want = s == want
audience_contains (array vs) want = any_text (items vs) want
audience_contains _ want = false

-- `raw[key].(string)`, or "" where the claim is no string.
abbrev text_claim : String → List (String × Any) → String
text_claim key raw = or_empty (as_text (or_nil (lookup key raw)))

-- `if n > 0 { jwt.NewNumericDate(time.Unix(n, 0)) }`
abbrev numeric_date : ℤ → Option ℤ
numeric_date n = if leb_ℤ n (pos 0) then none else some n

unfoldable pub claims_of : IntrospectionResponse → List (String × Any) → Claims
claims_of body raw = record empty_claims {
  subject = text_claim "sub" raw;
  issuer = text_claim "iss" raw;
  email = text_claim "email" raw;
  preferred_username = text_claim "preferred_username" raw;
  expires_at = numeric_date body.exp;
  issued_at = numeric_date body.iat;
  raw = raw;
}

abbrev undecodable : GoError → GoError
undecodable = wrap_with "auth: decoding introspection response: "

module _ {p : Idp} where
  unfoldable pub request_of : IntrospectionValidator p → String → Request
  request_of v raw_token = record {
    method = "POST";
    url = v.endpoint;
    body = p.encode_form (("token", raw_token) ∷ ("token_type_hint", "access_token") ∷ []);
    headers = ("Content-Type", "application/x-www-form-urlencoded") ∷ [];
    basic_auth = some (v.client_id, v.client_secret);
  }

  -- The checks on the decoded answer.
  unfoldable pub check_claims :
      IntrospectionValidator p → IntrospectionResponse → List (String × Any) → Result Claims
  check_claims v body raw =
      if not body.active
      then err err_token_inactive
      else let claims = claims_of body raw in
        if not (v.issuer == "") && (not (claims.issuer == "") && not (claims.issuer == v.issuer))
        then err (wrapped "auth: invalid token: issuer mismatch" err_invalid_token)
        else if not (v.audience == "")
            && not (audience_contains (or_nil (lookup "aud" raw)) v.audience)
        then err (wrapped "auth: invalid token: audience mismatch" err_invalid_token)
        else ok claims

  abbrev with_raw :
      IntrospectionValidator p
      → IntrospectionResponse
      → Result (List (String × Any))
      → Result Claims
  with_raw v body (err e) = err (undecodable e)
  with_raw v body (ok raw) = check_claims v body raw

  abbrev with_body :
      IntrospectionValidator p → String → Result IntrospectionResponse → Result Claims
  with_body v bytes (err e) = err (undecodable e)
  with_body v bytes (ok body) = with_raw v body (p.decode_raw bytes)

  abbrev decode : IntrospectionValidator p → Result String → Result Claims
  decode v (err e) = err (wrap_with "auth: reading introspection response: " e)
  decode v (ok bytes) = with_body v bytes (p.decode_introspection bytes)

  -- With a response: its status, its bytes, and the deferred close of the body.
  abbrev receive :
      IntrospectionValidator p → Result (ℕ × p.Body) × p.World → Result Claims × p.World
  receive v (err e, w) = (err (wrap_with "auth: introspection request failed: " e), w)
  receive v (ok (status, body), w) =
      if not (eqb status 200)
      then (
        err (plain ("auth: introspection endpoint returend status " <> decimal (pos status))),
        p.close body w,
      )
      else let (bytes, w') = p.read_all body w in (decode v bytes, p.close body w')

  abbrev submit :
      IntrospectionValidator p → String → Option GoError → p.World → Result Claims × p.World
  submit v raw_token (some e) w = (
    err (
        wrapped ("auth: invalid token: building introspection request: " <> error_text e)
          err_invalid_token),
    w,
  )
  submit v raw_token none w = receive v (p.send v.client (request_of v raw_token) w)

  unfoldable pub validate_introspection :
      IntrospectionValidator p → String → p.World → Result Claims × p.World
  validate_introspection v raw_token w = submit v raw_token (p.request_error "POST" v.endpoint) w
