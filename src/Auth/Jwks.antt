-- ===== src/Auth/Jwks.antt =====
-- auth/jwks_validator.go: local validation against the provider's keys.
use idp_sdk.Common.{
  String, Bool, none, some, List, [], ◌∷◌, ℤ, ◌==◌, ◌<>◌, if◌then◌else◌, Result, ok, err,
}
use idp_sdk.Common.Failure.{wrapped, wrap_with, is_variable, error_text}
use idp_sdk.Auth.Claims.{Claims}
use idp_sdk.Auth.Errors.{err_invalid_token, err_token_expired}
use idp_sdk.Auth.Idp.{Idp, ParserOptions}

module _ (p : Idp) where
  pub record JwksValidator : Type 0 where
    pub keys : p.Keys
    pub issuer : String
    pub audience : String
    pub leeway : ℤ

  abbrev pub with_keys :
      String → String → String → ℤ → Result p.Keys × p.World → Result JwksValidator × p.World
  with_keys uri issuer audience leeway (err e, w) =
      (err (wrap_with ("auth: creating JWKS client for " <> uri <> ": ") e), w)
  with_keys uri issuer audience leeway (ok k, w) =
      (ok (record { keys = k; issuer = issuer; audience = audience; leeway = leeway }), w)

  unfoldable pub new_jwks_validator :
      String → String → String → ℤ → p.World → Result JwksValidator × p.World
  new_jwks_validator uri issuer audience leeway w =
      with_keys uri issuer audience leeway (p.new_keys uri w)

  abbrev pub valid_methods : List String
  valid_methods = "RS256" ∷ "RS384" ∷ "RS512" ∷ "ES256" ∷ "ES384" ∷ "ES512" ∷ []

  unfoldable pub parser_options : JwksValidator → ParserOptions
  parser_options v = record {
    issuer = v.issuer;
    leeway = v.leeway;
    valid_methods = valid_methods;
    audience = if v.audience == "" then none else some v.audience;
  }

  abbrev pub judge : Result (Claims × Bool) → Result Claims
  judge (err e) =
      if is_variable "jwt.ErrTokenExpired" e
      then err err_token_expired
      else err (wrapped ("auth: invalid token: " <> error_text e) err_invalid_token)
  judge (ok (claims, valid)) = if valid then ok claims else err err_invalid_token

  unfoldable pub validate_jwks : JwksValidator → String → p.World → Result Claims × p.World
  validate_jwks v raw_token w =
      let (parsed, w') = p.parse_with_claims (parser_options v) v.keys raw_token w in
      (judge parsed, w')
