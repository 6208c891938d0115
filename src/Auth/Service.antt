-- ===== src/Auth/Service.antt =====
-- auth/auth.go and auth/options.go: an Auth instance, from its configuration.
pub mod Built
pub mod Vouched
use idp_sdk.Common.{
  String, Option, none, some, List, [], ◌∷◌, ℤ, pos, ◌==◌, if◌then◌else◌, GoError, Result, ok, err,
}
use idp_sdk.Common.Failure.{plain}
use idp_sdk.Common.Int.{seconds}
use idp_sdk.Auth.Claims.{Claims}
use idp_sdk.Auth.Config.{Config, set_defaults, validate, mode_jwks, mode_introspection, client_or}
use idp_sdk.Auth.Idp.{Idp, Discovery}
use idp_sdk.Auth.Introspection.{
  IntrospectionValidator, new_introspection_validator, validate_introspection,
}
use idp_sdk.Auth.Jwks.{JwksValidator, new_jwks_validator, validate_jwks}
use idp_sdk.Auth.Provider.{discover}
use idp_sdk.Auth.Roles.{RolesExtractor, returns, default_roles_extractor}

module _ (p : Idp) where
  -- The implementations of the interface `Validator`; `unset` is the nil that a mode without a
  -- validator would leave.
  pub data Validator : Type 0 where
    unset : Validator
    jwks : JwksValidator p → Validator
    introspection : IntrospectionValidator p → Validator

  pub record Auth : Type 0 where
    pub cfg : Config p
    pub discovery : Discovery
    pub validator : Validator
    pub roles_extractor : RolesExtractor

  abbrev pub AuthOption : Type 0
  AuthOption = Auth → Auth

  -- What `New` does behind the options: the validator of the mode.
  abbrev with_jwks : Auth → Result (JwksValidator p) × p.World → Result Auth × p.World
  with_jwks a (err e, w) = (err e, w)
  with_jwks a (ok v, w) = (ok (record a { validator = jwks v }), w)

  unfoldable pub build : Config p → p.Client → Discovery → Auth → p.World → Result Auth × p.World
  build cfg client doc a w =
      if cfg.mode == mode_jwks
      then with_jwks a
          (new_jwks_validator p doc.jwks_uri cfg.issuer cfg.audience (seconds cfg.leeway_seconds) w)
      else if cfg.mode == mode_introspection
      then if doc.introspection_endpoint == ""
        then (
          err (
              plain
                "auth: IdP discovery document has no introspection_endpoint, ModeInstrospection unavailable"),
          w,
        )
        else (
          ok (record a {
            validator = introspection (
                new_introspection_validator doc.introspection_endpoint cfg.client_id
                  cfg.client_secret cfg.issuer cfg.audience client);
          }),
          w,
        )
      else (ok a, w)

  abbrev apply_options : List AuthOption → Auth → Auth
  apply_options [] a = a
  apply_options (opt ∷ opts) a = apply_options opts (opt a)

  abbrev with_document :
      Config p → p.Client → List AuthOption → Result Discovery × p.World → Result Auth × p.World
  with_document cfg client opts (err e, w) = (err e, w)
  with_document cfg client opts (ok doc, w) =
      let bare : Auth = record {
        cfg = cfg;
        discovery = doc;
        validator = unset;
        roles_extractor = λ c. returns (default_roles_extractor c);
      } in
      build cfg client doc (apply_options opts bare) w

  abbrev validated : Config p → List AuthOption → Option GoError → p.World → Result Auth × p.World
  validated cfg opts (some e) w = (err e, w)
  validated cfg opts none w =
      let client = client_or p cfg.request_timeout cfg.http_client in
      with_document cfg client opts (discover p cfg.issuer client w)

  unfoldable pub new : Config p → List AuthOption → p.World → Result Auth × p.World
  new cfg opts w = let full = set_defaults cfg in validated full opts (validate full) w

  -- `WithRolesExtractor`
  unfoldable pub with_roles_extractor : RolesExtractor → AuthOption
  with_roles_extractor extractor a = record a { roles_extractor = extractor }

  abbrev validate_by : Validator → String → p.World → Option (Result Claims × p.World)
  validate_by unset raw_token w = none
  validate_by (jwks v) raw_token w = some (validate_jwks p v raw_token w)
  validate_by (introspection v) raw_token w = some (validate_introspection v raw_token w)

  -- `Auth.Validate`; `none` is the panic of a call on a nil interface.
  unfoldable pub validate_token : Auth → String → p.World → Option (Result Claims × p.World)
  validate_token a raw_token w = validate_by a.validator raw_token w

  -- `Auth.Discovery`
  unfoldable pub discovery_of : Auth → Discovery
  discovery_of a = a.discovery
