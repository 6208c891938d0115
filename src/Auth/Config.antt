-- ===== src/Auth/Config.antt =====
-- auth/config.go: the configuration, its defaults and its validation. Durations are in nanoseconds.
pub mod Valid
use idp_sdk.Common.{
  quoted, String, Bool, ◌||◌, Option, none, some, ℤ, pos, ◌==◌, ◌<>◌, if◌then◌else◌, GoError,
}
use idp_sdk.Common.Failure.{plain}
use idp_sdk.Common.Int.{positive_or}
use idp_sdk.Auth.Idp.{Idp}

abbrev pub mode_jwks : String
mode_jwks = "jwks"

abbrev pub mode_introspection : String
mode_introspection = "introspection"

pub record Config (p : Idp) : Type 0 where
  pub issuer : String
  pub mode : String
  pub audience : String
  pub client_id : String
  pub client_secret : String
  pub jwks_refresh_interval : ℤ
  pub request_timeout : ℤ
  pub leeway_seconds : ℤ
  pub http_client : Option p.Client

abbrev pub client_or : (p : Idp) → ℤ → Option p.Client → p.Client
client_or p timeout none = p.new_client timeout
client_or p timeout (some client) = client

module _ {p : Idp} where
  unfoldable pub set_defaults : Config p → Config p
  set_defaults c =
      let timeout = positive_or c.request_timeout (pos 5_000_000_000) in
      record {
        issuer = c.issuer;
        mode = if c.mode == "" then mode_jwks else c.mode;
        audience = c.audience;
        client_id = c.client_id;
        client_secret = c.client_secret;
        jwks_refresh_interval = positive_or c.jwks_refresh_interval (pos 3_600_000_000_000);
        request_timeout = timeout;
        leeway_seconds = positive_or c.leeway_seconds (pos 5);
        http_client = some (client_or p timeout c.http_client);
      }

  unfoldable pub validate : Config p → Option GoError
  validate c =
      if c.issuer == ""
      then some (plain "auth: config.Issuer is required")
      else if c.mode == mode_jwks
      then none
      else if c.mode == mode_introspection
      then if c.client_id == "" || c.client_secret == ""
        then some (plain "auth: ModeInstrospection requires ClientID and ClientSecret")
        else none
      else some (
          plain (
            "auth: unknown Mode "
            <> quoted c.mode
            <> " (want "
            <> quoted mode_jwks
            <> " or "
            <> quoted mode_introspection
            <> ")"))
