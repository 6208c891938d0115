-- ===== src/Auth/Example.antt =====
-- An identity provider with one answer, and an instance of auth/auth.go for it, for the tests.
use idp_sdk.Common.{
  eq_refl, ◌∙◌, lookup-insert, ℕ, suc, ◌-◌, String, ◌≡◌, refl, true, none, some, List, [], ◌∷◌, ℤ,
  pos, ok, err,
}
use idp_sdk.Common.Failure.{plain}
use idp_sdk.Common.Value.{Any, text, array, object, none_left, item, end, field}
use idp_sdk.Gin.Plain.{plain as gin}
use idp_sdk.Auth.Claims.{Claims, empty_claims}
use idp_sdk.Auth.Roles.{returns, default_roles_extractor}
use idp_sdk.Auth.Idp.{Idp, Discovery, IntrospectionResponse}
use idp_sdk.Auth.Config.{Config, mode_introspection, set_defaults, validate}
use idp_sdk.Auth.Provider.{discover, well_known, check_document, trim_slash}
use idp_sdk.Auth.Introspection.{IntrospectionValidator, new_introspection_validator}
use idp_sdk.Auth.Service.{Auth, introspection, build, new}
use idp_sdk.Auth.Middleware.{Entry}
use idp_sdk.Auth.Middleware.Protected.{KeepsKeys}

abbrev pub issuer : String
issuer = "https://idp.example.com/realms/platform"

abbrev pub document : Discovery
document = record {
  issuer = issuer;
  jwks_uri = "https://idp.example.com/keys";
  introspection_endpoint = "https://idp.example.com/introspect";
  token_endpoint = "";
  authorization_endpoint = "";
  userinfo_endpoint = "";
  end_session_endpoint = "";
}

abbrev pub raw : List (String × Any)
raw =
    ("sub", text "u1")
    ∷ ("iss", text issuer)
    ∷ ("aud", array (item (text "web") (item (text "api") none_left)))
    ∷ ("realm_access", object (field "roles" (array (item (text "admin") none_left)) end))
    ∷ ("groups", text "staff")
    ∷ []

abbrev pub answer : IntrospectionResponse
answer = record { active = true; exp = pos 100; iat = pos 0; nbf = pos 0 }

-- A provider that answers every request. Its state is the number of open response bodies.
abbrev pub idp : Idp
idp = record {
  World = ℕ;
  Client = ℤ;
  Body = String;
  Keys = String;
  new_client = λ timeout. timeout;
  request_error = λ method url. none;
  send = λ client r w. (ok (200, r.url), suc w);
  close = λ body w. w - 1;
  read_all = λ body w. (ok body, w);
  encode_form = λ values. "";
  decode_discovery = λ body w. (ok document, w);
  decode_introspection = λ bytes. ok answer;
  decode_raw = λ bytes. ok raw;
  new_keys = λ uri w. (ok uri, w);
  parse_with_claims = λ options keys token w. (err (plain "no keys"), w);
}

abbrev pub config : Config idp
config = record {
  issuer = issuer;
  mode = mode_introspection;
  audience = "api";
  client_id = "svc";
  client_secret = "s3cret";
  jwks_refresh_interval = pos 0;
  request_timeout = pos 0;
  leeway_seconds = pos 0;
  http_client = none;
}

abbrev pub v : IntrospectionValidator idp
v = record {
  endpoint = "https://idp.example.com/introspect";
  client_id = "svc";
  client_secret = "svc";
  issuer = issuer;
  audience = "api";
  client = pos 5_000_000_000;
}

abbrev pub claims : Claims
claims = record empty_claims {
  subject = "u1";
  issuer = issuer;
  expires_at = some (pos 100);
  raw = raw;
}

abbrev pub a : Auth idp
a = record {
  cfg = record config {
    jwks_refresh_interval = pos 3_600_000_000_000;
    request_timeout = pos 5_000_000_000;
    leeway_seconds = pos 5;
    http_client = some (pos 5_000_000_000);
  };
  discovery = document;
  validator = introspection v;
  roles_extractor = λ c. returns (default_roles_extractor c);
}

pub built : (new idp config [] 0).0 ≡ ok a
unfolding new set_defaults validate discover well_known trim_slash check_document build
    new_introspection_validator
built = refl

pub gin-KeepsKeys : KeepsKeys (gin Entry)
gin-KeepsKeys = record { get_set = λ key e c. lookup-insert key key e c.keys ∙ rw eq_refl }
