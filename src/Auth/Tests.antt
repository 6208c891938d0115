-- ===== src/Auth/Tests.antt =====
-- Runs of auth/, and its theorems at concrete inputs.
use idp_sdk.Common.{
  String, ◌≡◌, refl, ◌↔◌, none, some, [], ◌∷◌, pos, Memᴰ, arith, lookup, cut_prefix, trim_space, ok,
}
use idp_sdk.Common.Value.{Any, end}
use idp_sdk.Gin.Plain.{Plain, plain as gin, request}
use idp_sdk.Auth.Claims.{slice_of, strings_of, nested_from, nested_string_slice}
use idp_sdk.Auth.Claims.Paths.{At, Yields, nested_string_slice_iff}
use idp_sdk.Auth.Roles.{default_roles_extractor}
use idp_sdk.Auth.Roles.Grants.{Else, FromRealm, FromClaim, default_roles_extractor_iff}
use idp_sdk.Auth.Config.{set_defaults, validate}
use idp_sdk.Auth.Provider.{discover}
use idp_sdk.Auth.Provider.Discovered.{Bodies, Discovered, discover-Discovered}
use idp_sdk.Auth.Introspection.{
  new_introspection_validator, audience_contains, claims_of, request_of, check_claims,
  validate_introspection,
}
use idp_sdk.Auth.Introspection.Accepted.{Answered, validate_introspection-Answered}
use idp_sdk.Auth.Introspection.Credentials.{basic_auth_iff}
use idp_sdk.Auth.Service.Built.{Fits, new-Fits}
use idp_sdk.Gin.Chain.{finished}
use idp_sdk.Auth.Middleware.{
  Entry, Handler, extract_bearer_token, required_auth, optional_auth, require_roles,
}
use idp_sdk.Auth.Example.{issuer, raw, answer, idp, config, v, claims, a, built, gin-KeepsKeys}
use idp_sdk.Auth.Middleware.Protected.{
  Guarded, Offered, required_auth-Guarded, optional_auth-Offered,
}

idp-Bodies : Bodies idp (λ w. w)
idp-Bodies = record {
  opens = λ client r w status body h. omega arith;
  fails = λ client r w e h. cc;
  reads = λ b w. refl;
  decodes = λ b w. refl;
  closes = λ b w h. omega arith;
}

validated : (validate_introspection v "t" 0).0 ≡ ok claims
unfolding validate_introspection check_claims claims_of audience_contains lookup
validated = refl

listed : Memᴰ "admin" (nested_string_slice claims ("realm_access" ∷ "roles" ∷ []))
unfolding nested_string_slice nested_from slice_of strings_of lookup
listed = Memᴰ.head refl

nested_string_slice_iff_example :
    (value : Any) × At value claims.raw ("realm_access" ∷ "roles" ∷ []) × Yields "admin" value
nested_string_slice_iff_example =
    (nested_string_slice_iff claims ("realm_access" ∷ "roles" ∷ []) "admin").0 listed

extracted : Memᴰ "admin" (default_roles_extractor claims)
unfolding default_roles_extractor nested_string_slice nested_from slice_of strings_of lookup
extracted = Memᴰ.head refl

default_roles_extractor_iff_example :
    Else (FromRealm claims) (Else (FromClaim "roles" claims) (FromClaim "groups" claims)) "admin"
default_roles_extractor_iff_example = (default_roles_extractor_iff claims "admin").0 extracted

accepts : validate config ≡ none
unfolding validate
accepts = refl

discover-Discovered_example : Discovered issuer (discover idp issuer (pos 5) 0).0
discover-Discovered_example = discover-Discovered idp issuer (pos 5) 0

checked : check_claims v answer raw ≡ ok claims
unfolding check_claims claims_of audience_contains lookup
checked = refl

validate_introspection-Answered_example : Answered v "t" 0 claims
validate_introspection-Answered_example = validate_introspection-Answered v "t" 0 claims validated

abbrev id : String
id = "svc"

abbrev secret : String
secret = "s3cret"

basic_auth_iff_example :
    ((request_of
        (new_introspection_validator {p = idp} "https://idp" id secret issuer "api" (pos 5))
        "t").basic_auth
      ≡ some (id, secret))
    ↔ (secret ≡ id)
basic_auth_iff_example = basic_auth_iff idp "https://idp" id secret issuer "api" "t" (pos 5)

new-Fits_example : Fits idp (set_defaults config) 0 a
new-Fits_example = new-Fits idp config [] 0 a built

taken : extract_bearer_token "Bearer  t " ≡ ok "t"
unfolding extract_bearer_token cut_prefix trim_space
taken = refl

abbrev arrived : Plain Entry
arrived = request (("Authorization", "Bearer t") ∷ [])

-- A handler that answers 200.
abbrev served : Handler idp (gin Entry)
served s = finished (record (s.0) { answer = some (200, end) }, s.1)

required_auth-Guarded_example :
    Guarded idp
      (gin Entry)
      a
      ("owner" ∷ [])
      served
      (arrived, 0)
      (required_auth idp
        (gin Entry)
        a
        (require_roles idp (gin Entry) a ("owner" ∷ []) served)
        (arrived, 0))
required_auth-Guarded_example =
    required_auth-Guarded idp (gin Entry) gin-KeepsKeys a ("owner" ∷ []) served arrived 0

optional_auth-Offered_example :
    Offered idp
      (gin Entry)
      a
      served
      (arrived, 0)
      (optional_auth idp (gin Entry) a served (arrived, 0))
optional_auth-Offered_example =
    optional_auth-Offered idp (gin Entry) gin-KeepsKeys a [] served arrived 0
