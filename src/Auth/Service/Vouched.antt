-- ===== src/Auth/Service/Vouched.antt =====
-- What the validators of auth/auth.go take a token for.
use idp_sdk.Common.{
  String, ◌≡◌, refl, ap, ◌⊎◌, inl, inr, Bool, true, false, none, some, Bool-cases, Result, ok, err,
  ok-injective,
}
use idp_sdk.Common.Failure.{is_variable}
use idp_sdk.Auth.Claims.{Claims}
use idp_sdk.Auth.Idp.{Idp}
use idp_sdk.Auth.Introspection.{validate_introspection}
use idp_sdk.Auth.Introspection.Accepted.{Answered as Introspected, validate_introspection-Answered}
use idp_sdk.Auth.Jwks.{judge, parser_options, validate_jwks}
use idp_sdk.Auth.Service.{Validator, unset, jwks, introspection, Auth, validate_by, validate_token}

-- The outcome of a token at a validator: that of the local validation with the provider's keys, or
-- that of the provider's introspection.
abbrev pub Validates : {p : Idp} → Validator p → String → p.World → Result Claims → p.World → Type 0
Validates unset token w r w' = ⊥
Validates {p = p} (jwks v) token w r w' = validate_jwks p v token w ≡ (r, w')
Validates (introspection v) token w r w' = validate_introspection v token w ≡ (r, w')

-- The provider stands for these claims of a token: its keys verify the token, which the parser calls
-- valid, or its introspection endpoint's answer to the token is accepted.
abbrev pub Vouched : {p : Idp} → Validator p → String → p.World → Claims → Type 0
Vouched unset token w cl = ⊥
Vouched {p = p} (jwks v) token w cl =
    (p.parse_with_claims (parser_options p v) v.keys token w).0 ≡ ok (cl, true)
Vouched (introspection v) token w cl = Introspected v token w cl

judge-valid :
    (p : Idp) (r : Result (Claims × Bool)) (cl : Claims) → judge p r ≡ ok cl → r ≡ ok (cl, true)
judge-valid p (err e) cl h = elim (Bool-cases (is_variable "jwt.ErrTokenExpired" e)) [
  | inl expired ↦ cc (rw (expired, judge) at h)
  | inr other ↦ cc (rw (other, judge) at h)
]
judge-valid p (ok (c, true)) cl h = ap (λ x. ok (x, true)) (ok-injective h)
judge-valid p (ok (c, false)) cl h = cc

pub Validates-Vouched :
    {p : Idp} (v : Validator p) (token : String) (w w' : p.World) (cl : Claims)
    → Validates v token w (ok cl) w'
    → Vouched v token w cl
unfolding validate_jwks
Validates-Vouched unset token w w' cl h = absurd h
Validates-Vouched {p = p} (jwks v) token w w' cl h =
    judge-valid p (p.parse_with_claims (parser_options p v) v.keys token w).0 cl (ap (λ x. x.0) h)
Validates-Vouched (introspection v) token w w' cl h =
    validate_introspection-Answered v token w cl (ap (λ x. x.0) h)

validate_by-cases :
    {p : Idp} (v : Validator p) (token : String) (w : p.World)
    → ((v ≡ unset) × (validate_by p v token w ≡ none))
      ⊎ ((r : Result Claims) × (w' : p.World) × Validates v token w r w'
          × (validate_by p v token w ≡ some (r, w')))
validate_by-cases unset token w = inl (refl, refl)
validate_by-cases {p = p} (jwks v) token w =
    let r = validate_jwks p v token w in inr (r.0, r.1, refl, refl)
validate_by-cases (introspection v) token w =
    let r = validate_introspection v token w in inr (r.0, r.1, refl, refl)

-- A token is validated at the instance's validator, except where that is nil.
pub validate_token-cases :
    {p : Idp} (a : Auth p) (token : String) (w : p.World)
    → ((a.validator ≡ unset) × (validate_token p a token w ≡ none))
      ⊎ ((r : Result Claims) × (w' : p.World) × Validates a.validator token w r w'
          × (validate_token p a token w ≡ some (r, w')))
unfolding validate_token
validate_token-cases a token w = validate_by-cases a.validator token w
