-- ===== src/Auth/Middleware/Protected.antt =====
-- What the middleware of auth/middleware.go lets through, alone and in a chain.
use idp_sdk.Common.{
  String, ◌≡◌, refl, ◌⊎◌, inl, inr, Option, some, List, [], Memᴰ, Bool-cases, GoError, Result, ok,
  err,
}
use idp_sdk.Common.Failure.{error_text}
use idp_sdk.Common.Value.{text, field, end}
use idp_sdk.Auth.Claims.{Claims}
use idp_sdk.Auth.Idp.{Idp}
use idp_sdk.Auth.Middleware.{
  Entry, claims, claims_context_key, nil_pointer, unauthorized_text, Handler, State, get_claims,
  abort_unauthorized, authenticate, by_roles, admit, required_auth, optional_auth, require_roles,
}
use idp_sdk.Auth.Roles.{Extracted, returns, panics_with, has_any_role}
use idp_sdk.Auth.Roles.Grants.{has_any_role_iff}
use idp_sdk.Auth.Middleware.Token.{Carries, extract_bearer_token-cases}
use idp_sdk.Auth.Service.{Auth, unset, validate_token}
use idp_sdk.Auth.Service.Vouched.{Validates, Vouched, Validates-Vouched, validate_token-cases}
use idp_sdk.Gin.{Gin}
use idp_sdk.Gin.Chain.{Ended, finished, panicked}

-- Gin's keys as documented: `Get` of a key returns what `Set` stored under it.
pub record KeepsKeys (g : Gin Entry) : Type 0 where
  pub get_set : (key : String) (e : Entry) (c : g.Context) → g.get key (g.set key e c) ≡ some e

-- No role is asked for, or these roles hold one of those that are.
abbrev pub MayPass : List String → List String → Type 0
MayPass have roles = (roles ≡ []) ⊎ ((role : String) × Memᴰ role have × Memᴰ role roles)

-- The context of an authenticated request.
abbrev pub authenticated : (p : Idp) (g : Gin Entry) → Claims → g.Context → g.Context
authenticated p g cl c = g.set claims_context_key (claims cl) c

-- The answer to a request that is not authenticated: status 401, the header that asks for a bearer
-- token, and the reason.
abbrev pub unauthorized : (p : Idp) (g : Gin Entry) → String → State p g → Ended (State p g)
unauthorized p g reason (c, w) = finished (
  g.abort_with_status_json 401 (field "error" (text reason) end)
      (g.header "WWW-Authenticate" "Bearer error=\"invalid_token\"" c),
  w,
)

-- The answer to a request whose claims hold none of the roles: status 403.
abbrev pub forbidden : (p : Idp) (g : Gin Entry) → State p g → Ended (State p g)
forbidden p g (c, w) =
    finished
      (g.abort_with_status_json 403 (field "error" (text "auth: insufficient role") end) c, w)

-- The answer to authenticated claims by the roles that the extractor finds in them: 403 where they
-- hold none of the asked ones, and else that of the rest of the chain. A panic of the extractor is one
-- of the chain.
abbrev pub ByRoles :
    (p : Idp) (g : Gin Entry)
    → List String
    → Handler p g
    → State p g
    → Extracted
    → Ended (State p g)
    → Type 0
ByRoles p g roles next s (panics_with v) result = result ≡ panicked v s
ByRoles p g roles next s (returns have) result =
    (MayPass have roles × (result ≡ next s)) ⊎ ((¬ MayPass have roles) × (result ≡ forbidden p g s))

module _ (p : Idp) (g : Gin Entry) (a : Auth p) (roles : List String) (next : Handler p g) where
  -- The answer to a request whose header carries this token, in front of roles.
  abbrev pub Judged : String → State p g → Ended (State p g) → Type 0
  Judged token (c, w) result =
      ((a.validator ≡ unset) × (result ≡ panicked nil_pointer (c, w)))
      ⊎ ((e : GoError) × (w' : p.World) × Validates a.validator token w (err e) w'
          × (result ≡ unauthorized p g (unauthorized_text e) (c, w')))
      ⊎ ((cl : Claims) × (w' : p.World) × Validates a.validator token w (ok cl) w'
          × Vouched a.validator token w cl
          × ByRoles p g roles next (authenticated p g cl c, w') (a.roles_extractor cl) result)

  -- The answer to a request in front of roles, by its Authorization header: 401 at once where that
  -- carries no token, and else by the validator's outcome for the token that it carries.
  abbrev pub Guarded : State p g → Ended (State p g) → Type 0
  Guarded (c, w) result =
      (((token : String) → ¬ Carries (g.get_header "Authorization" c) token)
        × (result ≡ unauthorized p g "auth: missing bearer token" (c, w)))
      ⊎ ((token : String) × Carries (g.get_header "Authorization" c) token
          × Judged token (c, w) result)

module _ (p : Idp) (g : Gin Entry) (a : Auth p) (next : Handler p g) where
  -- The same where authentication is optional: the rest of the chain always runs, once, with the
  -- claims in the context only where the provider stands for them.
  abbrev pub Offered : State p g → Ended (State p g) → Type 0
  Offered (c, w) result =
      (((token : String) → ¬ Carries (g.get_header "Authorization" c) token)
        × (result ≡ next (c, w)))
      ⊎ ((token : String) × Carries (g.get_header "Authorization" c) token
          × (((a.validator ≡ unset) × (result ≡ panicked nil_pointer (c, w)))
              ⊎ ((e : GoError) × (w' : p.World) × Validates a.validator token w (err e) w'
                  × (result ≡ next (c, w')))
              ⊎ ((cl : Claims) × (w' : p.World) × Validates a.validator token w (ok cl) w'
                  × Vouched a.validator token w cl
                  × (result ≡ next (authenticated p g cl c, w')))))

module _ (p : Idp) (g : Gin Entry) (k : KeepsKeys g) (a : Auth p) (roles : List String)
    (next : Handler p g) where
  get_claims-set : (cl : Claims) (c : g.Context) → get_claims p g (authenticated p g cl c) ≡ some cl
  unfolding get_claims
  get_claims-set cl c = rw (k.get_set claims_context_key (claims cl) c)

  by_roles-ByRoles :
      (s : State p g) (x : Extracted) → ByRoles p g roles next s x (by_roles p g roles next s x)
  unfolding error_text
  by_roles-ByRoles s (panics_with v) = refl
  by_roles-ByRoles s (returns have) =
      let (to, from) = has_any_role_iff have roles in
      elim (Bool-cases (has_any_role have roles)) [
        | inl granted ↦ inl (to granted, rw granted refl)
        | inr denied ↦ inr (λ m. cc (from m, denied), rw denied refl)
      ]

  require_roles-authenticated :
      (cl : Claims) (c : g.Context) (w : p.World)
      → ByRoles p g roles next
          (authenticated p g cl c, w)
          (a.roles_extractor cl)
          (require_roles p g a roles next (authenticated p g cl c, w))
  unfolding require_roles
  require_roles-authenticated cl c w =
      rw (get_claims-set cl c) (by_roles-ByRoles (authenticated p g cl c, w) (a.roles_extractor cl))

  admit-Judged :
      (token : String) (s : State p g) (o : Option (Result Claims × p.World))
      → validate_token p a token s.1 ≡ o
      → Judged p g a roles next token s (admit p g s (require_roles p g a roles next) o)
  unfolding abort_unauthorized error_text
  admit-Judged token (c, w) o q = elim (validate_token-cases a token w) [
    | inl (nil, same) ↦ inl (nil, rw (← q, same) refl)
    | inr (err e, w', v, same) ↦ inr (inl (e, w', v, rw (← q, same) refl))
    | inr (ok cl, w', v, same) ↦ inr (
        inr (
          cl,
          w',
          v,
          Validates-Vouched a.validator token w w' cl v,
          rw (← q, same) (require_roles-authenticated cl c w'),
        ))
  ]

  -- An endpoint behind RequiredAuth and RequireRoles, Gin storing keys as documented. A request whose
  -- Authorization header carries no bearer token is answered with status 401, and no validator runs.
  -- Else the validator is asked about the token that it carries: where that fails, the answer is
  -- status 401; where the provider stands for claims that hold none of the asked roles, 403; and the
  -- rest of the chain runs only where they hold one, or none is asked for, and finds those claims in
  -- the context. Where the validator is nil or the roles extractor panics, so does the chain.
  pub required_auth-Guarded :
      (c : g.Context) (w : p.World)
      → Guarded p g a roles next
          (c, w)
          (required_auth p g a (require_roles p g a roles next) (c, w))
  unfolding required_auth authenticate abort_unauthorized unauthorized_text
  required_auth-Guarded c w = elim (extract_bearer_token-cases (g.get_header "Authorization" c)) [
    | inl (token, carries, taken) ↦
        inr (token, carries, rw taken (admit-Judged token (c, w) (validate_token p a token w) refl))
    | inr (missing, refused) ↦ inl (missing, rw refused refl)
  ]

  -- Behind OptionalAuth, the rest of the chain runs for every request whose validator is not nil, and
  -- none is answered with 401: with the context as it was where the Authorization header carries no
  -- bearer token or the validator refuses the one that it carries, and with the claims of that token
  -- in the context where the provider stands for them.
  pub optional_auth-Offered :
      (c : g.Context) (w : p.World) → Offered p g a next (c, w) (optional_auth p g a next (c, w))
  unfolding optional_auth authenticate
  optional_auth-Offered c w = elim (extract_bearer_token-cases (g.get_header "Authorization" c)) [
    | inr (missing, refused) ↦ inl (missing, rw refused refl)
    | inl (token, carries, taken) ↦ elim (validate_token-cases a token w) [
      | inl (nil, same) ↦ inr (token, carries, inl (nil, rw (taken, same) refl))
      | inr (err e, w', v, same) ↦ inr (token, carries, inr (inl (e, w', v, rw (taken, same) refl)))
      | inr (ok cl, w', v, same) ↦ inr (
        token,
        carries,
        inr (inr (cl, w', v, Validates-Vouched a.validator token w w' cl v, rw (taken, same) refl)),
      )
    ]
  ]
