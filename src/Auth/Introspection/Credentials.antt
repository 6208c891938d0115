-- ===== src/Auth/Introspection/Credentials.antt =====
-- What auth/introspection_validator.go sends to the endpoint, and that it releases the answer.
use idp_sdk.Common.{
  ℕ, ◌+◌, String, ◌≡◌, refl, ◌↔◌, Option, none, some, arith, GoError, Result, ok, err,
}
use idp_sdk.Auth.Idp.{Idp}
use idp_sdk.Auth.Provider.Discovered.{Bodies}
use idp_sdk.Auth.Introspection.{
  IntrospectionValidator, new_introspection_validator, request_of, receive, submit,
  validate_introspection,
}

-- A validator authenticates every request with the client id as its password too: the configured
-- secret is sent exactly if it is the same text as the client id.
pub basic_auth_iff :
    (p : Idp) (endpoint id secret issuer audience raw_token : String) (client : p.Client)
    → ((request_of
          (new_introspection_validator {p = p} endpoint id secret issuer audience client)
          raw_token).basic_auth
        ≡ some (id, secret))
      ↔ (secret ≡ id)
unfolding request_of new_introspection_validator
basic_auth_iff p endpoint id secret issuer audience raw_token client =
    (λ h. ground arith, λ h. ground arith)

module _ {p : Idp} (live : p.World → ℕ) (t : Bodies p live) (v : IntrospectionValidator p) where
  receive-live :
      (n : ℕ) (r : Result (ℕ × p.Body) × p.World)
      → ((status : ℕ) (body : p.Body) → r.0 ≡ ok (status, body) → live r.1 ≡ n + 1)
      → ((e : GoError) → r.0 ≡ err e → live r.1 ≡ n)
      → live (receive v r).1 ≡ n
  receive-live n (err e, w) opens fails = fails e refl
  receive-live n (ok (status, body), w) opens fails =
      let (bytes, w') = p.read_all body w in
      ground (arith, opens status body refl, t.closes body w, t.closes body w', t.reads body w)

  submit-live :
      (raw_token : String) (o : Option GoError) (w : p.World)
      → live (submit v raw_token o w).1 ≡ live w
  submit-live raw_token (some e) w = refl
  submit-live raw_token none w =
      let request = request_of v raw_token in
      receive-live (live w) (p.send v.client request w) (t.opens v.client request w)
        (t.fails v.client request w)

  -- net/http counting response bodies as documented, a validation closes the body of its response on
  -- every path.
  pub validate_introspection-live :
      (raw_token : String) (w : p.World) → live (validate_introspection v raw_token w).1 ≡ live w
  unfolding validate_introspection
  validate_introspection-live raw_token w =
      submit-live raw_token (p.request_error "POST" v.endpoint) w
