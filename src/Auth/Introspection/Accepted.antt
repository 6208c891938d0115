-- ===== src/Auth/Introspection/Accepted.antt =====
-- Which answers of the introspection endpoint auth/introspection_validator.go accepts.
use idp_sdk.Common.{
  ℕ, String, ◌≡◌, refl, ◌↔◌, ◌⊎◌, inl, inr, true, false, Option, none, some, List, [], ◌∷◌, eqb,
  eq_iff, lookup, arith, Bool-cases, GoError, Result, ok, err,
}
use idp_sdk.Common.Value.{Any, or_nil}
use idp_sdk.Auth.Claims.{Claims}
use idp_sdk.Auth.Claims.Paths.{Yields}
use idp_sdk.Auth.Idp.{Idp, Request, IntrospectionResponse}
use idp_sdk.Auth.Introspection.Audience.{audience_contains_iff}
use idp_sdk.Auth.Introspection.{
  IntrospectionValidator, audience_contains, text_claim, claims_of, request_of, check_claims,
  with_raw, with_body, decode, receive, submit, validate_introspection,
}

module _ {p : Idp} (v : IntrospectionValidator p) where
  -- An answer for an active token whose issuer, where both are given, is the configured one, and
  -- whose audience claim holds the configured audience, where one is.
  pub record IsAccepted (body : IntrospectionResponse) (raw : List (String × Any)) : Type 0 where
    pub active : body.active ≡ true
    pub issuer : (v.issuer ≡ "") ⊎ (text_claim "iss" raw ≡ "") ⊎ (text_claim "iss" raw ≡ v.issuer)
    pub audience : (v.audience ≡ "") ⊎ Yields v.audience (or_nil (lookup "aud" raw))

  issuer-claims_of :
      (body : IntrospectionResponse) (raw : List (String × Any))
      → (claims_of body raw).issuer ≡ text_claim "iss" raw
  unfolding claims_of
  issuer-claims_of body raw = refl

  audience_passes :
      (raw : List (String × Any))
      → (v.audience ≡ "") ⊎ Yields v.audience (or_nil (lookup "aud" raw))
      → (v.audience ≡ "") ⊎ (audience_contains (or_nil (lookup "aud" raw)) v.audience ≡ true)
  audience_passes raw (inl e) = inl e
  audience_passes raw (inr y) =
      inr ((audience_contains_iff (or_nil (lookup "aud" raw)) v.audience).1 y)

  check_claims-IsAccepted :
      (body : IntrospectionResponse) (raw : List (String × Any)) (claims : Claims)
      → check_claims v body raw ≡ ok claims
      → IsAccepted body raw × (claims ≡ claims_of body raw)
  unfolding check_claims
  check_claims-IsAccepted body raw claims h = (
    record {
      active = ground arith;
      issuer = ground (
        arith,
        issuer-claims_of body raw,
        eq_iff v.issuer "",
        eq_iff (text_claim "iss" raw) "",
        eq_iff (text_claim "iss" raw) v.issuer,
      );
      audience = elim (Bool-cases (audience_contains (or_nil (lookup "aud" raw)) v.audience)) [
        | inl found ↦ inr ((audience_contains_iff (or_nil (lookup "aud" raw)) v.audience).0 found)
        | inr missing ↦ inl (ground (arith, eq_iff v.audience ""))
      ];
    },
    ground arith,
  )

  check_claims_of_IsAccepted :
      (body : IntrospectionResponse) (raw : List (String × Any))
      → IsAccepted body raw
      → check_claims v body raw ≡ ok (claims_of body raw)
  unfolding check_claims
  check_claims_of_IsAccepted body raw a = ground (
    arith,
    a.active,
    a.issuer,
    audience_passes raw a.audience,
    issuer-claims_of body raw,
    eq_iff v.issuer "",
    eq_iff (text_claim "iss" raw) "",
    eq_iff (text_claim "iss" raw) v.issuer,
    eq_iff v.audience "",
  )

  -- The checks pass exactly for an accepted answer, and then give its claims.
  pub check_claims_iff :
      (body : IntrospectionResponse) (raw : List (String × Any)) (claims : Claims)
      → (check_claims v body raw ≡ ok claims)
        ↔ (IsAccepted body raw × (claims ≡ claims_of body raw))
  check_claims_iff body raw claims = (
    check_claims-IsAccepted body raw claims,
    λ h. rw h.1 (check_claims_of_IsAccepted body raw h.0),
  )

  -- The request for a token: the token in the form of a POST to the endpoint, with the credentials
  -- of the client.
  abbrev pub asking : String → Request
  asking raw_token = record {
    method = "POST";
    url = v.endpoint;
    body = p.encode_form (("token", raw_token) ∷ ("token_type_hint", "access_token") ∷ []);
    headers = ("Content-Type", "application/x-www-form-urlencoded") ∷ [];
    basic_auth = some (v.client_id, v.client_secret);
  }

  -- The endpoint's response to the request for this token, in this world, yields these claims: its
  -- status is 200, and its bytes decode to an accepted answer.
  pub record Answered (raw_token : String) (w : p.World) (claims : Claims) : Type 0 where
    pub response : p.Body
    pub responded : (p.send v.client (asking raw_token) w).0 ≡ ok (200, response)
    pub bytes : String
    pub read : (p.read_all response (p.send v.client (asking raw_token) w).1).0 ≡ ok bytes
    pub body : IntrospectionResponse
    pub raw : List (String × Any)
    pub decoded_body : p.decode_introspection bytes ≡ ok body
    pub decoded_raw : p.decode_raw bytes ≡ ok raw
    pub accepted : IsAccepted body raw
    pub same : claims ≡ claims_of body raw

  -- What the decoding of these bytes has gone through.
  record Decoded (bytes : String) (claims : Claims) : Type 0 where
    body : IntrospectionResponse
    raw : List (String × Any)
    decoded_body : p.decode_introspection bytes ≡ ok body
    decoded_raw : p.decode_raw bytes ≡ ok raw
    accepted : IsAccepted body raw
    same : claims ≡ claims_of body raw

  with_raw-Decoded :
      (bytes : String) (body : IntrospectionResponse) (claims : Claims)
      (r : Result (List (String × Any)))
      → p.decode_introspection bytes ≡ ok body
      → p.decode_raw bytes ≡ r
      → with_raw v body r ≡ ok claims
      → Decoded bytes claims
  with_raw-Decoded bytes body claims (err e) b q h = cc
  with_raw-Decoded bytes body claims (ok raw) b q h =
      let (accepted, same) = check_claims-IsAccepted body raw claims h in
      record {
        body = body;
        raw = raw;
        decoded_body = b;
        decoded_raw = q;
        accepted = accepted;
        same = same;
      }

  with_body-Decoded :
      (bytes : String) (claims : Claims) (r : Result IntrospectionResponse)
      → p.decode_introspection bytes ≡ r
      → with_body v bytes r ≡ ok claims
      → Decoded bytes claims
  with_body-Decoded bytes claims (err e) q h = cc
  with_body-Decoded bytes claims (ok body) q h =
      with_raw-Decoded bytes body claims (p.decode_raw bytes) q refl h

  decode-Decoded :
      (r : Result String) (claims : Claims)
      → decode v r ≡ ok claims
      → (bytes : String) × (r ≡ ok bytes) × Decoded bytes claims
  decode-Decoded (err e) claims h = cc
  decode-Decoded (ok bytes) claims h =
      (bytes, refl, with_body-Decoded bytes claims (p.decode_introspection bytes) refl h)

  receive-Decoded :
      (r : Result (ℕ × p.Body) × p.World) (claims : Claims)
      → (receive v r).0 ≡ ok claims
      → (response : p.Body) × (r.0 ≡ ok (200, response))
        × ((bytes : String) × ((p.read_all response r.1).0 ≡ ok bytes) × Decoded bytes claims)
  receive-Decoded (err e, w) claims h = cc
  receive-Decoded (ok (status, body), w) claims h = elim (Bool-cases (eqb status 200)) [
    | inl good ↦
        let is_ok : status ≡ 200 = ground arith in
        (body, rw is_ok refl, decode-Decoded (p.read_all body w).0 claims (rw (good, receive) at h))
    | inr bad ↦ cc (rejected bad h)
  ]
    where
      rejected :
          eqb status 200 ≡ false → (receive v (ok (status, body), w)).0 ≡ ok claims → false ≡ true
      rejected bad q = ground arith

  submit-Answered :
      (raw_token : String) (o : Option GoError) (w : p.World) (claims : Claims)
      → (submit v raw_token o w).0 ≡ ok claims
      → Answered raw_token w claims
  unfolding request_of
  submit-Answered raw_token (some e) w claims h = cc
  submit-Answered raw_token none w claims h =
      let (response, responded, (bytes, read, d)) =
        receive-Decoded (p.send v.client (asking raw_token) w) claims h in
      record {
        response = response;
        responded = responded;
        bytes = bytes;
        read = read;
        body = d.body;
        raw = d.raw;
        decoded_body = d.decoded_body;
        decoded_raw = d.decoded_raw;
        accepted = d.accepted;
        same = d.same;
      }

  -- Claims are returned only where the endpoint was asked about this token, by a POST with the token
  -- in its form, and its response, of status 200, decodes to an accepted answer: the token is active,
  -- and its issuer and audience fit the configuration. They are the claims of that answer.
  pub validate_introspection-Answered :
      (raw_token : String) (w : p.World) (claims : Claims)
      → (validate_introspection v raw_token w).0 ≡ ok claims
      → Answered raw_token w claims
  unfolding validate_introspection
  validate_introspection-Answered raw_token w claims h =
      submit-Answered raw_token (p.request_error "POST" v.endpoint) w claims h
