-- ===== src/Auth/Service/Built.antt =====
-- What an Auth instance of auth/auth.go is made of.
use mathlib.Core.Path.{subst}
use idp_sdk.Common.{
  ok-injective, String, ◌≡◌, ◌≢◌, refl, ap, inl, inr, Option, none, some, List, ◌==◌, eq_iff, arith,
  Bool-cases, GoError, Result, ok, err,
}
use idp_sdk.Common.Int.{seconds}
use idp_sdk.Auth.Config.{Config, set_defaults, validate, mode_jwks, mode_introspection, client_or}
use idp_sdk.Auth.Config.Valid.{IsUsable, validate_iff}
use idp_sdk.Auth.Idp.{Idp, Discovery}
use idp_sdk.Auth.Introspection.{new_introspection_validator}
use idp_sdk.Auth.Jwks.{with_keys, new_jwks_validator}
use idp_sdk.Auth.Provider.{discover}
use idp_sdk.Auth.Provider.Discovered.{Discovered, IsDocumentOf, discover-Discovered}
use idp_sdk.Auth.Service.{
  Validator, unset, jwks, introspection, Auth, AuthOption, with_jwks, build, with_document,
  validated, new, validate_token, validate_by,
}

module _ (p : Idp) where
  -- The client that a configuration asks for.
  abbrev pub client_of : Config p → p.Client
  client_of cfg = client_or p cfg.request_timeout cfg.http_client

  -- The validator that a configuration asks for, in the world after the discovery of its document,
  -- set up with its issuer and audience: with the keys that the document's key set address gives, or
  -- with the document's introspection endpoint.
  abbrev pub ValidatorFor : Config p → Discovery → p.World → Validator p → Type 0
  ValidatorFor cfg doc w unset = ⊥
  ValidatorFor cfg doc w (jwks v) =
      (cfg.mode ≡ mode_jwks)
      × ((p.new_keys doc.jwks_uri w).0 ≡ ok v.keys)
      × (v.issuer ≡ cfg.issuer)
      × (v.audience ≡ cfg.audience)
      × (v.leeway ≡ seconds cfg.leeway_seconds)
  ValidatorFor cfg doc w (introspection v) =
      (cfg.mode ≡ mode_introspection)
      × (v.endpoint ≡ doc.introspection_endpoint)
      × (v.endpoint ≢ "")
      × (v.client_id ≡ cfg.client_id)
      × (v.issuer ≡ cfg.issuer)
      × (v.audience ≡ cfg.audience)
      × (v.client ≡ client_of cfg)

  with_jwks-ValidatorFor :
      (cfg : Config p) (doc : Discovery) (a b : Auth p) (w : p.World) (r : Result p.Keys × p.World)
      → p.new_keys doc.jwks_uri w ≡ r
      → cfg.mode ≡ mode_jwks
      → (with_jwks p a
          (with_keys p doc.jwks_uri cfg.issuer cfg.audience (seconds cfg.leeway_seconds) r)).0
        ≡ ok b
      → ValidatorFor cfg doc w b.validator
  with_jwks-ValidatorFor cfg doc a b w (err e, w') keys mode h = cc
  with_jwks-ValidatorFor cfg doc a b w (ok k, w') keys mode h =
      subst (ValidatorFor cfg doc w) (ap (λ (c : Auth p). c.validator) (ok-injective h))
        (mode, ap (λ x. x.0) keys, refl, refl, refl)

  introspection-ValidatorFor :
      (cfg : Config p) (doc : Discovery) (a b : Auth p) (w : p.World)
      → cfg.mode ≡ mode_introspection
      → doc.introspection_endpoint ≢ ""
      → ok (record a {
        validator = introspection (
            new_introspection_validator doc.introspection_endpoint cfg.client_id cfg.client_secret
              cfg.issuer cfg.audience
              (client_of cfg));
      })
        ≡ ok b
      → ValidatorFor cfg doc w b.validator
  unfolding new_introspection_validator
  introspection-ValidatorFor cfg doc a b w mode endpoint h =
      subst (ValidatorFor cfg doc w) (ap (λ (c : Auth p). c.validator) (ok-injective h))
        (mode, refl, endpoint, refl, refl, refl, refl)

  build-ValidatorFor :
      (cfg : Config p) (doc : Discovery) (a b : Auth p) (w : p.World)
      → IsUsable cfg
      → (build p cfg (client_of cfg) doc a w).0 ≡ ok b
      → ValidatorFor cfg doc w b.validator
  unfolding build new_jwks_validator
  build-ValidatorFor cfg doc a b w (issuer, usable) h = elim (Bool-cases (cfg.mode == mode_jwks)) [
    | inl local ↦
        with_jwks-ValidatorFor cfg doc a b w (p.new_keys doc.jwks_uri w) refl
          ((eq_iff cfg.mode mode_jwks).0 local) (rw (local, build) at h)
    | inr remote ↦ elim (Bool-cases (cfg.mode == mode_introspection)) [
      | inl asked ↦ elim (Bool-cases (doc.introspection_endpoint == "")) [
        | inl missing ↦ cc (rw (remote, asked, missing, build) at h)
        | inr there ↦
            introspection-ValidatorFor cfg doc a b w ((eq_iff cfg.mode mode_introspection).0 asked)
              (ground (arith, eq_iff doc.introspection_endpoint ""))
              (rw (remote, asked, there, build) at h)
      ]
      | inr neither ↦ ground (arith, eq_iff cfg.mode mode_jwks, eq_iff cfg.mode mode_introspection)
    ]
  ]

  -- An instance fits a configuration and the world it was built in: the configuration is usable, the
  -- document is the one that discovery at its issuer gave, and names that issuer, the validator is
  -- the one of its mode, on what the document names, and a token can be validated without a nil
  -- validator being called.
  pub record Fits (cfg : Config p) (w : p.World) (a : Auth p) : Type 0 where
    pub usable : IsUsable cfg
    pub doc : Discovery
    pub discovered : (discover p cfg.issuer (client_of cfg) w).0 ≡ ok doc
    pub document : IsDocumentOf cfg.issuer doc
    pub validator : ValidatorFor cfg doc (discover p cfg.issuer (client_of cfg) w).1 a.validator
    pub runs : (raw_token : String) (v : p.World) → validate_token p a raw_token v ≢ none

  validate_by-ne-none :
      (cfg : Config p) (doc : Discovery) (w : p.World) (v : Validator p)
      → ValidatorFor cfg doc w v
      → (raw_token : String) (w' : p.World) → validate_by p v raw_token w' ≢ none
  validate_by-ne-none cfg doc w unset f raw_token w' h = absurd f
  validate_by-ne-none cfg doc w (jwks v) f raw_token w' h = cc
  validate_by-ne-none cfg doc w (introspection v) f raw_token w' h = cc

  with_document-Fits :
      (cfg : Config p) (opts : List (AuthOption p)) (w : p.World) (r : Result Discovery × p.World)
      (b : Auth p)
      → discover p cfg.issuer (client_of cfg) w ≡ r
      → IsUsable cfg
      → Discovered cfg.issuer r.0
      → (with_document p cfg (client_of cfg) opts r).0 ≡ ok b
      → Fits cfg w b
  unfolding validate_token
  with_document-Fits cfg opts w (err e, w') b q usable d h = cc
  with_document-Fits cfg opts w (ok doc, w') b q usable d h =
      let fits = build-ValidatorFor cfg doc _ b w' usable h in
      record {
        usable = usable;
        doc = doc;
        discovered = ap (λ x. x.0) q;
        document = d;
        validator = rw q fits;
        runs = validate_by-ne-none cfg doc w' b.validator fits;
      }

  validated-Fits :
      (cfg : Config p) (opts : List (AuthOption p)) (o : Option GoError) (w : p.World) (b : Auth p)
      → validate cfg ≡ o
      → (validated p cfg opts o w).0 ≡ ok b
      → Fits cfg w b
  validated-Fits cfg opts (some e) w b valid h = cc
  validated-Fits cfg opts none w b valid h =
      with_document-Fits cfg opts w (discover p cfg.issuer (client_of cfg) w) b refl
        ((validate_iff cfg).0 valid) (discover-Discovered p cfg.issuer (client_of cfg) w) h

  -- An instance that `New` returns, whatever the options, fits the configuration with its defaults
  -- filled in: that is usable; the document that discovery gave for its issuer names that issuer; in
  -- the mode of local validation the validator has the keys that this document's key set address
  -- gave, and in the mode of introspection this document's introspection endpoint, the client and its
  -- id; it checks the configured issuer and audience; and no token panics on a nil validator.
  pub new-Fits :
      (cfg : Config p) (opts : List (AuthOption p)) (w : p.World) (a : Auth p)
      → (new p cfg opts w).0 ≡ ok a
      → Fits (set_defaults cfg) w a
  unfolding new
  new-Fits cfg opts w a h =
      validated-Fits (set_defaults cfg) opts (validate (set_defaults cfg)) w a refl h
