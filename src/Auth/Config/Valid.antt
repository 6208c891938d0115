-- ===== src/Auth/Config/Valid.antt =====
-- Which configurations auth/config.go accepts, and what its defaults guarantee.
use idp_sdk.Common.{
  String, ◌≡◌, ◌≢◌, refl, ◌↔◌, ◌⊎◌, none, some, ℤ, pos, ◌==◌, if◌then◌else◌, eq_iff, arith, ◌<◌,
}
use idp_sdk.Common.Int.{positive_or, pos_part, neg_part}
use idp_sdk.Auth.Idp.{Idp}
use idp_sdk.Auth.Config.{Config, mode_jwks, mode_introspection, client_or, set_defaults, validate}

-- A duration above zero.
abbrev pub IsPositive : ℤ → Type 0
IsPositive d = neg_part d < pos_part d

positive_or-IsPositive : (d def : ℤ) → IsPositive def → IsPositive (positive_or d def)
positive_or-IsPositive d def h = ground arith

positive_or_idem : (d def : ℤ) → positive_or (positive_or d def) def ≡ positive_or d def
positive_or_idem d def = ground arith

module _ {p : Idp} (c : Config p) where
  pub record IsComplete : Type 0 where
    pub refresh : IsPositive c.jwks_refresh_interval
    pub timeout : IsPositive c.request_timeout
    pub leeway : IsPositive c.leeway_seconds
    pub mode : c.mode ≢ ""
    pub client : (client : p.Client) × (c.http_client ≡ some client)

  -- What each mode asks of a configuration.
  abbrev pub IsUsable : Type 0
  IsUsable =
      (c.issuer ≢ "")
      × ((c.mode ≡ mode_jwks)
          ⊎ (c.mode ≡ mode_introspection) × (c.client_id ≢ "") × (c.client_secret ≢ ""))

  -- Validation accepts exactly a configuration with an issuer whose mode is jwks, or introspection
  -- with both a client id and a client secret.
  pub validate_iff : (validate c ≡ none) ↔ IsUsable
  unfolding validate
  validate_iff = (
    λ h. ground (
      arith,
      eq_iff c.issuer "",
      eq_iff c.mode mode_jwks,
      eq_iff c.mode mode_introspection,
      eq_iff c.client_id "",
      eq_iff c.client_secret "",
    ),
    λ u. ground (
      arith,
      eq_iff c.issuer "",
      eq_iff c.mode mode_jwks,
      eq_iff c.mode mode_introspection,
      eq_iff c.client_id "",
      eq_iff c.client_secret "",
    ),
  )

mode_set : (mode : String) → (if mode == "" then mode_jwks else mode) ≢ ""
mode_set mode = ground (arith, eq_iff mode "", eq_iff mode_jwks "")

mode_idem :
    (mode : String)
    → (if (if mode == "" then mode_jwks else mode) == ""
        then mode_jwks
        else (if mode == "" then mode_jwks else mode))
      ≡ (if mode == "" then mode_jwks else mode)
mode_idem mode = ground arith

module _ {p : Idp} where
  complete : (c : Config p) → IsComplete (set_defaults c)
  unfolding set_defaults
  complete c = record {
    refresh = positive_or-IsPositive c.jwks_refresh_interval (pos 3_600_000_000_000) (omega arith);
    timeout = positive_or-IsPositive c.request_timeout (pos 5_000_000_000) (omega arith);
    leeway = positive_or-IsPositive c.leeway_seconds (pos 5) (omega arith);
    mode = mode_set c.mode;
    client = (client_or p (positive_or c.request_timeout (pos 5_000_000_000)) c.http_client, refl);
  }

  again : (c : Config p) → set_defaults (set_defaults c) ≡ set_defaults c
  unfolding set_defaults
  again c = λ i. record (set_defaults c) {
    mode = mode_idem c.mode i;
    jwks_refresh_interval = positive_or_idem c.jwks_refresh_interval (pos 3_600_000_000_000) i;
    request_timeout = positive_or_idem c.request_timeout (pos 5_000_000_000) i;
    leeway_seconds = positive_or_idem c.leeway_seconds (pos 5) i;
  }

  -- The defaults leave no duration at zero or below, a mode and a client; filling them in once more
  -- changes nothing. The issuer, the audience and the credentials are left as they are.
  pub set_defaults_lem :
      (c : Config p)
      → IsComplete (set_defaults c)
        × (set_defaults (set_defaults c) ≡ set_defaults c)
        × ((set_defaults c).issuer ≡ c.issuer)
        × ((set_defaults c).audience ≡ c.audience)
        × ((set_defaults c).client_id ≡ c.client_id)
        × ((set_defaults c).client_secret ≡ c.client_secret)
  unfolding set_defaults
  set_defaults_lem c = (complete c, again c, refl, refl, refl, refl)
