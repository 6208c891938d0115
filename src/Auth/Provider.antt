-- ===== src/Auth/Provider.antt =====
-- auth/provider.go: the discovery document of an issuer.
pub mod Discovered
use Prim.Native.Char.{code}
use Prim.Native.String.{[], ◌∷◌}
use idp_sdk.Common.{
  quoted, ℕ, String, Bool, not, Option, none, some, List, ◌==◌, eqb, ◌<>◌, if◌then◌else◌, pos,
  GoError, Result, ok, err,
}
use idp_sdk.Common.Decimal.{decimal}
use idp_sdk.Common.Failure.{wrapped, error_text}
use idp_sdk.Auth.Errors.{err_discovery_failed}
use idp_sdk.Auth.Idp.{Idp, Request, Discovery}

-- `strings.TrimSuffix(s, "/")`
unfoldable pub trim_slash : String → String
trim_slash [] = []
trim_slash (c ∷ []) = if eqb (code c) b'/' then [] else c ∷ []
trim_slash (c ∷ d ∷ s) = c ∷ trim_slash (d ∷ s)

unfoldable pub well_known : String → String
well_known issuer = trim_slash issuer <> "/.well-known/openid-configuration"

-- `fmt.Errorf("%w: …", ErrDiscoveryFailed, …)`
abbrev pub discovery_failed : String → GoError
discovery_failed message = wrapped ("auth: OIDC discovery falied: " <> message) err_discovery_failed

module _ (p : Idp) where
  abbrev get_request : String → Request
  get_request url = record {
    method = "GET";
    url = url;
    body = "";
    headers = List.[];
    basic_auth = none;
  }

  -- The checks on the decoded document.
  unfoldable pub check_document : String → Discovery → Result Discovery
  check_document issuer doc =
      if not (doc.issuer == issuer)
      then err (
          discovery_failed (
            "issuer mismatch: configured "
            <> quoted issuer
            <> ", document says "
            <> quoted doc.issuer))
      else if doc.jwks_uri == ""
      then err (discovery_failed "document has no jwks_uri")
      else ok doc

  abbrev checked : String → String → Result Discovery → Result Discovery
  checked issuer url (err e) =
      err (discovery_failed ("decoding response from " <> url <> ": " <> error_text e))
  checked issuer url (ok doc) = check_document issuer doc

  -- With a response: the status, the document, and the deferred close of the body.
  abbrev receive : String → String → Result (ℕ × p.Body) × p.World → Result Discovery × p.World
  receive issuer url (err e, w) =
      (err (discovery_failed ("fetching " <> url <> ": " <> error_text e)), w)
  receive issuer url (ok (status, body), w) =
      if not (eqb status 200)
      then (err (discovery_failed ("returned status " <> decimal (pos status))), p.close body w)
      else let (decoded, w') = p.decode_discovery body w in
        (checked issuer url decoded, p.close body w')

  abbrev fetch : String → String → p.Client → Option GoError → p.World → Result Discovery × p.World
  fetch issuer url client (some e) w =
      (err (discovery_failed ("building request: " <> error_text e)), w)
  fetch issuer url client none w = receive issuer url (p.send client (get_request url) w)

  unfoldable pub discover : String → p.Client → p.World → Result Discovery × p.World
  unfolding well_known
  discover issuer client w =
      let url = well_known issuer in fetch issuer url client (p.request_error "GET" url) w
