-- ===== src/Auth/Provider/Discovered.antt =====
-- What auth/provider.go guarantees of a discovery document, and of its failures.
use idp_sdk.Common.{
  Bool-cases, ℕ, ◌+◌, ◌<◌, String, ◌≡◌, ◌≢◌, refl, ◌↔◌, inl, inr, true, Option, none, some, eqb,
  eq_iff, arith, GoError, Result, ok, err,
}
use idp_sdk.Common.Failure.{is_variable}
use idp_sdk.Auth.Idp.{Idp, Request, Discovery}
use idp_sdk.Auth.Provider.{
  well_known, discovery_failed, check_document, checked, receive, fetch, discover,
}

-- The open response bodies, as net/http counts them: a response opens one, `Close` closes it, and
-- reading and decoding leave their number.
pub record Bodies (p : Idp) (live : p.World → ℕ) : Type 0 where
  pub opens :
      (client : p.Client) (r : Request) (w : p.World) (status : ℕ) (body : p.Body)
      → (p.send client r w).0 ≡ ok (status, body)
      → live (p.send client r w).1 ≡ live w + 1
  pub fails :
      (client : p.Client) (r : Request) (w : p.World) (e : GoError)
      → (p.send client r w).0 ≡ err e
      → live (p.send client r w).1 ≡ live w
  pub reads : (b : p.Body) (w : p.World) → live (p.read_all b w).1 ≡ live w
  pub decodes : (b : p.Body) (w : p.World) → live (p.decode_discovery b w).1 ≡ live w
  pub closes : (b : p.Body) (w : p.World) → 0 < live w → live (p.close b w) + 1 ≡ live w

-- A document that the package accepts for an issuer.
abbrev pub IsDocumentOf : String → Discovery → Type 0
IsDocumentOf issuer doc = (doc.issuer ≡ issuer) × (doc.jwks_uri ≢ "")

-- A result that is a document of the issuer, or the package's error of a failed discovery.
abbrev pub Discovered : String → Result Discovery → Type 0
Discovered issuer (ok doc) = IsDocumentOf issuer doc
Discovered issuer (err e) = is_variable "auth.ErrDiscoveryFailed" e ≡ true

module _ (p : Idp) where
  failed_discovery :
      (m : String) → is_variable "auth.ErrDiscoveryFailed" (discovery_failed m) ≡ true
  unfolding is_variable
  failed_discovery m = refl

  check_document_iff :
      (issuer : String) (doc : Discovery)
      → (check_document p issuer doc ≡ ok doc) ↔ IsDocumentOf issuer doc
  unfolding check_document
  check_document_iff issuer doc = (
    λ h. ground (arith, eq_iff doc.issuer issuer, eq_iff doc.jwks_uri ""),
    λ u. ground (arith, eq_iff doc.issuer issuer, eq_iff doc.jwks_uri ""),
  )

  check_document-Discovered :
      (issuer : String) (doc : Discovery) → Discovered issuer (check_document p issuer doc)
  unfolding check_document is_variable
  check_document-Discovered issuer doc =
      ground (arith, eq_iff doc.issuer issuer, eq_iff doc.jwks_uri "")

  checked-Discovered :
      (issuer url : String) (r : Result Discovery) → Discovered issuer (checked p issuer url r)
  checked-Discovered issuer url (err e) = failed_discovery _
  checked-Discovered issuer url (ok doc) = check_document-Discovered issuer doc

  receive-Discovered :
      (issuer url : String) (r : Result (ℕ × p.Body) × p.World)
      → Discovered issuer (receive p issuer url r).0
  receive-Discovered issuer url (err e, w) = failed_discovery _
  receive-Discovered issuer url (ok (status, body), w) = elim (Bool-cases (eqb status 200)) [
    | inl good ↦ rw good (checked-Discovered issuer url (p.decode_discovery body w).0)
    | inr bad ↦ rw bad (failed_discovery _)
  ]

  fetch-Discovered :
      (issuer url : String) (client : p.Client) (o : Option GoError) (w : p.World)
      → Discovered issuer (fetch p issuer url client o w).0
  fetch-Discovered issuer url client none w = receive-Discovered issuer url (p.send client _ w)
  fetch-Discovered issuer url client (some e) w = failed_discovery _

  -- Discovery returns a document that names the configured issuer and has a key set address, or an
  -- error that is ErrDiscoveryFailed by errors.Is, on every path.
  pub discover-Discovered :
      (issuer : String) (client : p.Client) (w : p.World)
      → Discovered issuer (discover p issuer client w).0
  unfolding discover
  discover-Discovered issuer client w =
      fetch-Discovered issuer (well_known issuer) client (p.request_error "GET" (well_known issuer))
        w

  module _ (live : p.World → ℕ) (t : Bodies p live) where
    receive-live :
        (n : ℕ) (issuer url : String) (r : Result (ℕ × p.Body) × p.World)
        → ((status : ℕ) (body : p.Body) → r.0 ≡ ok (status, body) → live r.1 ≡ n + 1)
        → ((e : GoError) → r.0 ≡ err e → live r.1 ≡ n)
        → live (receive p issuer url r).1 ≡ n
    receive-live n issuer url (err e, w) opens fails = fails e refl
    receive-live n issuer url (ok (status, body), w) opens fails =
        let more = opens status body refl in
        let (decoded, w') = p.decode_discovery body w in
        ground (arith, more, t.closes body w, t.closes body w', t.decodes body w)

    -- net/http counting response bodies as documented, discovery closes the body of its response on
    -- every path.
    pub discover-live :
        (issuer : String) (client : p.Client) (w : p.World)
        → live (discover p issuer client w).1 ≡ live w
    unfolding discover
    discover-live issuer client w = go (p.request_error "GET" (well_known issuer))
      where
        go : (o : Option GoError) → live (fetch p issuer (well_known issuer) client o w).1 ≡ live w
        go (some e) = refl
        go none =
            receive-live (live w) issuer (well_known issuer) (p.send client _ w)
              (t.opens client _ w) (t.fails client _ w)
