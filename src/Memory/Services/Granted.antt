-- ===== src/Memory/Services/Granted.antt =====
-- What a Serve that answers has mounted.
use bytedesk_sdk_dependencie.Prelude.{
  ℕ, ◌≡◌, ◌≢◌, refl, sym, ap, ◌∙◌, Bool, true, false, none, some, List, [], ◌∷◌, All, Text, arith,
  Option-cases, inl, inr,
}
use bytedesk_sdk_dependencie.Bus.Fault.{ok}
use bytedesk_sdk_dependencie.Bus.Subject.{parse_subject, Refusal}
use bytedesk_sdk_dependencie.Bus.Identity.{GrantKind, can}
use bytedesk_sdk_dependencie.Memory.Gate.{Store, Conn, deny_subject}
use bytedesk_sdk_dependencie.Memory.Delivery.{numbers}
use bytedesk_sdk_dependencie.Memory.Services.{
  EndpointSpec, ServiceSpec, Service, Services, check_endpoint, check_endpoints, check_serve,
  mount_endpoints, serve,
}
use bytedesk_sdk_dependencie.Memory.Services.Mounting.{with_subs, mounts, mount_endpoints-IsGrown}

module _ (error_text : Refusal → Text) where
  -- The principal may serve the subject of the endpoint.
  pub record IsOffered (s : Store) (c : Conn) (ep : EndpointSpec) : Type 0 where
    pub parsed : parse_subject ep.subject ≡ none
    pub allowed : deny_subject s ep.subject ≡ false
    pub granted : can c.id.grants GrantKind.serve ep.subject ≡ true
    pub handled : ep.has_handler ≡ true

  check_endpoint-malformed :
      (s : Store) (c : Conn) (ep : EndpointSpec) (why : Refusal)
      → parse_subject ep.subject ≡ some why
      → check_endpoint error_text s c ep ≢ none
  unfolding check_endpoint
  check_endpoint-malformed s c ep why e h = ground arith

  check_endpoint-parsed :
      (s : Store) (c : Conn) (ep : EndpointSpec)
      → parse_subject ep.subject ≡ none
      → check_endpoint error_text s c ep ≡ none
      → IsOffered s c ep
  unfolding check_endpoint
  check_endpoint-parsed s c ep e h = record {
    parsed = e;
    allowed = ground arith;
    granted = ground arith;
    handled = ground arith;
  }

  check_endpoint-IsOffered :
      (s : Store) (c : Conn) (ep : EndpointSpec)
      → check_endpoint error_text s c ep ≡ none
      → IsOffered s c ep
  check_endpoint-IsOffered s c ep h = elim (Option-cases (parse_subject ep.subject)) [
    | inl e ↦ check_endpoint-parsed s c ep e h
    | inr (why, e) ↦ absurd (check_endpoint-malformed s c ep why e h)
  ]

  check_endpoints-cons :
      (s : Store) (c : Conn) (ep : EndpointSpec) (eps : List EndpointSpec)
      → check_endpoints error_text s c (ep ∷ eps) ≡ none
      → (check_endpoint error_text s c ep ≡ none) × (check_endpoints error_text s c eps ≡ none)
  unfolding check_endpoints
  check_endpoints-cons s c ep eps h = (ground arith, ground arith)

  check_endpoints-All :
      (s : Store) (c : Conn) (eps : List EndpointSpec)
      → check_endpoints error_text s c eps ≡ none
      → All (IsOffered s c) eps
  check_endpoints-All s c [] h = tt
  check_endpoints-All s c (ep ∷ eps) h =
      let (one, rest) = check_endpoints-cons s c ep eps h in
      (check_endpoint-IsOffered s c ep one, check_endpoints-All s c eps rest)

  check_serve-endpoints :
      (offered : Bool) (s : Store) (c : Conn) (spec : ServiceSpec)
      → check_serve error_text offered s c spec ≡ none
      → check_endpoints error_text s c spec.endpoints ≡ none
  unfolding check_serve
  check_serve-endpoints offered s c spec h = ground arith

  serve-ok :
      (offered : Bool) (number : ℕ) (id : Text) (now : ℕ) (s : Store) (c : Conn)
      (spec : ServiceSpec) (services : Services) (svc : Service)
      → (serve error_text offered number id now s c spec services).0 ≡ ok svc
      → (check_serve error_text offered s c spec ≡ none)
        × ((mount_endpoints error_text number s c spec spec.endpoints).0 ≡ none)
  unfolding serve
  serve-ok offered number id now s c spec services svc h = (ground arith, ground arith)

  serve-done :
      (offered : Bool) (number : ℕ) (id : Text) (now : ℕ) (s : Store) (c : Conn)
      (spec : ServiceSpec) (services : Services) (svc : Service)
      → check_serve error_text offered s c spec ≡ none
      → (mount_endpoints error_text number s c spec spec.endpoints).0 ≡ none
      → (serve error_text offered number id now s c spec services).0 ≡ ok svc
      → ((serve error_text offered number id now s c spec services).1
          ≡ (mount_endpoints error_text number s c spec spec.endpoints).2)
        × (svc.subs ≡ (mount_endpoints error_text number s c spec spec.endpoints).1)
  unfolding serve
  serve-done offered number id now s c spec services svc e g h =
      (rw (serve, e, g) refl, ground arith)

  -- A Serve that answers may serve each of its endpoints, and has added to the store exactly one
  -- subscription for each, in their order, owned by the principal of the connection.
  pub serve_sound :
      (offered : Bool) (number : ℕ) (id : Text) (now : ℕ) (s : Store) (c : Conn)
      (spec : ServiceSpec) (services : Services) (svc : Service)
      → (serve error_text offered number id now s c spec services).0 ≡ ok svc
      → All (IsOffered s c) spec.endpoints
        × ((serve error_text offered number id now s c spec services).1
            ≡ with_subs s (mounts number c spec spec.endpoints))
        × (svc.subs ≡ numbers (mounts number c spec spec.endpoints))
  serve_sound offered number id now s c spec services svc h =
      let (checked, mounted) = serve-ok offered number id now s c spec services svc h in
      let (store_is, subs_are) =
        serve-done offered number id now s c spec services svc checked mounted h in
      let grown = mount_endpoints-IsGrown error_text number s c spec spec.endpoints in
      let all = grown.whole mounted in
      (
        check_endpoints-All s c spec.endpoints (check_serve-endpoints offered s c spec checked),
        store_is ∙ (grown.store_is ∙ ap (with_subs s) all),
        subs_are ∙ (sym grown.named ∙ ap numbers all),
      )
