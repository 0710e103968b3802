-- ===== src/Memory/Services/Mounting.antt =====
-- What the loop of Serve that mounts the endpoints leaves.
use bytedesk_sdk_dependencie.Prelude.{
  ℕ, suc, ◌≤◌, ◌≡◌, ◌≢◌, refl, sym, ap, ◌∙◌, subst, false, Option, none, some, List, [], ◌∷◌, ◌++◌,
  append_assoc, append-nil, All, Text, arith, Option-cases, inl, inr,
}
use bytedesk_sdk_dependencie.Bus.Fault.{Fault, Result, ok, err}
use bytedesk_sdk_dependencie.Bus.Subject.{Refusal}
use bytedesk_sdk_dependencie.Memory.Subscription.{Subscription, new_subscription}
use bytedesk_sdk_dependencie.Memory.Gate.{Store, Conn, Mounted, check_subscribe, subscribe}
use bytedesk_sdk_dependencie.Memory.Delivery.{numbers}
use bytedesk_sdk_dependencie.Memory.Services.{
  EndpointSpec, ServiceSpec, options_of, mount_endpoints,
}

-- The subscription of an endpoint, and those of all of them.
abbrev pub mount_of : ℕ → Conn → ServiceSpec → EndpointSpec → Mounted
mount_of number c spec ep = record {
  number = number;
  conn = c.number;
  sub = new_subscription c.id ep.subject (options_of spec ep);
}

unfoldable pub mounts : ℕ → Conn → ServiceSpec → List EndpointSpec → List Mounted
mounts number c spec [] = []
mounts number c spec (ep ∷ eps) = mount_of number c spec ep ∷ mounts (suc number) c spec eps

-- The store with more subscriptions.
abbrev pub with_subs : Store → List Mounted → Store
with_subs s added = record s { subs = s.subs ++ added }

module _ (error_text : Refusal → Text) where
  -- What the loop that mounts leaves: more subscriptions under numbers from `number` on, and where it
  -- is not stopped one for each endpoint.
  pub record IsGrown (number : ℕ) (s : Store) (c : Conn) (spec : ServiceSpec)
      (eps : List EndpointSpec) (r : Option Fault × List ℕ × Store) : Type 0 where
    pub added : List Mounted
    pub store_is : r.2 ≡ with_subs s added
    pub named : numbers added ≡ r.1
    pub above : All (λ k. number ≤ k) r.1
    pub whole : r.0 ≡ none → added ≡ mounts number c spec eps

  -- What the loop makes of an answer of subscribe.
  onward :
      ℕ
      → Conn
      → ServiceSpec
      → List EndpointSpec
      → Result Subscription × Store
      → Option Fault × List ℕ × Store
  onward number c spec eps r =
      let (stop, mounted, s') = mount_endpoints error_text (suc number) r.1 c spec eps in
      elim r.0 [ err f ↦ (some f, [], r.1) | ok sub ↦ (stop, number ∷ mounted, s') ]

  mount_endpoints-onward :
      (number : ℕ) (s : Store) (c : Conn) (spec : ServiceSpec) (ep : EndpointSpec)
      (eps : List EndpointSpec) (r : Result Subscription × Store)
      → subscribe error_text number s c ep.subject ep.has_handler (options_of spec ep) false ≡ r
      → mount_endpoints error_text number s c spec (ep ∷ eps) ≡ onward number c spec eps r
  unfolding mount_endpoints onward
  mount_endpoints-onward number s c spec ep eps r e = ap (onward number c spec eps) e

  subscribe-refused :
      (number : ℕ) (s : Store) (c : Conn) (spec : ServiceSpec) (ep : EndpointSpec) (f : Fault)
      → check_subscribe error_text s c ep.subject ep.has_handler false ≡ some f
      → subscribe error_text number s c ep.subject ep.has_handler (options_of spec ep) false
        ≡ (err f, s)
  unfolding subscribe
  subscribe-refused number s c spec ep f e = rw (subscribe, e) refl

  subscribe-taken :
      (number : ℕ) (s : Store) (c : Conn) (spec : ServiceSpec) (ep : EndpointSpec)
      → check_subscribe error_text s c ep.subject ep.has_handler false ≡ none
      → subscribe error_text number s c ep.subject ep.has_handler (options_of spec ep) false ≡ (
        ok (new_subscription c.id ep.subject (options_of spec ep)),
        with_subs s (mount_of number c spec ep ∷ []),
      )
  unfolding subscribe
  subscribe-taken number s c spec ep e = rw (subscribe, e) refl

  some-ne_none : (f : Fault) → some f ≢ none
  some-ne_none f h = cc

  weaken : (n : ℕ) (ks : List ℕ) → All (λ k. suc n ≤ k) ks → All (λ k. n ≤ k) ks
  weaken n [] a = tt
  weaken n (k ∷ ks) (h, a) = (omega arith, weaken n ks a)

  pub mount_endpoints-IsGrown :
      (number : ℕ) (s : Store) (c : Conn) (spec : ServiceSpec) (eps : List EndpointSpec)
      → IsGrown number s c spec eps (mount_endpoints error_text number s c spec eps)
  unfolding onward mounts
  mount_endpoints-IsGrown number s c spec [] =
      unfold mount_endpoints in
      record {
        added = [];
        store_is = ap (λ l. record s { subs = l }) (sym (append-nil s.subs));
        named = refl;
        above = tt;
        whole = λ h. refl;
      }
  mount_endpoints-IsGrown number s c spec (ep ∷ eps) =
      elim (Option-cases (check_subscribe error_text s c ep.subject ep.has_handler false)) [
        | inr (f, e) ↦
            subst (IsGrown number s c spec (ep ∷ eps))
              (sym (
                mount_endpoints-onward number s c spec ep eps _
                  (subscribe-refused number s c spec ep f e)))
              (record {
                added = [];
                store_is = ap (λ l. record s { subs = l }) (sym (append-nil s.subs));
                named = refl;
                above = tt;
                whole = λ h. absurd (some-ne_none f h);
              })
        | inl e ↦
            let first = mount_of number c spec ep in
            let deep = mount_endpoints-IsGrown (suc number) (with_subs s (first ∷ [])) c spec eps in
            subst (IsGrown number s c spec (ep ∷ eps))
              (sym (
                mount_endpoints-onward number s c spec ep eps _
                  (subscribe-taken number s c spec ep e)))
              (record {
                added = first ∷ deep.added;
                store_is =
                    deep.store_is
                    ∙ ap (λ l. record s { subs = l }) (append_assoc s.subs (first ∷ []) deep.added);
                named = ap (λ ks. number ∷ ks) deep.named;
                above = (omega arith, weaken number _ deep.above);
                whole = λ h. ap (λ l. first ∷ l) (deep.whole h);
              })
      ]
