-- ===== src/Memory/Services/Atomic.antt =====
-- What a Serve that is refused leaves in v2/bus/memory/services.go, without another call in between.
use bytedesk_sdk_dependencie.Prelude.{
  ℕ, ◌≤◌, ◌<◌, ◌≡◌, ◌≢◌, refl, ap, ◌∙◌, subst, Bool, true, false, not, Option, none, some, List, [],
  ◌∷◌, ◌++◌, All, Text, member, arith, Option-cases, inl, inr,
}
use bytedesk_sdk_dependencie.Bus.Fault.{Fault, err}
use bytedesk_sdk_dependencie.Bus.Subject.{Refusal}
use bytedesk_sdk_dependencie.Memory.Gate.{Store, Conn, Mounted, keep}
use bytedesk_sdk_dependencie.Memory.Delivery.{numbers, drop_subs}
use bytedesk_sdk_dependencie.Memory.Services.{
  EndpointSpec, ServiceSpec, Services, check_serve, mount_endpoints, serve,
}
use bytedesk_sdk_dependencie.Memory.Services.Mounting.{IsGrown, mount_endpoints-IsGrown}

module _ (error_text : Refusal → Text) where
  below_not_member :
      (number k : ℕ) (ks : List ℕ) → k < number → All (λ j. number ≤ j) ks → member k ks ≡ false
  unfolding member
  below_not_member number k [] h a = refl
  below_not_member number k (j ∷ ks) h (l, a) = ground (arith, below_not_member number k ks h a)

  -- What is there keeps its place, what was mounted goes.
  keep-append :
      (number : ℕ) (ks : List ℕ) (old : List Mounted) (added : List Mounted)
      → All (λ m. m.number < number) old
      → All (λ j. number ≤ j) ks
      → keep (λ m. not (member m.number ks)) added ≡ []
      → keep (λ m. not (member m.number ks)) (old ++ added) ≡ old
  unfolding keep
  keep-append number ks [] added b a h = h
  keep-append number ks (m ∷ old) added (l, b) a h =
      rw (below_not_member number m.number ks l a)
        (ap (λ l. m ∷ l) (keep-append number ks old added b a h))

  member-there : (k j : ℕ) (ks : List ℕ) → member k ks ≡ true → member k (j ∷ ks) ≡ true
  unfolding member
  member-there k j ks h = ground arith

  keep-none :
      (ks : List ℕ) (added : List Mounted)
      → All (λ m. member m.number ks ≡ true) added
      → keep (λ m. not (member m.number ks)) added ≡ []
  unfolding keep
  keep-none ks [] a = refl
  keep-none ks (m ∷ added) (h, a) = rw h (keep-none ks added a)

  members_there :
      (j : ℕ) (ks : List ℕ) (ms : List Mounted)
      → All (λ m. member m.number ks ≡ true) ms
      → All (λ m. member m.number (j ∷ ks) ≡ true) ms
  members_there j ks [] a = tt
  members_there j ks (m ∷ ms) (h, a) = (member-there m.number j ks h, members_there j ks ms a)

  numbers-member : (added : List Mounted) → All (λ m. member m.number (numbers added) ≡ true) added
  numbers-member [] = tt
  numbers-member (m ∷ added) = (
    unfold member in ground arith,
    members_there m.number (numbers added) added (numbers-member added),
  )

  drop_subs-IsGrown :
      (number : ℕ) (s : Store) (c : Conn) (spec : ServiceSpec) (eps : List EndpointSpec)
      (r : Option Fault × List ℕ × Store)
      → IsGrown error_text number s c spec eps r
      → All (λ m. m.number < number) s.subs
      → drop_subs r.1 r.2 ≡ s
  unfolding drop_subs
  drop_subs-IsGrown number s c spec eps r g below =
      let gone : keep (λ m. not (member m.number r.1)) g.added ≡ [] = keep-none r.1 g.added (
        subst (λ ks. All (λ m. member m.number ks ≡ true) g.added) g.named
          (numbers-member g.added)) in
      ap (drop_subs r.1) g.store_is
      ∙ ap (λ l. record s { subs = l }) (keep-append number r.1 s.subs g.added below g.above gone)

  serve-stopped :
      (offered : Bool) (number : ℕ) (id : Text) (now : ℕ) (s : Store) (c : Conn)
      (spec : ServiceSpec) (services : Services) (f : Fault)
      → check_serve error_text offered s c spec ≡ none
      → (mount_endpoints error_text number s c spec spec.endpoints).0 ≡ some f
      → serve error_text offered number id now s c spec services ≡ (
          let r = mount_endpoints error_text number s c spec spec.endpoints in
          (err f, drop_subs r.1 r.2, services))
  unfolding serve
  serve-stopped offered number id now s c spec services f e g = rw (serve, e, g) refl

  serve-mounted :
      (offered : Bool) (number : ℕ) (id : Text) (now : ℕ) (s : Store) (c : Conn)
      (spec : ServiceSpec) (services : Services)
      → check_serve error_text offered s c spec ≡ none
      → (mount_endpoints error_text number s c spec spec.endpoints).0 ≡ none
      → (f : Fault) → (serve error_text offered number id now s c spec services).0 ≢ err f
  unfolding serve
  serve-mounted offered number id now s c spec services e g f h = ground arith

  serve-unchecked :
      (offered : Bool) (number : ℕ) (id : Text) (now : ℕ) (s : Store) (c : Conn)
      (spec : ServiceSpec) (services : Services) (f : Fault)
      → check_serve error_text offered s c spec ≡ some f
      → serve error_text offered number id now s c spec services ≡ (err f, s, services)
  unfolding serve
  serve-unchecked offered number id now s c spec services f e = rw (serve, e) refl

  -- A refused Serve leaves the store and its services as they were.
  serve_refused :
      (offered : Bool) (number : ℕ) (id : Text) (now : ℕ) (s : Store) (c : Conn)
      (spec : ServiceSpec) (services : Services) (f : Fault)
      → All (λ m. m.number < number) s.subs
      → (serve error_text offered number id now s c spec services).0 ≡ err f
      → ((serve error_text offered number id now s c spec services).1 ≡ s)
        × ((serve error_text offered number id now s c spec services).2 ≡ services)
  serve_refused offered number id now s c spec services f below h =
      elim (Option-cases (check_serve error_text offered s c spec)) [
        | inr (f', e) ↦
            let whole = serve-unchecked offered number id now s c spec services f' e in
            (ap (λ r. r.1) whole, ap (λ r. r.2) whole)
        | inl e ↦
            elim (Option-cases (mount_endpoints error_text number s c spec spec.endpoints).0) [
              | inl g ↦ absurd (serve-mounted offered number id now s c spec services e g f h)
              | inr (f', g) ↦
                  let whole = serve-stopped offered number id now s c spec services f' e g in
                  let grown = mount_endpoints-IsGrown error_text number s c spec spec.endpoints in
                  (
                    ap (λ r. r.1) whole
                        ∙ drop_subs-IsGrown number s c spec spec.endpoints _ grown below,
                    ap (λ r. r.2) whole,
                  )
            ]
      ]
