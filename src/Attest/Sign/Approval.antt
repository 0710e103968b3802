-- ===== src/Attest/Sign/Approval.antt =====
-- What a verification that answers the store as the provenance has checked.
use bytedesk_sdk_dependencie.Prelude.{
  [], subst, is_empty_iff, ◌≡◌, ◌≢◌, ◌↔◌, refl, sym, ap, ◌∙◌, ◌⊎◌, inl, inr, true, false, not, ◌&&◌,
  none, some, is_empty, Text, text_eq, text_eq_iff, Dict, lookup, arith, Bool-cases, Option-cases,
}
use bytedesk_sdk_dependencie.Bus.Msg.{lower}
use bytedesk_sdk_dependencie.Manifest.Words.{trim_space}
use bytedesk_sdk_dependencie.Attest.{
  PublisherSignature, StoreSignature, Envelope, from_store, from_upload, from_dev, AttestError,
  Crypto,
}
use bytedesk_sdk_dependencie.Attest.Sign.{
  normalize_digest, store_statement, signed, verify_publisher, verify_store, verify,
}
use bytedesk_sdk_dependencie.Attest.Sign.Meaning.{
  SignedBy, IsPublished, store_text, signed_iff, verify_publisher_iff, store_statement-text,
}

from_dev-ne : from_dev ≢ from_store
from_dev-ne h = cc

from_upload-ne : from_upload ≢ from_store
from_upload-ne h = cc

module _ (c : Crypto) where
  -- The tests that Verify makes on its way to the store.
  pub record IsChecked (env : Envelope) (payload : Text) (roots : Dict Text) : Type 0 where
    pub publisher : PublisherSignature
    pub store : StoreSignature
    pub root : Text
    pub has_publisher : env.publisher ≡ some publisher
    pub has_store : env.store ≡ some store
    pub same :
        (is_empty (normalize_digest payload) ≡ true)
        ⊎ (normalize_digest payload ≡ normalize_digest env.sha256)
    pub published : verify_publisher c publisher env.sha256 ≡ none
    pub known : lookup (lower store.kid) roots ≡ some root
    pub approved : signed c root (store_statement env) store.signature ≡ none

  verify_store-known :
      (env : Envelope) (s : StoreSignature) (roots : Dict Text) (root : Text)
      → lookup (lower s.kid) roots ≡ some root
      → signed c root (store_statement env) s.signature ≡ none
      → verify_store c env s roots ≡ (from_store, none)
  unfolding verify_store
  verify_store-known env s roots root h g = rw (verify_store, h, g) refl

  -- What passes the checks is from the store.
  pub verify-IsChecked :
      (env : Envelope) (payload : Text) (roots : Dict Text)
      → IsChecked env payload roots
      → verify c env payload roots ≡ (from_store, none)
  unfolding verify
  verify-IsChecked env payload roots a =
      let last = verify_store-known env a.store roots a.root a.known a.approved in
      let has_publisher = a.has_publisher in
      let has_store = a.has_store in
      let published = a.published in
      elim a.same [
        | inl e ↦ ground arith
        | inr e ↦
            ground (arith, text_eq_iff (normalize_digest payload) (normalize_digest env.sha256))
      ]

  -- What a digest that does not stop Verify satisfies.
  digest_test :
      (payload digest : Text)
      → not (is_empty payload) && not (text_eq payload digest) ≡ false
      → (is_empty payload ≡ true) ⊎ (payload ≡ digest)
  digest_test payload digest h = elim (Bool-cases (is_empty payload)) [
    | inl e ↦ inl e
    | inr e ↦ inr (ground (arith, text_eq_iff payload digest))
  ]

  verify-mismatch :
      (env : Envelope) (payload : Text) (roots : Dict Text)
      → not (is_empty (normalize_digest payload))
          && not (text_eq (normalize_digest payload) (normalize_digest env.sha256))
        ≡ true
      → (verify c env payload roots).0 ≡ from_dev
  unfolding verify
  verify-mismatch env payload roots h = rw (verify, h) refl

  verify-unpublished :
      (env : Envelope) (payload : Text) (roots : Dict Text)
      → env.publisher ≡ none
      → (verify c env payload roots).0 ≡ from_dev
  unfolding verify
  verify-unpublished env payload roots h = ground arith

  verify-unproven :
      (env : Envelope) (payload : Text) (roots : Dict Text) (p : PublisherSignature)
      (e : AttestError)
      → env.publisher ≡ some p
      → verify_publisher c p env.sha256 ≡ some e
      → (verify c env payload roots).0 ≡ from_dev
  unfolding verify
  verify-unproven env payload roots p e h g = ground arith

  -- Past the publisher's half the answer hangs on the store's.
  verify-published :
      (env : Envelope) (payload : Text) (roots : Dict Text) (p : PublisherSignature)
      → not (is_empty (normalize_digest payload))
          && not (text_eq (normalize_digest payload) (normalize_digest env.sha256))
        ≡ false
      → env.publisher ≡ some p
      → verify_publisher c p env.sha256 ≡ none
      → verify c env payload roots
        ≡ elim env.store [ none ↦ (from_upload, none) | some s ↦ verify_store c env s roots ]
  unfolding verify
  verify-published env payload roots p h e g = rw (verify, h, e, g) refl

  verify_store_lem :
      (env : Envelope) (s : StoreSignature) (roots : Dict Text)
      → (verify_store c env s roots).0 ≡ from_store
      → (root : Text) × (lookup (lower s.kid) roots ≡ some root)
        × (signed c root (store_statement env) s.signature ≡ none)
  verify_store_lem env s roots h = elim (Option-cases (lookup (lower s.kid) roots)) [
    | inl e ↦ absurd (unfold verify_store in ground arith)
    | inr (root, e) ↦ elim (Option-cases (signed c root (store_statement env) s.signature)) [
      | inl g ↦ (root, e, g)
      | inr (why, g) ↦ absurd (unfold verify_store in ground arith)
    ]
  ]

  -- An answer from the store has passed every check.
  verify_sound :
      (env : Envelope) (payload : Text) (roots : Dict Text)
      → (verify c env payload roots).0 ≡ from_store
      → IsChecked env payload roots
  verify_sound env payload roots h = elim (Bool-cases _) [
    | inl e ↦ absurd (from_dev-ne (sym (verify-mismatch env payload roots e) ∙ h))
    | inr test ↦ elim (Option-cases env.publisher) [
      | inl e ↦ absurd (from_dev-ne (sym (verify-unpublished env payload roots e) ∙ h))
      | inr (p, e) ↦ elim (Option-cases (verify_publisher c p env.sha256)) [
        | inr (why, g) ↦
            absurd (from_dev-ne (sym (verify-unproven env payload roots p why e g) ∙ h))
        | inl g ↦
            let open_ = verify-published env payload roots p test e g in
            elim (Option-cases env.store) [
              | inl n ↦ absurd (from_upload-ne (ground arith))
              | inr (s, es) ↦
                  let answer : (verify_store c env s roots).0 ≡ from_store = ground arith in
                  let (root, known, approved) = verify_store_lem env s roots answer in
                  record {
                    publisher = p;
                    store = s;
                    root = root;
                    has_publisher = e;
                    has_store = es;
                    same = digest_test _ _ test;
                    published = g;
                    known = known;
                    approved = approved;
                  }
            ]
      ]
    ]
  ]

  -- A publisher's half, and a signature under a known root of the store's lines, over the payload at
  -- hand, which has no digest or that of the envelope.
  pub record IsApproved (env : Envelope) (payload : Text) (roots : Dict Text) : Type 0 where
    pub publisher : PublisherSignature
    pub store : StoreSignature
    pub root : Text
    pub has_publisher : env.publisher ≡ some publisher
    pub has_store : env.store ≡ some store
    pub same :
        (lower (trim_space payload) ≡ [])
        ⊎ (lower (trim_space payload) ≡ lower (trim_space env.sha256))
    pub published : IsPublished c publisher env.sha256
    pub known : lookup (lower store.kid) roots ≡ some root
    pub approved : SignedBy c root (store_text c env.sha256 publisher) store.signature

  IsChecked-IsApproved :
      (env : Envelope) (payload : Text) (roots : Dict Text)
      → IsChecked env payload roots
      → IsApproved env payload roots
  unfolding normalize_digest
  IsChecked-IsApproved env payload roots a = record {
    publisher = a.publisher;
    store = a.store;
    root = a.root;
    has_publisher = a.has_publisher;
    has_store = a.has_store;
    same = elim a.same [
      | inl e ↦ inl ((is_empty_iff (lower (trim_space payload))).0 e)
      | inr e ↦ inr e
    ];
    published = (verify_publisher_iff c a.publisher env.sha256).0 a.published;
    known = a.known;
    approved =
        let text = store_statement-text c env a.publisher a.has_publisher in
        (signed_iff c a.root (store_text c env.sha256 a.publisher) a.store.signature).0
          (subst (λ k. signed c a.root k a.store.signature ≡ none) text a.approved);
  }

  IsApproved-IsChecked :
      (env : Envelope) (payload : Text) (roots : Dict Text)
      → IsApproved env payload roots
      → IsChecked env payload roots
  unfolding normalize_digest
  IsApproved-IsChecked env payload roots a = record {
    publisher = a.publisher;
    store = a.store;
    root = a.root;
    has_publisher = a.has_publisher;
    has_store = a.has_store;
    same = elim a.same [
      | inl e ↦ inl ((is_empty_iff (lower (trim_space payload))).1 e)
      | inr e ↦ inr e
    ];
    published = (verify_publisher_iff c a.publisher env.sha256).1 a.published;
    known = a.known;
    approved =
        let text = store_statement-text c env a.publisher a.has_publisher in
        subst (λ k. signed c a.root k a.store.signature ≡ none) (sym text)
          ((signed_iff c a.root (store_text c env.sha256 a.publisher) a.store.signature).1
            a.approved);
  }

  -- Verify answers the store exactly when the payload has no digest or that of the envelope, the
  -- publisher's key is written out, hashes to the stated kid and verifies the signature of the
  -- publisher's lines, and a known root verifies the signature of the store's lines.
  pub verify_iff :
      (env : Envelope) (payload : Text) (roots : Dict Text)
      → ((verify c env payload roots).0 ≡ from_store) ↔ IsApproved env payload roots
  verify_iff env payload roots = (
    λ h. IsChecked-IsApproved env payload roots (verify_sound env payload roots h),
    λ a.
        ap (λ r. r.0)
          (verify-IsChecked env payload roots (IsApproved-IsChecked env payload roots a)),
  )
