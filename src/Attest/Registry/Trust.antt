-- ===== src/Attest/Registry/Trust.antt =====
-- What stands behind a key that the registry resolves.
use bytedesk_sdk_dependencie.Prelude.{
  ◌≡◌, ◌≢◌, refl, sym, ◌∙◌, subst, inl, inr, true, false, none, some, List, [], ◌∷◌, is_empty, In,
  here, there, Text, text_eq, text_eq_iff, Dict, lookup, arith, Bool-cases, Option-cases,
}
use bytedesk_sdk_dependencie.Bus.Msg.{lower}
use bytedesk_sdk_dependencie.Manifest.Words.{trim_space}
use bytedesk_sdk_dependencie.Attest.{StoreSignature, passed, Crypto, kid, equal_fold}
use bytedesk_sdk_dependencie.Attest.Hex.{hex}
use bytedesk_sdk_dependencie.Attest.Sign.{normalize_digest, signed, decode_public_key}
use bytedesk_sdk_dependencie.Attest.Registry.{
  RegistryObject, PublisherManifest, PublisherKey, key_active, digest_of, object_digest,
  publisher_manifest_statement, verify_publisher_manifest, verify_object, check_status, check_key,
}

-- An entry of the list gives this path this digest.
pub record IsListed (path digest : Text) (os : List RegistryObject) : Type 0 where
  pub object : RegistryObject
  pub there_is : In object os
  pub path_eq : trim_space object.path ≡ path
  pub digest_eq : normalize_digest object.sha256 ≡ digest

IsListed-there :
    (path digest : Text) (o : RegistryObject) (os : List RegistryObject)
    → IsListed path digest os
    → IsListed path digest (o ∷ os)
IsListed-there path digest o os l = record {
  object = l.object;
  there_is = there l.there_is;
  path_eq = l.path_eq;
  digest_eq = l.digest_eq;
}

digest_of-IsListed :
    (path : Text) (os : List RegistryObject)
    → is_empty (digest_of path os) ≡ false
    → IsListed path (digest_of path os) os
unfolding digest_of
digest_of-IsListed path [] h = absurd (ground arith)
digest_of-IsListed path (o ∷ os) h = elim (Bool-cases (text_eq (trim_space o.path) path)) [
  | inl e ↦ rw e (record {
    object = o;
    there_is = here;
    path_eq = (text_eq_iff (trim_space o.path) path).0 e;
    digest_eq = refl;
  })
  | inr e ↦ rw e (IsListed-there path _ o os (digest_of-IsListed path os (ground arith)))
]

module _ (c : Crypto) where
  -- A root signed the list of objects of the manifest.
  pub record IsSigned (m : PublisherManifest) (roots : Dict Text) : Type 0 where
    pub store : StoreSignature
    pub root : Text
    pub has_store : m.store ≡ some store
    pub known : lookup (lower store.kid) roots ≡ some root
    pub approved : signed c root (publisher_manifest_statement c m) store.signature ≡ none

  verify_publisher_manifest-unsigned :
      (m : PublisherManifest) (roots : Dict Text)
      → m.store ≡ none
      → verify_publisher_manifest c m roots ≢ none
  unfolding verify_publisher_manifest
  verify_publisher_manifest-unsigned m roots h g = ground arith

  verify_publisher_manifest-unknown :
      (m : PublisherManifest) (roots : Dict Text) (s : StoreSignature)
      → m.store ≡ some s
      → lookup (lower s.kid) roots ≡ none
      → verify_publisher_manifest c m roots ≢ none
  unfolding verify_publisher_manifest
  verify_publisher_manifest-unknown m roots s h e g = ground arith

  verify_publisher_manifest-known :
      (m : PublisherManifest) (roots : Dict Text) (s : StoreSignature) (root : Text)
      → m.store ≡ some s
      → lookup (lower s.kid) roots ≡ some root
      → verify_publisher_manifest c m roots
        ≡ signed c root (publisher_manifest_statement c m) s.signature
  unfolding verify_publisher_manifest publisher_manifest_statement
  verify_publisher_manifest-known m roots s root h e = rw (verify_publisher_manifest, h, e) refl

  pub verify_publisher_manifest-IsSigned :
      (m : PublisherManifest) (roots : Dict Text)
      → verify_publisher_manifest c m roots ≡ none
      → IsSigned m roots
  verify_publisher_manifest-IsSigned m roots h = elim (Option-cases m.store) [
    | inl n ↦ absurd (verify_publisher_manifest-unsigned m roots n h)
    | inr (s, e) ↦ elim (Option-cases (lookup (lower s.kid) roots)) [
      | inl n ↦ absurd (verify_publisher_manifest-unknown m roots s e n h)
      | inr (root, known) ↦ record {
        store = s;
        root = root;
        has_store = e;
        known = known;
        approved = sym (verify_publisher_manifest-known m roots s root e known) ∙ h;
      }
    ]
  ]

  verify_object_lem :
      (m : PublisherManifest) (path body : Text)
      → verify_object c m path body ≡ none
      → (is_empty (object_digest m path) ≡ false) × (object_digest m path ≡ hex (c.sum256 body))
  unfolding verify_object
  verify_object_lem m path body h =
      let test = text_eq_iff (hex (c.sum256 body)) (object_digest m path) in
      (ground arith, sym (ground (arith, test)))

  -- The object with these bytes is one that the manifest lists under the path.
  pub verify_object-IsListed :
      (m : PublisherManifest) (path body : Text)
      → verify_object c m path body ≡ none
      → IsListed (trim_space path) (hex (c.sum256 body)) m.objects
  unfolding object_digest
  verify_object-IsListed m path body h =
      let (some_digest, same) = verify_object_lem m path body h in
      let listed = digest_of-IsListed (trim_space path) m.objects some_digest in
      subst (λ d. IsListed (trim_space path) d m.objects) same listed

  -- What makes a key one to be honoured for the kid.
  pub record IsKey (k key_text : Text) (key : PublisherKey) : Type 0 where
    pub decoded : decode_public_key c key.public_key ≡ some key_text
    pub derived : equal_fold (kid c key_text) (trim_space k) ≡ true
    pub stated : equal_fold (kid c key_text) (trim_space key.kid) ≡ true
    pub active : lower (trim_space key.status) ≡ key_active

  check_status_lem :
      (status key_text pub_key : Text)
      → check_status c status pub_key ≡ passed key_text
      → (pub_key ≡ key_text) × (lower (trim_space status) ≡ key_active)
  unfolding check_status
  check_status_lem status key_text pub_key h =
      let test = text_eq_iff (lower (trim_space status)) key_active in
      (ground arith, ground (arith, test))

  check_key-undecoded :
      (k key_text : Text) (key : PublisherKey)
      → decode_public_key c key.public_key ≡ none
      → check_key c k key ≢ passed key_text
  unfolding check_key
  check_key-undecoded k key_text key e h = ground arith

  check_key-decoded :
      (k key_text pub_key : Text) (key : PublisherKey)
      → decode_public_key c key.public_key ≡ some pub_key
      → check_key c k key ≡ passed key_text
      → (equal_fold (kid c pub_key) (trim_space k) ≡ true)
        × (equal_fold (kid c pub_key) (trim_space key.kid) ≡ true)
        × (check_status c key.status pub_key ≡ passed key_text)
  unfolding check_key
  check_key-decoded k key_text pub_key key e h = (ground arith, ground arith, ground arith)

  pub check_key-IsKey :
      (k key_text : Text) (key : PublisherKey)
      → check_key c k key ≡ passed key_text
      → IsKey k key_text key
  check_key-IsKey k key_text key h = elim (Option-cases (decode_public_key c key.public_key)) [
    | inl e ↦ absurd (check_key-undecoded k key_text key e h)
    | inr (pub_key, e) ↦
        let (derived, stated, rest) = check_key-decoded k key_text pub_key key e h in
        let (same, active) = check_status_lem key.status key_text pub_key rest in
        subst (λ t. IsKey k t key) same
          (record { decoded = e; derived = derived; stated = stated; active = active })
  ]
