-- ===== src/Attest/Registry/Resolved.antt =====
-- What a key rests on that ResolvePublisherKey answers.
use bytedesk_sdk_dependencie.Prelude.{
  List, ◌++◌, ◌∙◌, In, bytes, lookup, text_eq_iff, ◌≡◌, ◌≢◌, true, none, Option, some, Text, Dict,
  is_empty, Option-cases, inl, inr, arith, false,
}
use bytedesk_sdk_dependencie.Manifest.Words.{trim_space}
use bytedesk_sdk_dependencie.Bus.Msg.{lower}
use bytedesk_sdk_dependencie.Attest.{StoreSignature, passed, Crypto, equal_fold}
use bytedesk_sdk_dependencie.Attest.Hex.{hex}
use bytedesk_sdk_dependencie.Attest.Sign.{normalize_digest}
use bytedesk_sdk_dependencie.Attest.Sign.Meaning.{
  SignedBy, Spells, HasKid, signed_iff, decode_public_key_iff, equal_fold-HasKid,
}
use bytedesk_sdk_dependencie.Attest.Registry.{
  RegistryObject, key_active, publisher_manifest_statement, PublisherManifest, PublisherKey,
  object_digest, key_path, verify_publisher_manifest, verify_object, check_key,
  resolve_publisher_key,
}
use bytedesk_sdk_dependencie.Attest.Registry.Trust.{
  IsListed, IsSigned, IsKey, verify_publisher_manifest-IsSigned, verify_object-IsListed,
  check_key-IsKey,
}

module _ (c : Crypto) (read : Text → Option PublisherKey) (m : PublisherManifest)
    (publisher_id k key_object : Text) (roots : Dict Text) where
  -- The path of the key object of a kid.
  abbrev pub path_of_key : Text
  path_of_key = trim_space (bytes "keys/" ++ (lower (trim_space k) ++ bytes ".json"))

  -- No two entries under that path state different digests.
  abbrev pub IsSingle : List RegistryObject → Type 0
  IsSingle os =
      (o o' : RegistryObject)
      → In o os
      → In o' os
      → trim_space o.path ≡ path_of_key
      → trim_space o'.path ≡ path_of_key
      → lower (trim_space o.sha256) ≡ lower (trim_space o'.sha256)

  -- A root signed the lines of the manifest.
  pub record IsVouched : Type 0 where
    pub store : StoreSignature
    pub root : Text
    pub has_store : m.store ≡ some store
    pub known : lookup (lower store.kid) roots ≡ some root
    pub approved : SignedBy c root (publisher_manifest_statement c m) store.signature

  -- The key object states the key: 32 bytes, written out, that hash to the kid asked for and to its
  -- own, with a status that is "active".
  pub record IsHonoured (key_text : Text) (key : PublisherKey) : Type 0 where
    pub spelled : Spells c key.public_key key_text
    pub derived : HasKid c key_text (trim_space k)
    pub stated : HasKid c key_text (trim_space key.kid)
    pub active : lower (trim_space key.status) ≡ bytes "active"

  -- Everything that a resolved key rests on: the manifest is that of the publisher and signed by a
  -- root, it lists an object under the path of the kid, every object under that path has the hash of
  -- the key object, and this one holds the key.
  pub record IsResolved (key_text : Text) : Type 0 where
    pub key : PublisherKey
    pub owner : lower (trim_space m.id) ≡ lower (trim_space publisher_id)
    pub manifest : IsVouched
    pub object : (o : RegistryObject) × (In o m.objects × (trim_space o.path ≡ path_of_key))
    pub only :
        (o : RegistryObject)
        → In o m.objects
        → trim_space o.path ≡ path_of_key
        → lower (trim_space o.sha256) ≡ hex (c.sum256 key_object)
    pub content : read key_object ≡ some key
    pub valid : IsHonoured key_text key

  IsSigned-IsVouched : IsSigned c m roots → IsVouched
  IsSigned-IsVouched s = record {
    store = s.store;
    root = s.root;
    has_store = s.has_store;
    known = s.known;
    approved =
        (signed_iff c s.root (publisher_manifest_statement c m) s.store.signature).0 s.approved;
  }

  IsKey-IsHonoured :
      (key_text : Text) (key : PublisherKey) → IsKey c k key_text key → IsHonoured key_text key
  unfolding key_active
  IsKey-IsHonoured key_text key i = record {
    spelled = (decode_public_key_iff c key.public_key key_text).0 i.decoded;
    derived = (equal_fold-HasKid c key_text (trim_space k)).0 i.derived;
    stated = (equal_fold-HasKid c key_text (trim_space key.kid)).0 i.stated;
    active = i.active;
  }

  -- Where one entry under the path has a digest, all have it.
  IsListed-only :
      IsSingle m.objects
      → IsListed (trim_space (key_path k)) (hex (c.sum256 key_object)) m.objects
      → (o : RegistryObject) → In o m.objects
      → trim_space o.path ≡ path_of_key
      → lower (trim_space o.sha256) ≡ hex (c.sum256 key_object)
  unfolding key_path normalize_digest
  IsListed-only single l o i e = single o l.object i l.there_is e l.path_eq ∙ l.digest_eq

  IsListed-path :
      IsListed (trim_space (key_path k)) (hex (c.sum256 key_object)) m.objects
      → (o : RegistryObject) × (In o m.objects × (trim_space o.path ≡ path_of_key))
  unfolding key_path
  IsListed-path l = (l.object, (l.there_is, l.path_eq))

  resolve-owner :
      (key_text : Text)
      → resolve_publisher_key c read m publisher_id k key_object roots ≡ passed key_text
      → (equal_fold (trim_space m.id) (trim_space publisher_id) ≡ true)
        × (verify_publisher_manifest c m roots ≡ none)
        × (is_empty (object_digest m (key_path k)) ≡ false)
        × (verify_object c m (key_path k) key_object ≡ none)
  unfolding resolve_publisher_key
  resolve-owner key_text h = (ground arith, ground arith, ground arith, ground arith)

  resolve-unread :
      (key_text : Text)
      → read key_object ≡ none
      → resolve_publisher_key c read m publisher_id k key_object roots ≢ passed key_text
  unfolding resolve_publisher_key
  resolve-unread key_text e h = ground arith

  resolve-read :
      (key_text : Text) (key : PublisherKey)
      → read key_object ≡ some key
      → resolve_publisher_key c read m publisher_id k key_object roots ≡ passed key_text
      → check_key c k key ≡ passed key_text
  unfolding resolve_publisher_key
  resolve-read key_text key e h = ground arith

  -- Where no two entries of the manifest under the path of the kid differ in their digests, a resolved
  -- key is one that the key object holds as active, hashing to the kid; every entry under the path has
  -- the hash of that object, and a root signed the manifest of the publisher.
  pub resolve_publisher_key-IsResolved :
      (key_text : Text)
      → IsSingle m.objects
      → resolve_publisher_key c read m publisher_id k key_object roots ≡ passed key_text
      → IsResolved key_text
  resolve_publisher_key-IsResolved key_text single h =
      let (owner, proven, _, whole) = resolve-owner key_text h in
      let listed = verify_object-IsListed c m (key_path k) key_object whole in
      elim (Option-cases (read key_object)) [
        | inl e ↦ absurd (resolve-unread key_text e h)
        | inr (key, e) ↦ record {
          key = key;
          owner = (text_eq_iff (lower (trim_space m.id)) (lower (trim_space publisher_id))).0 owner;
          manifest = IsSigned-IsVouched (verify_publisher_manifest-IsSigned c m roots proven);
          object = IsListed-path listed;
          only = IsListed-only single listed;
          content = e;
          valid =
              IsKey-IsHonoured key_text key
                (check_key-IsKey c k key_text key (resolve-read key_text key e h));
        }
      ]
