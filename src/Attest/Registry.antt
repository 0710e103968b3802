-- ===== src/Attest/Registry.antt =====
-- v2/attest/registry.go: the read side of the publisher registry and the store's write path.
pub mod Order
pub mod Trust
pub mod Resolved
use bytedesk_sdk_dependencie.Prelude.{
  ◌==◌, if◌then◌else◌, Bool, true, false, not, ◌&&◌, ◌||◌, Option, none, some, List, [], ◌∷◌, ◌++◌,
  map, is_empty, Text, bytes, text_eq, length, Dict, lookup, join, sort_texts,
}
use bytedesk_sdk_dependencie.Prelude.Int.{ℤ}
use bytedesk_sdk_dependencie.Bus.Msg.{lower}
use bytedesk_sdk_dependencie.Manifest.Words.{trim_space}
use bytedesk_sdk_dependencie.Attest.{
  StoreSignature, envelope_version, AttestError, untrusted_root, object_digest_mismatch,
  key_not_in_registry, key_revoked, other, Checked, passed, refused, Crypto, seed_size, kid,
  equal_fold,
}
use bytedesk_sdk_dependencie.Attest.Hex.{hex}
use bytedesk_sdk_dependencie.Attest.Sign.{◌⏎◌, normalize_digest, signed, decode_public_key}

unfoldable pub publisher_manifest_domain : Text
publisher_manifest_domain = bytes "bytedesk.publisher-manifest.v1"

unfoldable pub key_active : Text
key_active = bytes "active"

unfoldable pub key_revoked_status : Text
key_revoked_status = bytes "revoked"

pub record RegistryObject : Type 0 where
  pub path : Text
  pub sha256 : Text

pub record PublisherManifest : Type 0 where
  pub v : ℤ
  pub id : Text
  pub updated_at : Text
  pub objects : List RegistryObject
  pub store : Option StoreSignature

pub record PublisherKey : Type 0 where
  pub kid : Text
  pub public_key : Text
  pub status : Text
  pub created_at : Text
  pub revoked_at : Text

-- One line of the object list.
unfoldable pub object_line : RegistryObject → Text
object_line o = trim_space o.path ++ (b' ' ∷ normalize_digest o.sha256)

-- The loop of PublisherManifest.ObjectDigest, on a trimmed path.
unfoldable pub digest_of : Text → List RegistryObject → Text
digest_of path [] = []
digest_of path (o ∷ os) =
    if text_eq (trim_space o.path) path then normalize_digest o.sha256 else digest_of path os

-- PublisherManifest.ObjectDigest
unfoldable pub object_digest : PublisherManifest → Text → Text
object_digest m path = digest_of (trim_space path) m.objects

-- KeyPath
unfoldable pub key_path : Text → Text
key_path k = bytes "keys/" ++ (lower (trim_space k) ++ bytes ".json")

module _ (c : Crypto) where
  -- PublisherManifestStatement
  unfoldable pub publisher_manifest_statement : PublisherManifest → Text
  publisher_manifest_statement m =
      publisher_manifest_domain
      ⏎ trim_space m.id
      ⏎ hex (c.sum256 (join 10 (sort_texts (map object_line m.objects))))

  -- SignPublisherManifest
  unfoldable pub sign_publisher_manifest :
      Text → PublisherManifest → Text → Checked PublisherManifest
  sign_publisher_manifest seed m at =
      if not (length seed == seed_size)
      then refused other
      else if is_empty (trim_space m.id)
      then refused other
      else passed (record {
        v = envelope_version;
        id = m.id;
        updated_at = at;
        objects = m.objects;
        store = some (record {
          kid = kid c (c.public_of seed);
          signature = c.base64 (c.sign seed (publisher_manifest_statement m));
          issued_at = at;
        });
      })

  -- VerifyPublisherManifest
  unfoldable pub verify_publisher_manifest : PublisherManifest → Dict Text → Option AttestError
  verify_publisher_manifest m roots = elim m.store [
    | none ↦ some untrusted_root
    | some s ↦ elim (lookup (lower s.kid) roots) [
      | none ↦ some untrusted_root
      | some root ↦ signed c root (publisher_manifest_statement m) s.signature
    ]
  ]

  -- PublisherManifest.VerifyObject
  unfoldable pub verify_object : PublisherManifest → Text → Text → Option AttestError
  verify_object m path body =
      if is_empty (object_digest m path)
      then some object_digest_mismatch
      else if text_eq (hex (c.sum256 body)) (object_digest m path)
      then none
      else some object_digest_mismatch

  -- The end of ResolvePublisherKey: the status of a key that has been identified.
  unfoldable pub check_status : Text → Text → Checked Text
  check_status status pub_key =
      if text_eq (lower (trim_space status)) key_revoked_status
      then refused key_revoked
      else if not (text_eq (lower (trim_space status)) key_active)
      then refused key_not_in_registry
      else passed pub_key

  -- ResolvePublisherKey from the decoded key object on.
  unfoldable pub check_key : Text → PublisherKey → Checked Text
  check_key k key = elim (decode_public_key c key.public_key) [
    | none ↦ refused other
    | some pub_key ↦
        if not (equal_fold (kid c pub_key) (trim_space k))
          || not (equal_fold (kid c pub_key) (trim_space key.kid))
        then refused other
        else check_status key.status pub_key
  ]

  -- ResolvePublisherKey; `read` is json.Unmarshal into a key object.
  unfoldable pub resolve_publisher_key :
      (Text → Option PublisherKey)
      → PublisherManifest
      → Text
      → Text
      → Text
      → Dict Text
      → Checked Text
  resolve_publisher_key read m publisher_id k key_object roots =
      if not (equal_fold (trim_space m.id) (trim_space publisher_id))
      then refused key_not_in_registry
      else elim (verify_publisher_manifest m roots) [
        | some e ↦ refused e
        | none ↦
            if is_empty (object_digest m (key_path k))
            then refused key_not_in_registry
            else elim (verify_object m (key_path k) key_object) [
              | some e ↦ refused e
              | none ↦ elim (read key_object) [ none ↦ refused other | some key ↦ check_key k key ]
            ]
      ]
