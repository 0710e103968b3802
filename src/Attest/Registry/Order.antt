-- ===== src/Attest/Registry/Order.antt =====
-- The statement over the object list of a publisher: it does not hang on the list's order.
use mathlib.Core.List.{Perm}
use mathlib.Core.List.Perm
use bytedesk_sdk_dependencie.Prelude.{
  ◌≡◌, ◌≢◌, refl, false, false≢true, none, some, Text, bytes, text_eq, text_eq_iff, contains_byte,
  Lacks, is_empty, length, Dict, lookup, sort_texts-eq,
}
use bytedesk_sdk_dependencie.Bus.Msg.{lower}
use bytedesk_sdk_dependencie.Manifest.Words.{trim_space}
use bytedesk_sdk_dependencie.Attest.{
  Envelope, envelope_version, Crypto, IsLawful, passed, seed_size, kid,
}
use bytedesk_sdk_dependencie.Attest.Sign.{
  publisher_domain, store_domain, publisher_statement, store_statement,
}
use bytedesk_sdk_dependencie.Attest.Sign.Chain.{signed-sign}
use bytedesk_sdk_dependencie.Attest.Sign.Statements.{
  ⏎_injective, publisher_domain-Lacks, store_domain-Lacks,
}
use bytedesk_sdk_dependencie.Attest.Registry.{
  PublisherManifest, publisher_manifest_domain, object_line, publisher_manifest_statement,
  sign_publisher_manifest, verify_publisher_manifest,
}

-- Two writers that list the same objects of one publisher, in whatever order, sign the same bytes.
pub publisher_manifest_statement-eq :
    (c : Crypto) (m n : PublisherManifest)
    → trim_space m.id ≡ trim_space n.id
    → Perm m.objects n.objects
    → publisher_manifest_statement c m ≡ publisher_manifest_statement c n
unfolding publisher_manifest_statement
publisher_manifest_statement-eq c m n e p =
    rw (publisher_manifest_statement, e, sort_texts-eq (Perm.map object_line p)) refl

manifest_domain-Lacks : Lacks 10 publisher_manifest_domain
unfolding publisher_manifest_domain bytes contains_byte
manifest_domain-Lacks = refl

manifest_domain-ne_publisher : publisher_manifest_domain ≢ publisher_domain
unfolding publisher_domain publisher_manifest_domain bytes text_eq
manifest_domain-ne_publisher h =
    false≢true ((text_eq_iff publisher_manifest_domain publisher_domain).1 h)

manifest_domain-ne_store : publisher_manifest_domain ≢ store_domain
unfolding store_domain publisher_manifest_domain bytes text_eq
manifest_domain-ne_store h = false≢true ((text_eq_iff publisher_manifest_domain store_domain).1 h)

-- A signature over an object list is over no release and no countersigned package.
pub publisher_manifest_statement-ne :
    (c : Crypto) (m : PublisherManifest) (publisher_id payload : Text) (env : Envelope)
    → (publisher_manifest_statement c m ≢ publisher_statement publisher_id payload)
      × (publisher_manifest_statement c m ≢ store_statement env)
unfolding publisher_manifest_statement publisher_statement store_statement
publisher_manifest_statement-ne c m publisher_id payload env = (
  λ h. manifest_domain-ne_publisher (
      (⏎_injective publisher_manifest_domain publisher_domain _ _ manifest_domain-Lacks
        publisher_domain-Lacks h).0),
  λ h. manifest_domain-ne_store (
      (⏎_injective publisher_manifest_domain store_domain _ _ manifest_domain-Lacks
        store_domain-Lacks h).0),
)

-- The list as the store publishes it.
listing : Crypto → Text → PublisherManifest → Text → PublisherManifest
listing c seed m at = record {
  v = envelope_version;
  id = m.id;
  updated_at = at;
  objects = m.objects;
  store = some (record {
    kid = kid c (c.public_of seed);
    signature = c.base64 (c.sign seed (publisher_manifest_statement c m));
    issued_at = at;
  });
}

-- What the store publishes passes the check of a host that has the store's root.
pub verify_publisher_manifest-sign_publisher_manifest :
    (c : Crypto)
    → IsLawful c
    → (seed : Text) (m : PublisherManifest) (at : Text) (roots : Dict Text)
    → length seed ≡ seed_size
    → is_empty (trim_space m.id) ≡ false
    → lookup (lower (kid c (c.public_of seed))) roots ≡ some (c.public_of seed)
    → (out : PublisherManifest) × (sign_publisher_manifest c seed m at ≡ passed out)
      × (verify_publisher_manifest c out roots ≡ none)
unfolding listing sign_publisher_manifest verify_publisher_manifest publisher_manifest_statement
verify_publisher_manifest-sign_publisher_manifest c law seed m at roots hs hi hr = (
  listing c seed m at,
  rw (sign_publisher_manifest, hs, hi) refl,
  rw (verify_publisher_manifest, hr) (signed-sign c law seed (publisher_manifest_statement c m)),
)
