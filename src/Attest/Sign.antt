-- ===== src/Attest/Sign.antt =====
-- v2/attest/sign.go: the signed statements, signing, countersigning and verification.
pub mod Approval
pub mod Chain
pub mod Meaning
pub mod Roots
pub mod Statements
use bytedesk_sdk_dependencie.Prelude.{
  ℕ, ◌==◌, if◌then◌else◌, Bool, true, false, not, ◌&&◌, ◌||◌, Option, none, some, List, [], ◌∷◌,
  ◌++◌, is_empty, Text, bytes, text_eq, length, Dict, lookup, insert,
}
use bytedesk_sdk_dependencie.Bus.Msg.{lower}
use bytedesk_sdk_dependencie.Manifest.Words.{trim_space}
use bytedesk_sdk_dependencie.Attest.{
  PublisherSignature, StoreSignature, Envelope, envelope_version, Provenance, from_store,
  from_upload, from_dev, AttestError, unsigned, untrusted_root, bad_signature, digest_mismatch,
  other, Checked, passed, refused, Crypto, seed_size, public_key_size, sum_size, kid, equal_fold,
}
use bytedesk_sdk_dependencie.Attest.Hex.{unhex}

unfoldable pub publisher_domain : Text
publisher_domain = bytes "bytedesk.publisher-release.v1"

unfoldable pub store_domain : Text
store_domain = bytes "bytedesk.store-attestation.v1"

-- normalizeDigest
unfoldable pub normalize_digest : Text → Text
normalize_digest s = lower (trim_space s)

-- checkDigest, true where it returns nil
unfoldable pub check_digest : Text → Bool
check_digest digest = elim (unhex digest) [ none ↦ false | some raw ↦ length raw == sum_size ]

-- a + "\n" + b
infixr 60 ◌⏎◌
unfoldable pub ◌⏎◌ : Text → Text → Text
a ⏎ b = a ++ (10 ∷ b)

-- PublisherStatement
unfoldable pub publisher_statement : Text → Text → Text
publisher_statement publisher_id payload =
    publisher_domain ⏎ trim_space publisher_id ⏎ normalize_digest payload

-- The three lines on the publisher, empty where there is none.
unfoldable pub publisher_lines : Option PublisherSignature → Text
publisher_lines none = [] ⏎ [] ⏎ []
publisher_lines (some p) = p.id ⏎ p.kid ⏎ p.signature

-- StoreStatement
unfoldable pub store_statement : Envelope → Text
store_statement env = store_domain ⏎ normalize_digest env.sha256 ⏎ publisher_lines env.publisher

-- raw, if it was decoded and has the size of a public key
unfoldable pub key_sized : Option Text → Option Text
key_sized none = none
key_sized (some raw) = if length raw == public_key_size then some raw else none

-- One entry of a roots document.
pub record RootEntry : Type 0 where
  pub kid : Text
  pub public_key : Text

module _ (c : Crypto) where
  -- decodePublicKey
  unfoldable pub decode_public_key : Text → Option Text
  decode_public_key encoded = elim (key_sized (c.unbase64 (trim_space encoded))) [
    | some raw ↦ some raw
    | none ↦ key_sized (unhex (trim_space encoded))
  ]

  -- SignPublisher
  unfoldable pub sign_publisher : Text → Text → Text → Checked Envelope
  sign_publisher seed publisher_id payload =
      if not (length seed == seed_size)
      then refused other
      else if is_empty (trim_space publisher_id)
      then refused other
      else if not (check_digest (normalize_digest payload))
      then refused other
      else let digest = normalize_digest payload in
        let pub_key = c.public_of seed in
        passed (record {
          v = envelope_version;
          sha256 = digest;
          publisher = some (record {
            id = trim_space publisher_id;
            kid = kid c pub_key;
            public_key = c.base64 pub_key;
            signature = c.base64 (c.sign seed (publisher_statement publisher_id digest));
          });
          store = none;
        })

  -- The base64 signature `encoded` of the statement under the key.
  unfoldable pub signed : Text → Text → Text → Option AttestError
  signed pub_key statement encoded = elim (c.unbase64 encoded) [
    | none ↦ some bad_signature
    | some sig ↦ if c.verifies pub_key statement sig then none else some bad_signature
  ]

  -- verifyPublisher, of an envelope with this publisher and this digest
  unfoldable pub verify_publisher : PublisherSignature → Text → Option AttestError
  verify_publisher p payload = elim (decode_public_key p.public_key) [
    | none ↦ some other
    | some pub_key ↦
        if not (equal_fold (kid c pub_key) p.kid)
        then some other
        else signed pub_key (publisher_statement p.id payload) p.signature
  ]

  -- Countersign; `issued` is the instant in RFC 3339.
  unfoldable pub countersign : Text → Envelope → Text → Checked Envelope
  countersign seed env issued =
      if not (length seed == seed_size) then refused other else elim env.publisher [
        | none ↦ refused unsigned
        | some p ↦ elim (verify_publisher p env.sha256) [
          | some e ↦ refused e
          | none ↦ passed (record env {
            store = some (record {
              kid = kid c (c.public_of seed);
              signature = c.base64 (c.sign seed (store_statement env));
              issued_at = issued;
            });
          })
        ]
      ]

  -- The last part of Verify: the countersignature under one of the roots.
  unfoldable pub verify_store :
      Envelope → StoreSignature → Dict Text → Provenance × Option AttestError
  verify_store env s roots = elim (lookup (lower s.kid) roots) [
    | none ↦ (from_upload, some untrusted_root)
    | some root ↦ elim (signed root (store_statement env) s.signature) [
      | some e ↦ (from_upload, some e)
      | none ↦ (from_store, none)
    ]
  ]

  -- Verify
  unfoldable pub verify : Envelope → Text → Dict Text → Provenance × Option AttestError
  verify env payload roots =
      if not (is_empty (normalize_digest payload))
        && not (text_eq (normalize_digest payload) (normalize_digest env.sha256))
      then (from_dev, some digest_mismatch)
      else elim env.publisher [
        | none ↦ (from_dev, some unsigned)
        | some p ↦ elim (verify_publisher p env.sha256) [
          | some e ↦ (from_dev, some e)
          | none ↦ elim env.store [ none ↦ (from_upload, none) | some s ↦ verify_store env s roots ]
        ]
      ]

  -- The loop of LoadRoots.
  unfoldable pub load_entries : Dict Text → List RootEntry → Checked (Dict Text)
  load_entries out [] = passed out
  load_entries out (root ∷ rest) = elim (decode_public_key root.public_key) [
    | none ↦ refused other
    | some pub_key ↦
        let others = load_entries (insert (lower root.kid) pub_key out) rest in
        if not (equal_fold (kid c pub_key) root.kid) then refused other else others
  ]

  -- LoadRoots, on the document that the JSON decoder `read` makes of the input, if it does.
  unfoldable pub load_roots : (Text → Option (List RootEntry)) → Text → Checked (Dict Text)
  load_roots read input = elim (read input) [
    | none ↦ refused other
    | some entries ↦ load_entries [] entries
  ]
