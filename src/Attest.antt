-- ===== src/Attest.antt =====
-- v2/attest: the attestation that travels inside a .bdx package (envelope.go) and the errors that
-- its verification distinguishes. SHA-256, Ed25519 and standard base64 are parameters.
pub mod Hex
pub mod Digests
pub mod Sign
pub mod Registry
use bytedesk_sdk_dependencie.Prelude.{
  ◌≡◌, ℕ, Bool, true, Option, none, some, Text, length, bytes, text_eq,
}
use bytedesk_sdk_dependencie.Prelude.Int.{ℤ, pos}
use bytedesk_sdk_dependencie.Bus.Msg.{lower}
use bytedesk_sdk_dependencie.Manifest.Words.{trim_space}
use bytedesk_sdk_dependencie.Attest.Hex.{hex}

pub record PublisherSignature : Type 0 where
  pub id : Text
  pub kid : Text
  pub public_key : Text
  pub signature : Text

pub record StoreSignature : Type 0 where
  pub kid : Text
  pub signature : Text
  pub issued_at : Text

pub record Envelope : Type 0 where
  pub v : ℤ
  pub sha256 : Text
  pub publisher : Option PublisherSignature
  pub store : Option StoreSignature

-- EnvelopeVersion
abbrev pub envelope_version : ℤ
envelope_version = pos 1

pub data Provenance : Type 0 where
  from_store from_upload from_dev : Provenance

-- Envelope.Declares
unfoldable pub declares : Envelope → Provenance
declares env = elim env.publisher [
  | none ↦ from_dev
  | some p ↦ elim env.store [ none ↦ from_upload | some s ↦ from_store ]
]

-- The errors that a caller distinguishes, and one for all others. The wording is left out.
pub data AttestError : Type 0 where
  unsigned untrusted_root bad_signature digest_mismatch : AttestError
  key_not_in_registry key_revoked object_digest_mismatch other : AttestError

-- A value, or the error in its place.
pub data Checked {ℓ} (A : Type ℓ) : Type ℓ where
  passed : A → Checked A
  refused : AttestError → Checked A

-- What is used of crypto/sha256, crypto/ed25519 and encoding/base64. `public_of` is the public half
-- of NewKeyFromSeed, `sign` signs with the key of a seed, `verifies` is ed25519.Verify.
pub record Crypto : Type 0 where
  pub sum256 : Text → Text
  pub base64 : Text → Text
  pub unbase64 : Text → Option Text
  pub public_of : Text → Text
  pub sign : Text → Text → Text
  pub verifies : Text → Text → Text → Bool

-- ed25519.SeedSize, ed25519.PublicKeySize and sha256.Size
abbrev pub seed_size : ℕ
seed_size = 32

abbrev pub public_key_size : ℕ
public_key_size = 32

abbrev pub sum_size : ℕ
sum_size = 32

-- What the packages document: decoding undoes encoding, encoded text has no blank at its ends, a
-- seed gives a public key of the right size, and a signature verifies under the key that made it.
pub record IsLawful (c : Crypto) : Type 0 where
  pub decodes : (t : Text) → c.unbase64 (c.base64 t) ≡ some t
  pub tight : (t : Text) → trim_space (c.base64 t) ≡ c.base64 t
  pub sized : (seed : Text) → length seed ≡ seed_size → length (c.public_of seed) ≡ public_key_size
  pub signs : (seed m : Text) → c.verifies (c.public_of seed) m (c.sign seed m) ≡ true

-- KID
unfoldable pub kid : Crypto → Text → Text
kid c pub_key = hex (c.sum256 pub_key)

-- strings.EqualFold on ASCII texts
abbrev pub equal_fold : Text → Text → Bool
equal_fold a b = text_eq (lower a) (lower b)
