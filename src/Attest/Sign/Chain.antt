-- ===== src/Attest/Sign/Chain.antt =====
-- Signing, countersigning and verifying, one after the other, and what a verification has checked.
use bytedesk_sdk_dependencie.Prelude.{
  ◌≡◌, refl, sym, inr, true, false, none, some, is_empty, Text, text_eq_refl, length, Dict, lookup,
  arith,
}
use bytedesk_sdk_dependencie.Bus.Msg.{lower}
use bytedesk_sdk_dependencie.Manifest.Words.{trim_space}
use bytedesk_sdk_dependencie.Attest.{
  PublisherSignature, StoreSignature, Envelope, envelope_version, from_store, Checked, passed,
  refused, Crypto, IsLawful, seed_size, public_key_size, kid,
}
use bytedesk_sdk_dependencie.Attest.Digests.{
  trim_space-trim_space, normalize_digest-normalize_digest,
}
use bytedesk_sdk_dependencie.Attest.Sign.Approval.{verify-IsChecked}
use bytedesk_sdk_dependencie.Attest.Sign.{
  normalize_digest, check_digest, publisher_statement, store_statement, key_sized,
  decode_public_key, sign_publisher, signed, verify_publisher, countersign, verify,
}

-- What a packer and then the store do to a payload.
pub release : Crypto → Text → Text → Text → Text → Text → Checked Envelope
release c seed store_seed publisher_id payload issued =
    elim (sign_publisher c seed publisher_id payload) [
      | refused e ↦ refused e
      | passed env ↦ countersign c store_seed env issued
    ]

-- The publisher's half, and the envelope with it alone.
half : Crypto → Text → Text → Text → PublisherSignature
half c seed publisher_id payload = record {
  id = trim_space publisher_id;
  kid = kid c (c.public_of seed);
  public_key = c.base64 (c.public_of seed);
  signature = c.base64 (c.sign seed (publisher_statement publisher_id (normalize_digest payload)));
}

uploaded : Crypto → Text → Text → Text → Envelope
uploaded c seed publisher_id payload = record {
  v = envelope_version;
  sha256 = normalize_digest payload;
  publisher = some (half c seed publisher_id payload);
  store = none;
}

module _ (c : Crypto) (law : IsLawful c) where
  pub decode_public_key-base64 :
      (key : Text) → length key ≡ public_key_size → decode_public_key c (c.base64 key) ≡ some key
  unfolding decode_public_key key_sized
  decode_public_key-base64 key h =
      rw (decode_public_key, law.tight key, law.decodes key, key_sized, h) refl

  pub signed-sign :
      (seed m : Text) → signed c (c.public_of seed) m (c.base64 (c.sign seed m)) ≡ none
  unfolding signed
  signed-sign seed m = rw (signed, law.decodes (c.sign seed m), law.signs seed m) refl

  sign_publisher-uploaded :
      (seed publisher_id payload : Text)
      → length seed ≡ seed_size
      → is_empty (trim_space publisher_id) ≡ false
      → check_digest (normalize_digest payload) ≡ true
      → sign_publisher c seed publisher_id payload ≡ passed (uploaded c seed publisher_id payload)
  unfolding sign_publisher uploaded half
  sign_publisher-uploaded seed publisher_id payload hs hi hd = rw (hs, hi, hd) refl

  publisher_statement-trim_space :
      (i d : Text) → publisher_statement (trim_space i) d ≡ publisher_statement i d
  unfolding publisher_statement
  publisher_statement-trim_space i d = rw (trim_space-trim_space i) refl

  verify_publisher-half :
      (seed publisher_id payload : Text)
      → length seed ≡ seed_size
      → verify_publisher c (half c seed publisher_id payload) (normalize_digest payload) ≡ none
  unfolding verify_publisher half
  verify_publisher-half seed publisher_id payload h =
      rw
        (
          verify_publisher,
          decode_public_key-base64 (c.public_of seed) (law.sized seed h),
          text_eq_refl (lower (kid c (c.public_of seed))),
          publisher_statement-trim_space publisher_id (normalize_digest payload),
          signed-sign seed (publisher_statement publisher_id (normalize_digest payload)),
        )
        refl

  -- The store's signature over an envelope.
  approval : Text → Envelope → Text → StoreSignature
  approval seed env issued = record {
    kid = kid c (c.public_of seed);
    signature = c.base64 (c.sign seed (store_statement env));
    issued_at = issued;
  }

  countersign-approval :
      (seed : Text) (env : Envelope) (issued : Text) (p : PublisherSignature)
      → length seed ≡ seed_size
      → env.publisher ≡ some p
      → verify_publisher c p env.sha256 ≡ none
      → countersign c seed env issued
        ≡ passed (record env { store = some (approval seed env issued) })
  unfolding countersign approval
  countersign-approval seed env issued p hs hp hv = ground arith

  -- Signing with a 32-byte seed and countersigning with the seed of a known root goes through, and
  -- Verify then answers the store.
  pub verify-release :
      (seed store_seed publisher_id payload issued : Text) (roots : Dict Text)
      → length seed ≡ seed_size
      → length store_seed ≡ seed_size
      → is_empty (trim_space publisher_id) ≡ false
      → check_digest (normalize_digest payload) ≡ true
      → lookup (lower (kid c (c.public_of store_seed))) roots ≡ some (c.public_of store_seed)
      → (env : Envelope) × (release c seed store_seed publisher_id payload issued ≡ passed env)
        × (verify c env payload roots ≡ (from_store, none))
  unfolding uploaded approval store_statement
  verify-release seed store_seed publisher_id payload issued roots hs ht hi hd hr =
      let env = uploaded c seed publisher_id payload in
      let p = half c seed publisher_id payload in
      let s = approval store_seed env issued in
      let out : Envelope = record env { store = some s } in
      let built = sign_publisher-uploaded seed publisher_id payload hs hi hd in
      let proven = verify_publisher-half seed publisher_id payload hs in
      let granted = countersign-approval store_seed env issued p ht refl proven in
      (
        out,
        unfold release in rw (release, built, granted) refl,
        verify-IsChecked c out payload roots (record {
          publisher = p;
          store = s;
          root = c.public_of store_seed;
          has_publisher = refl;
          has_store = refl;
          same = inr (sym (normalize_digest-normalize_digest payload));
          published = proven;
          known = hr;
          approved = signed-sign store_seed (store_statement env);
        }),
      )
