-- ===== src/Attest/Sign/Meaning.antt =====
-- What the checks of v2/attest/sign.go stand for: keys as they are written, kids, and signatures over
-- statements that are spelled out.
use bytedesk_sdk_dependencie.Prelude.{
  ◌≡◌, ◌≢◌, ◌↔◌, ◌⊎◌, refl, sym, ◌∙◌, inl, inr, true, Option, none, some, ◌∷◌, ◌++◌, length, Text,
  bytes, text_eq_iff, arith, Option-cases, Bool-cases, ◌==◌, ap,
}
use bytedesk_sdk_dependencie.Bus.Msg.{lower}
use bytedesk_sdk_dependencie.Manifest.Words.{trim_space}
use bytedesk_sdk_dependencie.Attest.{PublisherSignature, Envelope, Crypto, kid, equal_fold}
use bytedesk_sdk_dependencie.Attest.Hex.{unhex, hex}
use bytedesk_sdk_dependencie.Attest.Sign.{
  ◌⏎◌, normalize_digest, publisher_domain, store_domain, publisher_statement, store_statement,
  publisher_lines, key_sized, decode_public_key, signed, verify_publisher,
}

module _ (c : Crypto) where
  -- The base64 text `encoded` is a signature of the statement that verifies under the key.
  abbrev pub SignedBy : Text → Text → Text → Type 0
  SignedBy key statement encoded =
      (sig : Text) × ((c.unbase64 encoded ≡ some sig) × (c.verifies key statement sig ≡ true))

  pub signed_iff :
      (key statement encoded : Text)
      → (signed c key statement encoded ≡ none) ↔ SignedBy key statement encoded
  unfolding signed
  signed_iff key statement encoded = elim (Option-cases (c.unbase64 encoded)) [
    | inl e ↦ (λ h. absurd (ground arith), λ (sig, (u, v)). absurd (ground arith))
    | inr (sig, e) ↦ (
      λ h. (sig, (e, ground arith)),
      λ (sig', (u, v)). let same : sig ≡ sig' = ground arith in ground arith,
    )
  ]

  -- A key of 32 bytes in base64, or in hex where the base64 reading gives no 32 bytes.
  abbrev pub Spells : Text → Text → Type 0
  Spells encoded key =
      (length key ≡ 32)
      × ((c.unbase64 (trim_space encoded) ≡ some key)
          ⊎ (((raw : Text) → c.unbase64 (trim_space encoded) ≡ some raw → length raw ≢ 32)
              × (unhex (trim_space encoded) ≡ some key)))

  key_sized_lem :
      (o : Option Text) (key : Text)
      → (key_sized o ≡ some key) ↔ ((o ≡ some key) × (length key ≡ 32))
  unfolding key_sized
  key_sized_lem none key = (λ h. absurd (ground arith), λ h. absurd (ground arith))
  key_sized_lem (some raw) key = elim (Bool-cases (length raw == 32)) [
    | inl e ↦ (
      λ h. let same : raw ≡ key = ground arith in (ap some same, ground arith),
      λ h. let same : raw ≡ key = ground arith in ground arith,
    )
    | inr e ↦ (
      λ h. absurd (ground arith),
      λ h. let same : raw ≡ key = ground arith in absurd (ground arith),
    )
  ]

  key_sized-none :
      (o : Option Text) → key_sized o ≡ none → (raw : Text) → o ≡ some raw → length raw ≢ 32
  key_sized-none o h raw e n = absurd (ground (arith, (key_sized_lem o raw).1 (e, n)))

  decode-first :
      (encoded raw : Text)
      → key_sized (c.unbase64 (trim_space encoded)) ≡ some raw
      → decode_public_key c encoded ≡ some raw
  unfolding decode_public_key
  decode-first encoded raw e = rw (decode_public_key, e) refl

  decode-second :
      (encoded : Text)
      → key_sized (c.unbase64 (trim_space encoded)) ≡ none
      → decode_public_key c encoded ≡ key_sized (unhex (trim_space encoded))
  unfolding decode_public_key
  decode-second encoded e = rw (decode_public_key, e) refl

  pub decode_public_key_iff :
      (encoded key : Text) → (decode_public_key c encoded ≡ some key) ↔ Spells encoded key
  decode_public_key_iff encoded key =
      let base = c.unbase64 (trim_space encoded) in
      let lem = key_sized_lem base in
      elim (Option-cases (key_sized base)) [
        | inr (raw, e) ↦
            let open_ = decode-first encoded raw e in
            (
              λ h.
                  let same : raw ≡ key = ground arith in
                  let (b, n) = (lem key).0 (rw same at e) in (n, inl b),
              λ (n, w). elim w [
                | inl b ↦ let other = (lem key).1 (b, n) in open_ ∙ (sym e ∙ other)
                | inr (unsized, u) ↦ let (b, size) = (lem raw).0 e in absurd (unsized raw b size)
              ],
            )
        | inl e ↦
            let open_ = decode-second encoded e in
            (
              λ h.
                  let (u, n) = (key_sized_lem (unhex (trim_space encoded)) key).0 (sym open_ ∙ h) in
                  (n, inr (key_sized-none base e, u)),
              λ (n, w). elim w [
                | inl b ↦ absurd (key_sized-none base e key b n)
                | inr (unsized, u) ↦
                    open_ ∙ (key_sized_lem (unhex (trim_space encoded)) key).1 (u, n)
              ],
            )
      ]

  -- The hash of a key in hex is a kid, whatever the case of its letters.
  abbrev pub HasKid : Text → Text → Type 0
  HasKid key k = lower (hex (c.sum256 key)) ≡ lower k

  pub equal_fold-HasKid : (key k : Text) → (equal_fold (kid c key) k ≡ true) ↔ HasKid key k
  unfolding kid
  equal_fold-HasKid key k = text_eq_iff (lower (hex (c.sum256 key))) (lower k)

  -- The lines that a publisher signs.
  abbrev pub publisher_text : Text → Text → Text
  publisher_text id digest =
      bytes "bytedesk.publisher-release.v1"
      ++ 10 ∷ (trim_space id ++ 10 ∷ lower (trim_space digest))

  -- The lines that the store signs, of an envelope with this publisher.
  abbrev pub store_text : Text → PublisherSignature → Text
  store_text digest p =
      bytes "bytedesk.store-attestation.v1"
      ++ 10 ∷ (lower (trim_space digest) ++ 10 ∷ (p.id ++ 10 ∷ (p.kid ++ 10 ∷ p.signature)))

  pub store_statement-text :
      (env : Envelope) (p : PublisherSignature)
      → env.publisher ≡ some p
      → store_statement env ≡ store_text env.sha256 p
  unfolding store_statement ◌⏎◌ store_domain normalize_digest publisher_lines
  store_statement-text env p e = rw (store_statement, e) refl

  -- The publisher's half: a key that is written out, has the stated kid, and under which the signature
  -- of the publisher's lines verifies.
  abbrev pub IsPublished : PublisherSignature → Text → Type 0
  IsPublished p digest =
      (key : Text) × (Spells p.public_key key
        × (HasKid key p.kid × SignedBy key (publisher_text p.id digest) p.signature))

  verify_publisher-key :
      (p : PublisherSignature) (digest key : Text)
      → decode_public_key c p.public_key ≡ some key
      → (verify_publisher c p digest ≡ none) ↔ (
          (equal_fold (kid c key) p.kid ≡ true)
          × (signed c key (publisher_text p.id digest) p.signature ≡ none))
  unfolding verify_publisher publisher_statement ◌⏎◌ publisher_domain normalize_digest
  verify_publisher-key p digest key e = elim (Bool-cases (equal_fold (kid c key) p.kid)) [
    | inl k ↦ rw (verify_publisher, e, k) (λ h. (refl, h), λ h. h.1)
    | inr k ↦ rw (verify_publisher, e, k) (λ h. absurd (ground arith), λ h. absurd (ground arith))
  ]

  verify_publisher-undecoded :
      (p : PublisherSignature) (digest : Text)
      → decode_public_key c p.public_key ≡ none
      → verify_publisher c p digest ≢ none
  unfolding verify_publisher
  verify_publisher-undecoded p digest e h = ground arith

  pub verify_publisher_iff :
      (p : PublisherSignature) (digest : Text)
      → (verify_publisher c p digest ≡ none) ↔ IsPublished p digest
  verify_publisher_iff p digest = (
    λ h. elim (Option-cases (decode_public_key c p.public_key)) [
      | inl e ↦ absurd (verify_publisher-undecoded p digest e h)
      | inr (key, e) ↦
          let (k, s) = (verify_publisher-key p digest key e).0 h in
          (
            key,
            (
              (decode_public_key_iff p.public_key key).0 e,
              (
                (equal_fold-HasKid key p.kid).0 k,
                (signed_iff key (publisher_text p.id digest) p.signature).0 s,
              ),
            ),
          )
    ],
    λ (key, (d, (k, s))).
        (verify_publisher-key p digest key ((decode_public_key_iff p.public_key key).1 d)).1 (
          (equal_fold-HasKid key p.kid).1 k,
          (signed_iff key (publisher_text p.id digest) p.signature).1 s,
        ),
  )
