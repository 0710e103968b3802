-- ===== src/Attest/Sign/Statements.antt =====
-- What the statements of v2/attest/sign.go and registry.go bind: their lines can be read back.
use bytedesk_sdk_dependencie.Prelude.{
  ◌≡◌, ◌≢◌, refl, sym, ◌∙◌, false≢true, some, Text, bytes, text_eq, text_eq_iff, contains_byte,
  Lacks, part_injective,
}
use bytedesk_sdk_dependencie.Attest.{PublisherSignature, Envelope}
use bytedesk_sdk_dependencie.Attest.Sign.{
  ◌⏎◌, publisher_domain, store_domain, normalize_digest, publisher_statement, publisher_lines,
  store_statement,
}

-- A first line without a newline, and what follows it, can be told apart.
pub ⏎_injective : (a b s t : Text) → Lacks 10 a → Lacks 10 b → a ⏎ s ≡ b ⏎ t → (a ≡ b) × (s ≡ t)
unfolding ◌⏎◌
⏎_injective a b s t la lb h = part_injective 10 a b s t la lb h

pub publisher_domain-Lacks : Lacks 10 publisher_domain
unfolding publisher_domain bytes contains_byte
publisher_domain-Lacks = refl

pub store_domain-Lacks : Lacks 10 store_domain
unfolding store_domain bytes contains_byte
store_domain-Lacks = refl

domains_differ : publisher_domain ≢ store_domain
unfolding publisher_domain store_domain bytes text_eq
domains_differ h = false≢true ((text_eq_iff publisher_domain store_domain).1 h)

-- No publisher statement is a store statement, whatever is in their fields.
pub publisher_statement-ne-store_statement :
    (publisher_id payload : Text) (env : Envelope)
    → publisher_statement publisher_id payload ≢ store_statement env
unfolding publisher_statement store_statement
publisher_statement-ne-store_statement publisher_id payload env h =
    domains_differ (
      (⏎_injective publisher_domain store_domain _ _ publisher_domain-Lacks store_domain-Lacks h).0)

-- The fields that stand on lines of their own hold no newline.
pub record IsLined (env : Envelope) (p : PublisherSignature) : Type 0 where
  pub present : env.publisher ≡ some p
  pub digest : Lacks 10 (normalize_digest env.sha256)
  pub id : Lacks 10 p.id
  pub kid : Lacks 10 p.kid

store_statement-some :
    (env : Envelope) (p : PublisherSignature)
    → env.publisher ≡ some p
    → store_statement env ≡ store_domain ⏎ normalize_digest env.sha256 ⏎ p.id ⏎ p.kid ⏎ p.signature
unfolding store_statement publisher_lines
store_statement-some env p h = rw h refl

-- Equal store statements are about one payload, one publisher, one key and one signature.
pub store_statement_injective :
    (e f : Envelope) (p q : PublisherSignature)
    → IsLined e p
    → IsLined f q
    → store_statement e ≡ store_statement f
    → (normalize_digest e.sha256 ≡ normalize_digest f.sha256)
      × (p.id ≡ q.id)
      × (p.kid ≡ q.kid)
      × (p.signature ≡ q.signature)
store_statement_injective e f p q le lf h =
    let both =
      sym (store_statement-some e p le.present) ∙ (h ∙ store_statement-some f q lf.present) in
    let (_, h1) =
      ⏎_injective store_domain store_domain _ _ store_domain-Lacks store_domain-Lacks both in
    let (digests, h2) = ⏎_injective _ _ _ _ le.digest lf.digest h1 in
    let (ids, h3) = ⏎_injective p.id q.id _ _ le.id lf.id h2 in
    let (kids, signatures) = ⏎_injective p.kid q.kid _ _ le.kid lf.kid h3 in
    (digests, ids, kids, signatures)
