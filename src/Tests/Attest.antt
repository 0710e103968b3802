-- ===== src/Tests/Attest.antt =====
-- The attestation at concrete inputs, under a signature that is the key in front of the message.
use bytedesk_sdk_dependencie.Prelude.{
  In, here, there, ◌+◌, ◌-◌, ◌≡◌, ◌↔◌, refl, ap, ◌∙◌, true, false, Option, none, some, List, [],
  ◌∷◌, ◌++◌, map, length, is_empty, Text, bytes, arith, contains_byte, text_eq, text_eq_refl, Dict,
  lookup, insert, ◌>>=◌, join, insert_text, sort_texts, text_leb,
}
use bytedesk_sdk_dependencie.Prelude.Int.{pos}
use bytedesk_sdk_dependencie.Bus.Msg.{lower, lower_byte}
use bytedesk_sdk_dependencie.Manifest.Words.{trim_left, trim_right, trim_space}
use bytedesk_sdk_dependencie.Attest.{
  PublisherSignature, Envelope, from_store, passed, Crypto, IsLawful, kid,
}
use bytedesk_sdk_dependencie.Attest.Sign.{
  RootEntry, normalize_digest, check_digest, store_statement, verify, load_roots, load_entries,
  decode_public_key, key_sized, signed, ◌⏎◌,
}
use bytedesk_sdk_dependencie.Attest.Sign.Approval.{IsApproved, verify_iff}
use bytedesk_sdk_dependencie.Attest.Sign.Chain.{release, verify-release}
use bytedesk_sdk_dependencie.Attest.Sign.Roots.{load_roots-IsKeyed}
use bytedesk_sdk_dependencie.Attest.Sign.Statements.{IsLined, store_statement_injective}
use bytedesk_sdk_dependencie.Attest.Registry.{
  RegistryObject, PublisherManifest, PublisherKey, publisher_manifest_statement,
  resolve_publisher_key, object_digest, key_path, verify_publisher_manifest,
  publisher_manifest_domain, check_key, check_status, digest_of, key_active, key_revoked_status,
  object_line, verify_object,
}
use bytedesk_sdk_dependencie.Attest.Registry.Resolved.{
  IsResolved, IsSingle, resolve_publisher_key-IsResolved,
}
use bytedesk_sdk_dependencie.Attest.Hex.{unhex, hex_value, hex, hex_digit}

abbrev shifted : Text → Text
shifted t = map (λ c. c + 33) t

abbrev toy : Crypto
toy = record {
  sum256 = λ t. t;
  base64 = shifted;
  unbase64 = λ t. some (map (λ c. c - 33) t);
  public_of = λ seed. seed;
  sign = λ seed m. seed ++ m;
  verifies = λ key m sig. text_eq sig (key ++ m);
}

unshifted : (t : Text) → toy.unbase64 (shifted t) ≡ some t
unshifted [] = refl
unshifted (c ∷ t) = ground (arith, unshifted t)

trim_left-shifted : (t : Text) → trim_left (shifted t) ≡ shifted t
unfolding trim_left
trim_left-shifted [] = refl
trim_left-shifted (c ∷ t) = ground arith

trim_right-shifted : (t : Text) → trim_right (shifted t) ≡ shifted t
unfolding trim_right
trim_right-shifted [] = refl
trim_right-shifted (c ∷ []) = ground arith
trim_right-shifted (c ∷ d ∷ u) = ground (arith, trim_right-shifted (d ∷ u))

toy-IsLawful : IsLawful toy
unfolding trim_space
toy-IsLawful = record {
  decodes = unshifted;
  tight = λ t. ap trim_left (trim_right-shifted t) ∙ trim_left-shifted t;
  sized = λ seed h. h;
  signs = λ seed m. text_eq_refl (seed ++ m);
}

abbrev seed : Text
seed = bytes "0123456789abcdef0123456789abcdef"

abbrev store_seed : Text
store_seed = bytes "fedcba9876543210fedcba9876543210"

abbrev digest : Text
digest = bytes "00112233445566778899AABBCCDDEEFF00112233445566778899AABBCCDDEEFF"

abbrev roots : Dict Text
roots = (lower (kid toy store_seed), store_seed) ∷ []

seed-length : length seed ≡ 32
unfolding bytes
seed-length = refl

store_seed-length : length store_seed ≡ 32
unfolding bytes
store_seed-length = refl

named : is_empty (trim_space (bytes " acme ")) ≡ false
unfolding bytes trim_space trim_left trim_right
named = refl

digest_checks : check_digest (normalize_digest digest) ≡ true
unfolding check_digest unhex normalize_digest lower trim_space trim_left trim_right bytes ◌>>=◌
    hex_value
digest_checks = refl

root_known : lookup (lower (kid toy store_seed)) roots ≡ some store_seed
unfolding lookup
root_known = rw (lookup, text_eq_refl (lower (kid toy store_seed))) refl

verify-release_example :
    (env : Envelope) × (release toy seed store_seed
        (bytes " acme ")
        digest
        (bytes "2026-01-01T00:00:00Z")
      ≡ passed env)
    × (verify toy env digest roots ≡ (from_store, none))
verify-release_example =
    verify-release toy toy-IsLawful seed store_seed (bytes " acme ") digest
      (bytes "2026-01-01T00:00:00Z") roots seed-length store_seed-length named digest_checks
      root_known

abbrev released : Envelope
released = verify-release_example.0

verify_iff_example :
    ((verify toy released digest roots).0 ≡ from_store) ↔ IsApproved toy released digest roots
verify_iff_example = verify_iff toy released digest roots

abbrev read_roots : Text → Option (List RootEntry)
read_roots input = some (record { kid = kid toy store_seed; public_key = shifted store_seed } ∷ [])

roots_loaded : load_roots toy read_roots (bytes "{}") ≡ passed roots
unfolding load_roots load_entries decode_public_key key_sized trim_space trim_left trim_right bytes
    text_eq lower kid hex hex_digit insert
roots_loaded = refl

load_roots-IsKeyed_example : lower (kid toy store_seed) ≡ lower (kid toy store_seed)
load_roots-IsKeyed_example =
    load_roots-IsKeyed toy read_roots (bytes "{}") roots (lower (kid toy store_seed)) store_seed
      roots_loaded root_known

abbrev acme : PublisherSignature
acme = record { id = bytes "acme"; kid = bytes "k"; public_key = bytes "p"; signature = bytes "s" }

abbrev envelope : Envelope
envelope = record { v = pos 1; sha256 = bytes "AA"; publisher = some acme; store = none }

abbrev renewed : Envelope
renewed = record { v = pos 1; sha256 = bytes " aa"; publisher = some acme; store = none }

envelope-IsLined : IsLined envelope acme
unfolding contains_byte normalize_digest lower trim_space trim_left trim_right bytes
envelope-IsLined = record { present = refl; digest = refl; id = refl; kid = refl }

renewed-IsLined : IsLined renewed acme
unfolding contains_byte normalize_digest lower trim_space trim_left trim_right bytes
renewed-IsLined = record { present = refl; digest = refl; id = refl; kid = refl }

same_statement : store_statement envelope ≡ store_statement renewed
unfolding bytes store_statement normalize_digest trim_space trim_right trim_left lower
same_statement = refl

store_statement_injective_example :
    (normalize_digest (bytes "AA") ≡ normalize_digest (bytes " aa"))
    × (acme.id ≡ acme.id)
    × (acme.kid ≡ acme.kid)
    × (acme.signature ≡ acme.signature)
store_statement_injective_example =
    store_statement_injective envelope renewed acme acme envelope-IsLined renewed-IsLined
      same_statement

abbrev key_bytes : Text
key_bytes = bytes "old"

abbrev key_object : PublisherKey
key_object = record {
  kid = kid toy seed;
  public_key = shifted seed;
  status = bytes "active";
  created_at = [];
  revoked_at = [];
}

abbrev read_key : Text → Option PublisherKey
read_key body = some key_object

-- The same key before and after it was revoked, under one path.
abbrev active_entry : RegistryObject
active_entry = record { path = key_path (kid toy seed); sha256 = bytes "6f6c64" }

abbrev revoked_entry : RegistryObject
revoked_entry = record { path = key_path (kid toy seed); sha256 = bytes "6e6577" }

abbrev unsigned_list : List RegistryObject → PublisherManifest
unsigned_list os = record {
  v = pos 1;
  id = bytes "acme";
  updated_at = [];
  objects = os;
  store = none;
}

abbrev signed_list : List RegistryObject → PublisherManifest
signed_list os = record (unsigned_list os) {
  store = some (record {
    kid = kid toy store_seed;
    signature = shifted (store_seed ++ publisher_manifest_statement toy (unsigned_list os));
    issued_at = [];
  });
}

resolves :
    resolve_publisher_key toy read_key
      (signed_list (active_entry ∷ []))
      (bytes "acme")
      (kid toy seed)
      key_bytes
      roots
    ≡ passed seed
unfolding bytes kid resolve_publisher_key text_eq lower trim_space trim_left trim_right
    verify_publisher_manifest lookup hex hex_digit signed publisher_manifest_statement ◌⏎◌
    publisher_manifest_domain join hex_value unhex check_key check_status digest_of key_active
    key_path key_revoked_status object_digest object_line verify_object decode_public_key key_sized
    normalize_digest lower_byte insert_text sort_texts text_leb ◌>>=◌
resolves = refl

one_entry :
    (o : RegistryObject)
    → In o (active_entry ∷ [])
    → lower (trim_space o.sha256) ≡ lower (trim_space active_entry.sha256)
one_entry _ here = refl
one_entry o (there i) = elim i [ ]

only_entry :
    IsSingle toy read_key
      (signed_list (active_entry ∷ []))
      (bytes "acme")
      (kid toy seed)
      key_bytes
      roots
      (active_entry ∷ [])
only_entry o _ i here e f = one_entry o i
only_entry o o' i (there j) e f = elim j [ ]

resolve_publisher_key-IsResolved_example :
    IsResolved toy read_key
      (signed_list (active_entry ∷ []))
      (bytes "acme")
      (kid toy seed)
      key_bytes
      roots
      seed
resolve_publisher_key-IsResolved_example =
    resolve_publisher_key-IsResolved toy read_key (signed_list (active_entry ∷ [])) (bytes "acme")
      (kid toy seed) key_bytes roots seed only_entry resolves

-- The order of two entries of one path decides which is used, and the signature does not fix it.
either_order :
    publisher_manifest_statement toy (unsigned_list (revoked_entry ∷ active_entry ∷ []))
    ≡ publisher_manifest_statement toy (unsigned_list (active_entry ∷ revoked_entry ∷ []))
unfolding bytes publisher_manifest_statement object_line normalize_digest trim_space trim_right
    trim_left lower key_path kid hex hex_digit sort_texts insert_text text_leb
either_order = refl

revoked_first :
    object_digest (unsigned_list (revoked_entry ∷ active_entry ∷ [])) (key_path (kid toy seed))
    ≡ bytes "6e6577"
unfolding bytes object_digest digest_of text_eq trim_space trim_left trim_right key_path lower kid
    hex hex_digit normalize_digest
revoked_first = refl

active_first :
    object_digest (unsigned_list (active_entry ∷ revoked_entry ∷ [])) (key_path (kid toy seed))
    ≡ bytes "6f6c64"
unfolding bytes object_digest digest_of text_eq trim_space trim_left trim_right key_path lower kid
    hex hex_digit normalize_digest
active_first = refl
