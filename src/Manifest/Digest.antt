-- ===== src/Manifest/Digest.antt =====
-- v2/plugin/digest.go: the text that GrantsDigest hashes. SHA-256 is a parameter.
pub mod Framing
pub mod Consent
pub mod Records
use bytedesk_sdk_dependencie.Prelude.{
  ℕ, suc, List, [], ◌∷◌, ◌++◌, map, length, Text, bytes, join, format_uint, sort_texts,
}
use bytedesk_sdk_dependencie.Prelude.Int.{ℤ, pos, negsuc}
use bytedesk_sdk_dependencie.Manifest.{
  Manifest, EndpointDecl, ServiceDecl, StreamDecl, KvDecl, ObjectDecl,
}
use bytedesk_sdk_dependencie.Attest.Hex.{hex}

-- GrantsDigestAlgorithm
unfoldable pub grants_digest_algorithm : Text
grants_digest_algorithm = bytes "bytedesk.plugin.grants.v3"

-- write: what it adds to the hashed text
unfoldable pub framed : Text → Text
framed s = format_uint (length s) ++ (b':' ∷ (s ++ (b':' ∷ [])))

unfoldable pub framed_all : List Text → Text
framed_all [] = []
framed_all (t ∷ ts) = framed t ++ framed_all ts

-- section: what it adds to the hashed text
unfoldable pub section : Text → List Text → Text
section label values =
    framed label ++ (framed (format_uint (length values)) ++ framed_all (sort_texts values))

-- join, and strings.Join by the record separator
unfoldable pub join_fields : List Text → Text
join_fields fields = join 31 fields

unfoldable pub join_records : List Text → Text
join_records records = join 30 records

-- fmt.Sprint of an int64
unfoldable pub format_int : ℤ → Text
format_int (pos n) = format_uint n
format_int (negsuc n) = b'-' ∷ format_uint (suc n)

unfoldable pub endpoint_text : EndpointDecl → Text
endpoint_text ep = join_fields (ep.name ∷ ep.subject ∷ ep.point ∷ [])

unfoldable pub service_text : ServiceDecl → Text
service_text svc = join_fields (
    svc.name
    ∷ svc.version
    ∷ svc.queue_group
    ∷ join_records (sort_texts (map endpoint_text svc.endpoints))
    ∷ [])

unfoldable pub stream_text : StreamDecl → Text
stream_text s = join_fields (
    s.name
    ∷ format_int s.max_bytes
    ∷ format_int s.max_age_seconds
    ∷ format_int s.max_msgs
    ∷ join_records (sort_texts s.subjects)
    ∷ [])

unfoldable pub kv_text : KvDecl → Text
kv_text b =
    join_fields
      (b.name ∷ format_int b.max_bytes ∷ format_int b.ttl_seconds ∷ format_int b.history ∷ [])

unfoldable pub object_text : ObjectDecl → Text
object_text b = join_fields (b.name ∷ format_int b.max_bytes ∷ format_int b.ttl_seconds ∷ [])

-- The labelled lists that GrantsDigest writes one after the other.
unfoldable pub sections : Manifest → List (Text × List Text)
sections m =
    (bytes "publish", m.permissions.publish)
    ∷ (bytes "request", m.permissions.request)
    ∷ (bytes "subscribe", m.permissions.subscribe)
    ∷ (bytes "serves", map service_text m.serves)
    ∷ (bytes "streams", map stream_text m.streams)
    ∷ (bytes "kv", map kv_text m.kv)
    ∷ (bytes "objects", map object_text m.objects)
    ∷ (bytes "needs", m.needs)
    ∷ (bytes "capabilities", m.capabilities)
    ∷ []

unfoldable pub all_sections : List (Text × List Text) → Text
all_sections [] = []
all_sections ((label, values) ∷ rest) = section label values ++ all_sections rest

-- Everything that GrantsDigest writes into the hash.
unfoldable pub grants_text : Manifest → Text
grants_text m = framed grants_digest_algorithm ++ all_sections (sections m)

-- GrantsDigest
unfoldable pub grants_digest : (Text → Text) → Manifest → Text
grants_digest sum256 m = hex (sum256 (grants_text m))
