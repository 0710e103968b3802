-- ===== src/Manifest/Assets.antt =====
-- validateAssets of v2/plugin/validate.go: the streams, buckets and object stores that a manifest
-- asks for.
pub mod Bounded
use bytedesk_sdk_dependencie.Prelude.{
  ℕ, suc, if◌then◌else◌, Bool, true, false, not, ◌&&◌, ◌||◌, Option, none, some, List, [], ◌∷◌,
  ◌++◌, is_empty, Text, bytes,
}
use bytedesk_sdk_dependencie.Prelude.Int.{ℤ, pos, negsuc, is_pos}
use bytedesk_sdk_dependencie.Bus.Subject.{parse_pattern}
use bytedesk_sdk_dependencie.Manifest.{
  Manifest, StreamDecl, KvDecl, ObjectDecl, Diagnostic, finding, indexed,
}
use bytedesk_sdk_dependencie.Manifest.Words.{trim_space, listed}
use bytedesk_sdk_dependencie.Manifest.Subjects.{report, refuse_reserved_tokens}

-- n < 0
abbrev pub is_negative : ℤ → Bool
is_negative (pos n) = false
is_negative (negsuc n) = true

-- The loop over the subjects of a stream.
unfoldable pub check_stream_subjects : Text → ℕ → List Text → List Diagnostic
check_stream_subjects path i [] = []
check_stream_subjects path i (p ∷ ps) =
    let here = indexed (path ++ bytes ".subjects") i in
    elim (parse_pattern p) [
      | some why ↦ finding (bytes "BDP2111") here ∷ []
      | none ↦ refuse_reserved_tokens here p
    ]
    ++ check_stream_subjects path (suc i) ps

unfoldable pub check_streams : List Text → ℕ → List StreamDecl → List Diagnostic
check_streams seen i [] = []
check_streams seen i (s ∷ streams) =
    let name = trim_space s.name in
    let path = indexed (bytes "streams") i in
    let rest = check_streams (if is_empty name then seen else name ∷ seen) (suc i) streams in
    if is_empty name
    then finding (bytes "BDP2130") (path ++ bytes ".name") ∷ rest
    else report (listed name seen) (bytes "BDP2131") (path ++ bytes ".name")
      ++ (report (not (is_pos s.max_bytes)) (bytes "BDP2132") (path ++ bytes ".maxBytes")
          ++ (report (not (is_pos s.max_age_seconds)) (bytes "BDP2133")
                (path ++ bytes ".maxAgeSeconds")
              ++ (report (is_negative s.max_msgs) (bytes "BDP2134") (path ++ bytes ".maxMsgs")
                  ++ (check_stream_subjects path 0 s.subjects ++ rest))))

unfoldable pub check_buckets : List Text → ℕ → List KvDecl → List Diagnostic
check_buckets seen i [] = []
check_buckets seen i (b ∷ buckets) =
    let name = trim_space b.name in
    let path = indexed (bytes "kv") i in
    let rest = check_buckets (if is_empty name then seen else name ∷ seen) (suc i) buckets in
    if is_empty name
    then finding (bytes "BDP2135") (path ++ bytes ".name") ∷ rest
    else report (listed name seen) (bytes "BDP2136") (path ++ bytes ".name")
      ++ (report (is_negative b.max_bytes || is_negative b.history) (bytes "BDP2137") path ++ rest)

unfoldable pub check_objects : List Text → ℕ → List ObjectDecl → List Diagnostic
check_objects seen i [] = []
check_objects seen i (b ∷ objects) =
    let name = trim_space b.name in
    let path = indexed (bytes "objects") i in
    let rest = check_objects (if is_empty name then seen else name ∷ seen) (suc i) objects in
    if is_empty name
    then finding (bytes "BDP2138") (path ++ bytes ".name") ∷ rest
    else report (listed name seen) (bytes "BDP2139") (path ++ bytes ".name")
      ++ (report (is_negative b.max_bytes) (bytes "BDP2140") (path ++ bytes ".maxBytes") ++ rest)

-- validateAssets
unfoldable pub validate_assets : Manifest → List Diagnostic
validate_assets m =
    check_streams [] 0 m.streams ++ (check_buckets [] 0 m.kv ++ check_objects [] 0 m.objects)
