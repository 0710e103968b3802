-- ===== src/Bus/Msg.antt =====
-- v2/bus/msg.go: message headers and the caller that the substrate stamped.
pub mod Stamping
use bytedesk_sdk_dependencie.Prelude.{
  is_empty, is_empty_iff, ℕ, ◌+◌, ◌≡◌, refl, Bool, true, false, ◌&&◌, ◌||◌, Option, none, some,
  List, [], ◌∷◌, leb, if◌then◌else◌, Text, bytes, text_eq, has_prefix, Dict, lookup, insert, Option,
}

-- The header names.
unfoldable pub header_schema : Text
header_schema = bytes "bd-schema"

unfoldable pub header_caller : Text
header_caller = bytes "bd-caller"

unfoldable pub header_generation : Text
header_generation = bytes "bd-generation"

unfoldable pub header_subject : Text
header_subject = bytes "bd-subject"

unfoldable pub header_fault : Text
header_fault = bytes "bd-fault"

unfoldable pub header_correlation : Text
header_correlation = bytes "bd-corr"

unfoldable pub header_traceparent : Text
header_traceparent = bytes "traceparent"

unfoldable pub header_msg_id : Text
header_msg_id = bytes "bd-msg-id"

-- strings.ToLower on one byte of an ASCII text
unfoldable pub lower_byte : ℕ → ℕ
lower_byte c = if leb b'A' c && leb c b'Z' then c + 32 else c

unfoldable pub lower : Text → Text
unfolding lower_byte
lower [] = []
lower (c ∷ t) = lower_byte c ∷ lower t

-- A nil map and an empty one answer alike.
abbrev pub Headers : Type 0
Headers = Dict Text

-- The loop that ends Headers.Get.
unfoldable pub scan : Text → Headers → Text
scan lk [] = []
scan lk ((hk, v) ∷ h) = if text_eq (lower hk) lk then v else scan lk h

-- Headers.Get
unfoldable pub get : Headers → Text → Text
get h k = elim (lookup k h) [
  | some v ↦ v
  | none ↦ elim (lookup (lower k) h) [ some v ↦ v | none ↦ scan (lower k) h ]
]

-- Headers.Clone
unfoldable pub clone_loop : Headers → Headers → Headers
clone_loop out [] = out
clone_loop out ((k, v) ∷ h) = clone_loop (insert (lower k) v out) h

unfoldable pub clone : Headers → Headers
clone h = clone_loop [] h

unfoldable pub is_reserved_header : Text → Bool
is_reserved_header k = has_prefix (lower k) (bytes "bd-")

unfoldable pub is_identity_header : Text → Bool
is_identity_header k =
    text_eq (lower k) header_caller
    || (text_eq (lower k) header_generation || text_eq (lower k) header_subject)

-- StripReserved
unfoldable pub strip_loop : Headers → Headers → Headers
strip_loop out [] = out
strip_loop out ((k, v) ∷ h) =
    strip_loop (if is_identity_header (lower k) then out else insert (lower k) v out) h

unfoldable pub strip_reserved : Headers → Headers
strip_reserved h = strip_loop [] h

-- bus.Msg as a handler sees it. Its respond closure is the inbox that a reply goes to, if any.
pub record Msg : Type 0 where
  pub subject : Text
  pub reply : Text
  pub headers : Headers
  pub body : Text
  pub respond : Option Text

pub record Caller : Type 0 where
  pub plugin_id : Text
  pub generation : Text
  pub subject_lease : Text

-- CallerOf
unfoldable pub caller_of : Msg → Caller
caller_of m = record {
  plugin_id = get m.headers header_caller;
  generation = get m.headers header_generation;
  subject_lease = get m.headers header_subject;
}

-- Caller.Autonomous
unfoldable pub autonomous : Caller → Bool
autonomous c = is_empty c.subject_lease
