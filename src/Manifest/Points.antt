-- ===== src/Manifest/Points.antt =====
-- The extension points of v2/plugin/points.go, and the rules on their names in manifest.go and
-- validate.go. A text is walked by its bytes, as ASCII texts are.
use bytedesk_sdk_dependencie.Prelude.{
  ℕ, suc, ◌==◌, ltb, leb, if◌then◌else◌, Bool, true, false, not, ◌&&◌, ◌||◌, Option, none, some,
  List, [], ◌∷◌, ◌++◌, any, length, is_empty, Text, text_eq, bytes, split, has_prefix,
}
use bytedesk_sdk_dependencie.Bus.Msg.{lower}
use bytedesk_sdk_dependencie.Manifest.{Publisher, Diagnostic, finding}
use bytedesk_sdk_dependencie.Manifest.Words.{trim_space, listed}

-- knownPoints
unfoldable pub known_points : List Text
known_points =
    bytes "mcp.tool"
    ∷ bytes "files.s3"
    ∷ bytes "acp.provider"
    ∷ bytes "ai.decision"
    ∷ bytes "project.tasks"
    ∷ bytes "project.knowledge"
    ∷ bytes "terminal.presentation"
    ∷ bytes "host.settings.section"
    ∷ bytes "host.session.backend"
    ∷ []

-- IsKnownPoint
unfoldable pub is_known_point : Text → Bool
is_known_point s = listed s known_points

-- strings.HasSuffix
unfoldable pub has_suffix : Text → Text → Bool
has_suffix [] part = is_empty part
has_suffix (c ∷ t) part = text_eq (c ∷ t) part || has_suffix t part

-- isOneDeletionFrom; the first text is one byte longer.
unfoldable pub is_one_deletion_from : Text → Text → Bool
is_one_deletion_from long [] = true
is_one_deletion_from [] (y ∷ short) = false
is_one_deletion_from (x ∷ long) (y ∷ short) =
    let rest = is_one_deletion_from long short in if x == y then rest else text_eq long (y ∷ short)

-- The places at which two texts of one length differ.
unfoldable pub differences : Text → Text → ℕ
differences [] b = 0
differences (x ∷ a) [] = 0
differences (x ∷ a) (y ∷ b) = let rest = differences a b in if x == y then rest else suc rest

-- withinOneEdit
unfoldable pub within_one_edit : Text → Text → Bool
within_one_edit a b =
    if length a == length b
    then differences a b == 1
    else if length a == suc (length b)
    then is_one_deletion_from a b
    else if length b == suc (length a)
    then is_one_deletion_from b a
    else false

-- The first text that passes a test
unfoldable pub first_with : (Text → Bool) → List Text → Option Text
first_with test [] = none
first_with test (p ∷ ps) = let rest = first_with test ps in if test p then some p else rest

-- SuggestPoint
unfoldable pub suggest_point : Text → Option Text
suggest_point name =
    let s = lower (trim_space name) in
    if is_empty s
    then none
    else if is_known_point s
    then some s
    else elim (first_with (λ p. has_suffix p (b'.' ∷ s)) known_points) [
      | some p ↦ some p
      | none ↦ first_with (λ p. within_one_edit p s) known_points
    ]

abbrev pub point_byte : ℕ → Bool
point_byte c = ((leb b'a' c && leb c b'z') || (leb b'0' c && leb c b'9')) || c == b'-'

unfoldable pub segment_bad : Text → Bool
segment_bad segment = is_empty segment || any (λ c. not (point_byte c)) segment

-- name starts with the id of the publisher and a dot.
unfoldable pub in_publisher : Option Publisher → Text → Bool
in_publisher none name = false
in_publisher (some p) name =
    let namespace = lower (trim_space p.id) in
    not (is_empty namespace) && has_prefix name (namespace ++ b'.' ∷ [])

-- ValidateExtendsName, whether it accepts
unfoldable pub extends_name_ok : Option Publisher → Text → Bool
extends_name_ok publisher name =
    let segments = split b'.' name in
    if ltb (length segments) 2
    then false
    else if any segment_bad segments
    then false
    else if has_prefix name (bytes "host.")
    then not (ltb (length segments) 3)
    else in_publisher publisher name

-- validatePointName
unfoldable pub validate_point_name : Text → Option Publisher → Text → List Diagnostic
validate_point_name path publisher given =
    let name = trim_space given in
    if is_empty name
    then finding (bytes "BDP2051") path ∷ []
    else if is_known_point name
    then []
    else elim (suggest_point name) [
      | some p ↦ finding (bytes "BDP2052") path ∷ []
      | none ↦
          if not (extends_name_ok publisher name)
          then finding (bytes "BDP2053") path ∷ []
          else if has_prefix name (bytes "host.")
          then finding (bytes "BDP2054") path ∷ []
          else []
    ]
