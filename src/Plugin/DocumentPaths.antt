-- ===== src/Plugin/DocumentPaths.antt =====
-- plugin/document_paths.go: document patterns, their match and their overlap.
pub mod Overlap
pub mod Shared
mod Tidy
use bytedesk_sdk_dependencie.Prelude.{
  ℕ, ◌==◌, ltb, leb, if◌then◌else◌, Bool, true, false, not, ◌&&◌, ◌||◌, Option, none, some, List,
  [], ◌∷◌, length, is_empty, Text, text_eq, bytes, has_prefix, split, join, contains_byte, Dict,
  insert,
}

-- documentSegment, its kind as the constructor
pub data Segment : Type 0 where
  literal param tail : Text → Segment

-- documentLetter
abbrev pub document_letter : ℕ → Bool
document_letter c = (leb b'a' c && leb c b'z') || (leb b'A' c && leb c b'Z')

abbrev pub is_digit : ℕ → Bool
is_digit c = leb b'0' c && leb c b'9'

abbrev pub name_byte : ℕ → Bool
name_byte c = document_letter c || (is_digit c || c == b'_')

abbrev pub literal_byte : ℕ → Bool
literal_byte c =
    document_letter c || (is_digit c || (c == b'.' || (c == b'_' || (c == b'~' || c == b'-'))))

unfoldable pub all_bytes : (ℕ → Bool) → Text → Bool
all_bytes p [] = true
all_bytes p (c ∷ t) = p c && all_bytes p t

unfoldable pub name_ok : Text → Bool
name_ok [] = false
name_ok (c ∷ t) = document_letter c && all_bytes name_byte t

-- part == "" || part == "." || part == ".."
unfoldable pub is_dots : Text → Bool
is_dots part = is_empty part || (text_eq part (bytes ".") || text_eq part (bytes ".."))

-- names[name]
unfoldable pub seen : List Text → Text → Bool
seen [] name = false
seen (x ∷ xs) name = text_eq x name || seen xs name

-- A part that is neither empty nor dots.
unfoldable pub parse_part : List Text → Bool → Text → Option Segment
parse_part names last [] = none
parse_part names last (c ∷ name) =
    if c == b':'
    then (if name_ok name && not (seen names name) then some (param name) else none)
    else if c == b'*'
    then (if name_ok name && (not (seen names name) && last) then some (tail name) else none)
    else if all_bytes literal_byte (c ∷ name)
    then some (literal (c ∷ name))
    else none

-- names[name] = true
unfoldable pub noted : Segment → List Text → List Text
noted (literal v) names = names
noted (param v) names = v ∷ names
noted (tail v) names = v ∷ names

unfoldable pub parse_parts : List Text → List Text → Option (List Segment)
parse_parts names [] = some []
parse_parts names (part ∷ parts) =
    if is_dots part then none else elim (parse_part names (is_empty parts) part) [
      | none ↦ none
      | some segment ↦ elim (parse_parts (noted segment names) parts) [
        | none ↦ none
        | some segments ↦ some (segment ∷ segments)
      ]
    ]

-- parseDocumentPath; its one error is none.
unfoldable pub parse_document_path : Text → Option (List Segment)
parse_document_path [] = none
parse_document_path (c ∷ rest) =
    if not (c == b'/') || is_empty rest then none else parse_parts [] (split b'/' rest)

-- segments[len(segments)-1].kind == '*'
unfoldable pub ends_in_tail : List Segment → Bool
ends_in_tail [] = false
ends_in_tail (literal v ∷ []) = false
ends_in_tail (param v ∷ []) = false
ends_in_tail (tail v ∷ []) = true
ends_in_tail (s ∷ t ∷ segments) = ends_in_tail (t ∷ segments)

-- The last loop of MatchDocumentPath, after the test on the lengths.
unfoldable pub match_segments : List Segment → List Text → Dict Text → Option (Dict Text)
match_segments [] parts params = some params
match_segments (s ∷ segments) [] params = none
match_segments (param v ∷ segments) (p ∷ parts) params =
    match_segments segments parts (insert v p params)
match_segments (tail v ∷ segments) (p ∷ parts) params =
    match_segments segments parts (insert v (join b'/' (p ∷ parts)) params)
match_segments (literal v ∷ segments) (p ∷ parts) params =
    let rest = match_segments segments parts params in if text_eq v p then rest else none

-- The test of MatchDocumentPath on the lengths.
unfoldable pub lengths_fit : List Segment → List Text → Bool
lengths_fit segments parts =
    not (ltb (length parts) (length segments))
    && (ends_in_tail segments || length parts == length segments)

-- url.PathUnescape, utf8.ValidString, and whether unicode.IsControl holds of some rune.
module _ (unescape : Text → Option Text) (valid_string has_control : Text → Bool) where
  unfoldable pub decode_part : Text → Option Text
  decode_part part = elim (unescape part) [
    | none ↦ none
    | some decoded ↦
        if is_dots decoded
          || (not (valid_string decoded)
              || (contains_byte b'/' decoded
                  || (contains_byte b'\\' decoded || has_control decoded)))
        then none
        else some decoded
  ]

  unfoldable pub decode_parts : List Text → Option (List Text)
  decode_parts [] = some []
  decode_parts (part ∷ parts) = elim (decode_part part) [
    | none ↦ none
    | some decoded ↦ elim (decode_parts parts) [ none ↦ none | some rest ↦ some (decoded ∷ rest) ]
  ]

  -- The parts of the escaped path, decoded, or none where MatchDocumentPath looks no further.
  unfoldable pub path_parts : List Segment → Text → Option (List Text)
  path_parts segments [] = none
  path_parts segments (c ∷ rest) =
      if not (c == b'/')
        || (contains_byte b'?' rest || (contains_byte b'#' rest || contains_byte b'\\' rest))
      then none
      else if lengths_fit segments (split b'/' rest)
      then decode_parts (split b'/' rest)
      else none

  -- MatchDocumentPath
  unfoldable pub match_document_path : Text → Text → Option (Dict Text)
  match_document_path pattern path = elim (parse_document_path pattern) [
    | none ↦ none
    | some segments ↦ elim (path_parts segments path) [
      | none ↦ none
      | some parts ↦ match_segments segments parts []
    ]
  ]

-- The loop of DocumentPathsOverlap.
unfoldable pub overlap_loop : List Segment → List Segment → Bool
overlap_loop [] right = true
overlap_loop (s ∷ left) [] = true
overlap_loop (tail v ∷ left) (t ∷ right) = true
overlap_loop (literal v ∷ left) (tail w ∷ right) = true
overlap_loop (param v ∷ left) (tail w ∷ right) = true
overlap_loop (literal v ∷ left) (literal w ∷ right) =
    let rest = overlap_loop left right in if text_eq v w then rest else false
overlap_loop (literal v ∷ left) (param w ∷ right) = overlap_loop left right
overlap_loop (param v ∷ left) (literal w ∷ right) = overlap_loop left right
overlap_loop (param v ∷ left) (param w ∷ right) = overlap_loop left right

unfoldable pub overlap_segments : List Segment → List Segment → Bool
overlap_segments left right =
    if (not (ends_in_tail left) && ltb (length left) (length right))
      || (not (ends_in_tail right) && ltb (length right) (length left))
    then false
    else overlap_loop left right

-- DocumentPathsOverlap; its errors are none.
unfoldable pub document_paths_overlap : Text → Text → Option Bool
document_paths_overlap a b = elim (parse_document_path a) [
  | none ↦ none
  | some left ↦ elim (parse_document_path b) [
    | none ↦ none
    | some right ↦ some (overlap_segments left right)
  ]
]
