-- ===== src/Tests/Plugin.antt =====
-- plugin at concrete inputs.
use bytedesk_sdk_dependencie.Prelude.{
  List, ◌≡◌, refl, true, false, some, [], ◌∷◌, Text, bytes, insert, split, text_eq, contains_byte,
  join, Option, Bool,
}
use bytedesk_sdk_dependencie.Plugin.DocumentPaths.{
  Segment, literal, param, tail, match_document_path, document_paths_overlap, parse_document_path,
  parse_parts, parse_part, is_dots, all_bytes, name_ok, seen, noted, path_parts, decode_parts,
  decode_part, lengths_fit, ends_in_tail, match_segments, overlap_segments, overlap_loop,
}
use bytedesk_sdk_dependencie.Plugin.DocumentPaths.Overlap.{
  match_document_path-document_paths_overlap,
}
use bytedesk_sdk_dependencie.Plugin.ContributionRoles.{
  contribution_role_allowed, contribution_role_for, contribution_roles, find_role, eligible,
}

-- Paths without an escape, all of them ASCII without controls.
abbrev plain : Text → Option Text
plain t = some t

abbrev yes : Text → Bool
yes t = true

abbrev no : Text → Bool
no t = false

named_match :
    match_document_path plain yes no (bytes "/doc/:id") (bytes "/doc/x")
    ≡ some ((bytes "id", bytes "x") ∷ [])
unfolding match_document_path parse_document_path parse_parts parse_part is_dots all_bytes name_ok
    seen noted path_parts decode_parts decode_part lengths_fit ends_in_tail match_segments bytes
    split text_eq contains_byte insert
named_match = refl

tail_match :
    match_document_path plain yes no (bytes "/*rest") (bytes "/doc/x")
    ≡ some ((bytes "rest", bytes "doc/x") ∷ [])
unfolding match_document_path parse_document_path parse_parts parse_part is_dots all_bytes name_ok
    seen noted path_parts decode_parts decode_part lengths_fit ends_in_tail match_segments bytes
    split text_eq contains_byte insert join
tail_match = refl

meet : document_paths_overlap (bytes "/doc/:id") (bytes "/*rest") ≡ some true
unfolding document_paths_overlap parse_document_path parse_parts parse_part is_dots all_bytes
    name_ok seen noted ends_in_tail bytes split text_eq overlap_segments overlap_loop
meet = refl

apart : document_paths_overlap (bytes "/doc/:id") (bytes "/page/:id") ≡ some false
unfolding document_paths_overlap parse_document_path parse_parts parse_part is_dots all_bytes
    name_ok seen noted ends_in_tail bytes split text_eq overlap_segments overlap_loop
apart = refl

match_document_path-document_paths_overlap_example :
    document_paths_overlap (bytes "/doc/:id") (bytes "/*rest") ≡ some true
match_document_path-document_paths_overlap_example =
    match_document_path-document_paths_overlap plain yes no (bytes "/doc/:id") (bytes "/*rest")
      (bytes "/doc/x") ((bytes "id", bytes "x") ∷ []) ((bytes "rest", bytes "doc/x") ∷ [])
      named_match tail_match

abbrev doc_segments : List Segment
doc_segments = literal (bytes "doc") ∷ param (bytes "id") ∷ []

abbrev rest_segments : List Segment
rest_segments = tail (bytes "rest") ∷ []

parse_doc : parse_document_path (bytes "/doc/:id") ≡ some doc_segments
unfolding parse_document_path parse_parts parse_part is_dots all_bytes name_ok seen noted bytes
    split text_eq
parse_doc = refl

parse_rest : parse_document_path (bytes "/*rest") ≡ some rest_segments
unfolding parse_document_path parse_parts parse_part is_dots all_bytes name_ok seen noted bytes
    split text_eq
parse_rest = refl

settings_free : contribution_role_allowed (bytes "settings") false false ≡ true
unfolding contribution_role_allowed contribution_role_for contribution_roles find_role eligible
    bytes text_eq
settings_free = refl
