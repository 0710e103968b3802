-- ===== src/Plugin/DocumentPaths/Tidy.antt =====
-- A catch-all stands at the end of a parsed pattern only.
use bytedesk_sdk_dependencie.Prelude.{
  ◌≡◌, Bool, true, some, List, [], ◌∷◌, Text, arith, Option-cases, inl, inr, is_empty, subst, split,
}
use bytedesk_sdk_dependencie.Plugin.DocumentPaths.{
  Segment, literal, param, tail, parse_document_path, parse_parts, parse_part, noted,
}

unfoldable pub tidy : List Segment → Bool
tidy [] = true
tidy (tail v ∷ segments) = is_empty segments
tidy (literal v ∷ segments) = tidy segments
tidy (param v ∷ segments) = tidy segments

parse_part-tidy :
    (names : List Text) (last : Bool) (part : Text) (s : Segment) (segments : List Segment)
    → parse_part names last part ≡ some s
    → (last ≡ true → segments ≡ [])
    → tidy segments ≡ true
    → tidy (s ∷ segments) ≡ true
unfolding parse_part tidy
parse_part-tidy names last [] s segments h e t = absurd (ground arith)
parse_part-tidy names last (c ∷ name) (literal v) segments h e t = t
parse_part-tidy names last (c ∷ name) (param v) segments h e t = t
parse_part-tidy names last (c ∷ name) (tail v) segments h e t = ground arith

last_parts :
    (names parts : List Text) (segments : List Segment)
    → parse_parts names parts ≡ some segments
    → is_empty parts ≡ true
    → segments ≡ []
unfolding parse_parts
last_parts names [] segments h e = ground arith
last_parts names (p ∷ parts) segments h e = absurd (ground arith)

parse_parts-tidy :
    (names parts : List Text) (segments : List Segment)
    → parse_parts names parts ≡ some segments
    → tidy segments ≡ true
unfolding parse_parts
parse_parts-tidy names [] segments h = unfold tidy in ground arith
parse_parts-tidy names (part ∷ parts) segments h =
    elim (Option-cases (parse_part names (is_empty parts) part)) [
      | inl e ↦ absurd (ground arith)
      | inr (s, e) ↦ elim (Option-cases (parse_parts (noted s names) parts)) [
        | inl f ↦ absurd (ground arith)
        | inr (rest, f) ↦
            let whole : s ∷ rest ≡ segments = ground arith in
            subst (λ x. tidy x ≡ true) whole
              (parse_part-tidy names (is_empty parts) part s rest e
                (last_parts (noted s names) parts rest f)
                (parse_parts-tidy (noted s names) parts rest f))
      ]
    ]

-- What parses has its catch-all, if any, at the end.
pub parse_document_path-tidy :
    (a : Text) (segments : List Segment)
    → parse_document_path a ≡ some segments
    → tidy segments ≡ true
unfolding parse_document_path
parse_document_path-tidy [] segments h = absurd (ground arith)
parse_document_path-tidy (c ∷ rest) segments h =
    parse_parts-tidy [] (split b'/' rest) segments (ground arith)
