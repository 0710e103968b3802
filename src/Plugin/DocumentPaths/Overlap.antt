-- ===== src/Plugin/DocumentPaths/Overlap.antt =====
-- Two patterns that match one pathname overlap.
use bytedesk_sdk_dependencie.Prelude.{
  ℕ, ◌≡◌, refl, Bool, true, Option, some, List, [], ◌∷◌, Text, text_eq_iff, split, insert, Dict,
  arith, Option-cases, inl, inr,
}
use bytedesk_sdk_dependencie.Plugin.DocumentPaths.{
  Segment, literal, param, tail, match_segments, lengths_fit, decode_parts, path_parts,
  match_document_path, overlap_loop, overlap_segments, document_paths_overlap, parse_document_path,
}

match_segments-overlap_loop :
    (left right : List Segment) (parts : List Text) (ps qs ps' qs' : Dict Text)
    → match_segments left parts ps ≡ some ps'
    → match_segments right parts qs ≡ some qs'
    → overlap_loop left right ≡ true
unfolding match_segments overlap_loop
match_segments-overlap_loop [] right parts ps qs ps' qs' h k = refl
match_segments-overlap_loop (s ∷ left) [] parts ps qs ps' qs' h k = refl
match_segments-overlap_loop (tail v ∷ left) (t ∷ right) parts ps qs ps' qs' h k = refl
match_segments-overlap_loop (literal v ∷ left) (tail w ∷ right) parts ps qs ps' qs' h k = refl
match_segments-overlap_loop (param v ∷ left) (tail w ∷ right) parts ps qs ps' qs' h k = refl
match_segments-overlap_loop (literal v ∷ left) (t ∷ right) [] ps qs ps' qs' h k =
    absurd (ground arith)
match_segments-overlap_loop (param v ∷ left) (t ∷ right) [] ps qs ps' qs' h k =
    absurd (ground arith)
match_segments-overlap_loop (literal v ∷ left) (literal w ∷ right) (p ∷ parts) ps qs ps' qs' h k =
    ground (
      arith,
      text_eq_iff v p,
      text_eq_iff w p,
      text_eq_iff v w,
      match_segments-overlap_loop left right parts ps qs ps' qs',
    )
match_segments-overlap_loop (literal v ∷ left) (param w ∷ right) (p ∷ parts) ps qs ps' qs' h k =
    ground (arith, match_segments-overlap_loop left right parts ps (insert w p qs) ps' qs')
match_segments-overlap_loop (param v ∷ left) (literal w ∷ right) (p ∷ parts) ps qs ps' qs' h k =
    ground (arith, match_segments-overlap_loop left right parts (insert v p ps) qs ps' qs')
match_segments-overlap_loop (param v ∷ left) (param w ∷ right) (p ∷ parts) ps qs ps' qs' h k =
    match_segments-overlap_loop left right parts (insert v p ps) (insert w p qs) ps' qs' h k

lengths_fit-overlap_segments :
    (left right : List Segment) (raw : List Text)
    → lengths_fit left raw ≡ true
    → lengths_fit right raw ≡ true
    → overlap_loop left right ≡ true
    → overlap_segments left right ≡ true
unfolding lengths_fit overlap_segments
lengths_fit-overlap_segments left right raw h k o = ground arith

module _ (unescape : Text → Option Text) (valid_string has_control : Text → Bool) where
  path_parts_fit :
      (segments : List Segment) (c : ℕ) (rest : Text) (parts : List Text)
      → path_parts unescape valid_string has_control segments (c ∷ rest) ≡ some parts
      → (lengths_fit segments (split b'/' rest) ≡ true)
        × (decode_parts unescape valid_string has_control (split b'/' rest) ≡ some parts)
  unfolding path_parts
  path_parts_fit segments c rest parts h = ground arith

  -- What a match has parsed and decoded.
  match_document_path_steps :
      (pattern path : Text) (ps : Dict Text)
      → match_document_path unescape valid_string has_control pattern path ≡ some ps
      → (segments : List Segment) × ((parts : List Text) × ((parse_document_path pattern
              ≡ some segments)
            × ((path_parts unescape valid_string has_control segments path ≡ some parts)
                × (match_segments segments parts [] ≡ some ps))))
  unfolding match_document_path
  match_document_path_steps pattern path ps h = elim (Option-cases (parse_document_path pattern)) [
    | inl e ↦ absurd (ground arith)
    | inr (segments, e) ↦
        elim (Option-cases (path_parts unescape valid_string has_control segments path)) [
          | inl f ↦ absurd (ground arith)
          | inr (parts, f) ↦ (segments, (parts, (e, (f, ground arith))))
        ]
  ]

  -- Two patterns that match the same pathname are reported to overlap: the answer is never a false
  -- claim of safety.
  pub match_document_path-document_paths_overlap :
      (a b path : Text) (ps qs : Dict Text)
      → match_document_path unescape valid_string has_control a path ≡ some ps
      → match_document_path unescape valid_string has_control b path ≡ some qs
      → document_paths_overlap a b ≡ some true
  unfolding document_paths_overlap
  match_document_path-document_paths_overlap a b [] ps qs h k =
      let (left, (parts, (e, (f, m)))) = match_document_path_steps a [] ps h in
      absurd (unfold path_parts in ground arith)
  match_document_path-document_paths_overlap a b (c ∷ rest) ps qs h k =
      let (left, (parts, (e, (f, m)))) = match_document_path_steps a (c ∷ rest) ps h in
      let (right, (parts', (e', (f', m')))) = match_document_path_steps b (c ∷ rest) qs k in
      let (fit, d) = path_parts_fit left c rest parts f in
      let (fit', d') = path_parts_fit right c rest parts' f' in
      let loop : overlap_loop left right ≡ true =
        match_segments-overlap_loop left right parts [] [] ps qs m (ground arith) in
      ground (arith, lengths_fit-overlap_segments left right (split b'/' rest) fit fit' loop)
