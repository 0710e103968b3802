-- ===== src/Plugin/DocumentPaths/Shared.antt =====
-- Two patterns that are reported to overlap have decoded parts in common.
use bytedesk_sdk_dependencie.Prelude.{
  ◌≡◌, ◌≤◌, refl, true, false, some, List, [], ◌∷◌, length, map, Text, text_eq_iff, text_eq_refl,
  insert, Dict, arith, bytes, subst,
}
use bytedesk_sdk_dependencie.Plugin.DocumentPaths.{
  Segment, literal, param, tail, ends_in_tail, match_segments, lengths_fit, overlap_loop,
  overlap_segments, document_paths_overlap, parse_document_path,
}
use bytedesk_sdk_dependencie.Plugin.DocumentPaths.Tidy.{tidy, parse_document_path-tidy}

unfoldable example_part : Segment → Text
example_part (literal v) = v
example_part (param v) = bytes "a"
example_part (tail v) = bytes "a"

abbrev Matches : List Segment → List Text → Type 0
Matches segments parts =
    (ps : Dict Text) → (qs : Dict Text) × (match_segments segments parts ps ≡ some qs)

match_segments_example : (segments : List Segment) → Matches segments (map example_part segments)
unfolding match_segments example_part
match_segments_example [] ps = (ps, refl)
match_segments_example (literal v ∷ segments) ps =
    let (qs, e) = match_segments_example segments ps in (qs, ground (arith, text_eq_refl v))
match_segments_example (param v ∷ segments) ps =
    match_segments_example segments (insert v (bytes "a") ps)
match_segments_example (tail v ∷ segments) ps = match_segments_example segments _

-- What the shared parts are for.
abbrev Shared : List Segment → List Segment → List Text → Type 0
Shared left right parts =
    Matches left parts
    × (Matches right parts
        × ((length left ≤ length parts)
            × ((length right ≤ length parts)
                × ((ends_in_tail left ≡ false → length parts ≡ length left)
                    × (ends_in_tail right ≡ false → length parts ≡ length right)))))

ends_in_tail-literal : (v : Text) (l : List Segment) → ends_in_tail (literal v ∷ l) ≡ ends_in_tail l
unfolding ends_in_tail
ends_in_tail-literal v [] = refl
ends_in_tail-literal v (s ∷ l) = refl

ends_in_tail-param : (v : Text) (l : List Segment) → ends_in_tail (param v ∷ l) ≡ ends_in_tail l
unfolding ends_in_tail
ends_in_tail-param v [] = refl
ends_in_tail-param v (s ∷ l) = refl

length-example_part : (l : List Segment) → length (map example_part l) ≡ length l
length-example_part [] = refl
length-example_part (s ∷ l) = omega (arith, length-example_part l)

-- One part that both first segments take, in front of what the rest share.
abbrev Takes : Segment → Text → Type 0
Takes s p =
    (l : List Segment) (parts : List Text)
    → (Matches l parts → Matches (s ∷ l) (p ∷ parts)) × (ends_in_tail (s ∷ l) ≡ ends_in_tail l)

literal-Takes : (v : Text) → Takes (literal v) v
unfolding match_segments
literal-Takes v l parts =
    (λ m ps. (let (qs, e) = m ps in (qs, ground (arith, text_eq_refl v))), ends_in_tail-literal v l)

param-Takes : (v p : Text) → Takes (param v) p
unfolding match_segments
param-Takes v p l parts = (λ m ps. m (insert v p ps), ends_in_tail-param v l)

Shared-cons :
    (s t : Segment) (p : Text) (left right : List Segment) (parts : List Text)
    → Takes s p
    → Takes t p
    → Shared left right parts
    → Shared (s ∷ left) (t ∷ right) (p ∷ parts)
Shared-cons s t p left right parts a b (m, (n, (u, (v, (x, y))))) =
    let (a', e) = a left parts in
    let (b', f) = b right parts in
    (a' m, (b' n, (omega arith, (omega arith, (λ g. ground (arith, x), λ g. ground (arith, y))))))

tail-Matches : (v p : Text) (parts : List Text) → Matches (tail v ∷ []) (p ∷ parts)
unfolding match_segments
tail-Matches v p parts ps = (_, refl)

-- A catch-all takes whatever the other pattern takes.
tail-Shared :
    (v : Text) (t : Segment) (right : List Segment)
    → Shared (tail v ∷ []) (t ∷ right) (map example_part (t ∷ right))
tail-Shared v t right = (
  tail-Matches v _ _,
  (
    match_segments_example (t ∷ right),
    (
      omega arith,
      (
        omega (arith, length-example_part right),
        (
          λ g. absurd (unfold ends_in_tail in ground arith),
          λ g. omega (arith, length-example_part right),
        ),
      ),
    ),
  ),
)

Shared-swap :
    (left right : List Segment) (parts : List Text)
    → Shared left right parts
    → Shared right left parts
Shared-swap left right parts (m, (n, (u, (v, (x, y))))) = (n, (m, (v, (u, (y, x)))))

common_parts :
    (left right : List Segment)
    → tidy left ≡ true
    → tidy right ≡ true
    → (ends_in_tail left ≡ false → length right ≤ length left)
    → (ends_in_tail right ≡ false → length left ≤ length right)
    → overlap_loop left right ≡ true
    → (parts : List Text) × Shared left right parts
unfolding overlap_loop tidy
common_parts [] [] a b x y o = (
  [],
  unfold match_segments in
      (λ ps. (ps, refl), (λ ps. (ps, refl), (omega arith, (omega arith, (λ g. refl, λ g. refl))))),
)
common_parts [] (t ∷ right) a b x y o = absurd (unfold ends_in_tail in ground arith)
common_parts (s ∷ left) [] a b x y o = absurd (unfold ends_in_tail in ground arith)
common_parts (tail v ∷ []) (t ∷ right) a b x y o = (_, tail-Shared v t right)
common_parts (tail v ∷ u ∷ left) (t ∷ right) a b x y o = absurd (ground arith)
common_parts (literal v ∷ left) (tail w ∷ []) a b x y o =
    (_, Shared-swap _ _ _ (tail-Shared w (literal v) left))
common_parts (param v ∷ left) (tail w ∷ []) a b x y o =
    (_, Shared-swap _ _ _ (tail-Shared w (param v) left))
common_parts (literal v ∷ left) (tail w ∷ u ∷ right) a b x y o = absurd (ground arith)
common_parts (param v ∷ left) (tail w ∷ u ∷ right) a b x y o = absurd (ground arith)
common_parts (literal v ∷ left) (literal w ∷ right) a b x y o =
    let (parts, s) =
      common_parts left right a b (λ g. ground (arith, x, ends_in_tail-literal v left))
        (λ g. ground (arith, y, ends_in_tail-literal w right)) (ground arith) in
    let same : v ≡ w = ground (arith, text_eq_iff v w) in
    (
      v ∷ parts,
      Shared-cons _ _ v left right parts (literal-Takes v)
          (subst (λ u. Takes (literal u) v) same (literal-Takes v)) s,
    )
common_parts (literal v ∷ left) (param w ∷ right) a b x y o =
    let (parts, s) =
      common_parts left right a b (λ g. ground (arith, x, ends_in_tail-literal v left))
        (λ g. ground (arith, y, ends_in_tail-param w right)) o in
    (v ∷ parts, Shared-cons _ _ v left right parts (literal-Takes v) (param-Takes w v) s)
common_parts (param v ∷ left) (literal w ∷ right) a b x y o =
    let (parts, s) =
      common_parts left right a b (λ g. ground (arith, x, ends_in_tail-param v left))
        (λ g. ground (arith, y, ends_in_tail-literal w right)) o in
    (w ∷ parts, Shared-cons _ _ w left right parts (param-Takes v w) (literal-Takes w) s)
common_parts (param v ∷ left) (param w ∷ right) a b x y o =
    let (parts, s) =
      common_parts left right a b (λ g. ground (arith, x, ends_in_tail-param v left))
        (λ g. ground (arith, y, ends_in_tail-param w right)) o in
    (
      bytes "a" ∷ parts,
      Shared-cons _ _ (bytes "a") left right parts (param-Takes v _) (param-Takes w _) s,
    )

overlap_segments_lem :
    (left right : List Segment)
    → overlap_segments left right ≡ true
    → (overlap_loop left right ≡ true)
      × ((ends_in_tail left ≡ false → length right ≤ length left)
          × (ends_in_tail right ≡ false → length left ≤ length right))
unfolding overlap_segments
overlap_segments_lem left right h = (ground arith, (λ g. ground arith, λ g. ground arith))

-- Decoded parts that the length test and the last loop of MatchDocumentPath accept.
unfoldable pub IsMatched : List Segment → List Text → Type 0
IsMatched segments parts =
    (lengths_fit segments parts ≡ true)
    × ((qs : Dict Text) × (match_segments segments parts [] ≡ some qs))

fit-Matches :
    (segments : List Segment) (parts : List Text)
    → Matches segments parts
    → length segments ≤ length parts
    → (ends_in_tail segments ≡ false → length parts ≡ length segments)
    → IsMatched segments parts
unfolding IsMatched lengths_fit
fit-Matches segments parts m u x = (ground (arith, x), m [])

-- The report of an overlap is never idle: there are decoded parts that match both patterns.
document_paths_overlap-IsMatched :
    (a b : Text) (left right : List Segment)
    → parse_document_path a ≡ some left
    → parse_document_path b ≡ some right
    → document_paths_overlap a b ≡ some true
    → (parts : List Text) × (IsMatched left parts × IsMatched right parts)
unfolding document_paths_overlap
document_paths_overlap-IsMatched a b left right p q h =
    let (o, (x, y)) = overlap_segments_lem left right (ground arith) in
    let (parts, (m, (n, (u, (v, (f, g)))))) =
      common_parts left right (parse_document_path-tidy a left p)
        (parse_document_path-tidy b right q) x y o in
    (parts, (fit-Matches left parts m u f, fit-Matches right parts n v g))
