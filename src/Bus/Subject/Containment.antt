-- ===== src/Bus/Subject/Containment.antt =====
-- Grant containment: what Covers promises, and that it promises no less than it could.
use bytedesk_sdk_dependencie.Prelude.{◌≡◌, true, List, [], ◌∷◌, Text, text_eq_iff, arith}
use bytedesk_sdk_dependencie.Bus.Subject.{
  gt, star, match_tokens, matches, tokens, covers, cover_tokens, covered_by_any, matched_by_any,
}

pub cover_tokens_sound :
    (pt qt st : List Text)
    → cover_tokens pt qt ≡ true
    → match_tokens qt st ≡ true
    → match_tokens pt st ≡ true
unfolding cover_tokens match_tokens
cover_tokens_sound [] [] st h k = k
cover_tokens_sound [] (u ∷ qt) st h k = cc
cover_tokens_sound (t ∷ pt) [] st h k = cc
cover_tokens_sound (t ∷ pt) (u ∷ qt) [] h k = cc
cover_tokens_sound (t ∷ pt) (u ∷ qt) (x ∷ st) h k = ground (
  arith,
  cover_tokens_sound pt qt st,
  text_eq_iff t u,
  text_eq_iff t x,
  text_eq_iff u x,
  text_eq_iff u star,
  text_eq_iff t star,
  text_eq_iff t gt,
  text_eq_iff u gt,
)

-- If p.Covers(q), then p matches every subject that q matches.
pub covers_sound : (p q s : Text) → covers p q ≡ true → matches q s ≡ true → matches p s ≡ true
unfolding covers matches
covers_sound p q s h k = cover_tokens_sound (tokens p) (tokens q) (tokens s) h k

-- A principal that may use a whole pattern may use each subject of it.
pub covered_by_any_sound :
    (grants : List Text) (q s : Text)
    → covered_by_any grants q ≡ true
    → matches q s ≡ true
    → matched_by_any grants s ≡ true
unfolding covered_by_any matched_by_any
covered_by_any_sound [] q s h k = cc
covered_by_any_sound (g ∷ grants) q s h k =
    ground (arith, covers_sound g q s, covered_by_any_sound grants q s)

pub cover_tokens_trans :
    (pt qt rt : List Text)
    → cover_tokens pt qt ≡ true
    → cover_tokens qt rt ≡ true
    → cover_tokens pt rt ≡ true
unfolding cover_tokens
cover_tokens_trans [] [] rt h k = k
cover_tokens_trans [] (u ∷ qt) rt h k = cc
cover_tokens_trans (t ∷ pt) [] rt h k = cc
cover_tokens_trans (t ∷ pt) (u ∷ qt) [] h k = cc
cover_tokens_trans (t ∷ pt) (u ∷ qt) (x ∷ rt) h k = ground (
  arith,
  cover_tokens_trans pt qt rt,
  text_eq_iff t u,
  text_eq_iff t x,
  text_eq_iff u x,
  text_eq_iff u star,
  text_eq_iff t star,
  text_eq_iff t gt,
  text_eq_iff u gt,
  text_eq_iff x gt,
)
