-- ===== src/Bus/Subject/Matching.antt =====
-- What a pattern addresses, as a relation with no loop in it, and the matcher decides it.
use bytedesk_sdk_dependencie.Prelude.{
  ◌≡◌, refl, ◌↔◌, true, List, [], ◌∷◌, Text, text_eq_iff, Text-cases, inl, inr, arith,
}
use bytedesk_sdk_dependencie.Bus.Subject.{gt, star, match_tokens, matches, tokens}

-- ">" takes one or more tokens, "*" exactly one, any other token itself.
pub data Addresses : List Text → List Text → Type 0 where
  done : Addresses [] []
  tail :
      {t : Text} {pt : List Text} {x : Text} {st : List Text} → t ≡ gt → Addresses (t ∷ pt) (x ∷ st)
  any_one :
      {t : Text} {pt : List Text} {x : Text} {st : List Text}
      → t ≡ star
      → Addresses pt st
      → Addresses (t ∷ pt) (x ∷ st)
  same :
      {t : Text} {pt : List Text} {x : Text} {st : List Text}
      → t ≡ x
      → Addresses pt st
      → Addresses (t ∷ pt) (x ∷ st)

sound : (pt st : List Text) → match_tokens pt st ≡ true → Addresses pt st
unfolding match_tokens
sound [] [] h = done
sound [] (x ∷ st) h = cc
sound (t ∷ pt) [] h = cc
sound (t ∷ pt) (x ∷ st) h = elim (Text-cases t gt) [
  | inl e ↦ tail e
  | inr n ↦ elim (Text-cases t star) [
    | inl e ↦ any_one e (sound pt st (ground (arith, text_eq_iff t star)))
    | inr m ↦ same ((text_eq_iff t x).0 (ground arith)) (sound pt st (ground arith))
  ]
]

complete : {pt st : List Text} → Addresses pt st → match_tokens pt st ≡ true
unfolding match_tokens
complete done = refl
complete (tail {t} e) = ground (arith, text_eq_iff t gt)
complete (any_one {t} e d) = ground (arith, text_eq_iff t star, complete d)
complete (same {t} {x} e d) = ground (arith, text_eq_iff t x, complete d)

-- The matcher answers true exactly on the subjects that the pattern addresses.
pub match_tokens_iff : (pt st : List Text) → (match_tokens pt st ≡ true) ↔ Addresses pt st
match_tokens_iff pt st = (sound pt st, complete)

-- Pattern.Matches answers true exactly when the pattern's tokens address the subject's tokens,
-- where ">" takes one or more tokens, "*" exactly one, and any other token only itself.
pub matches_iff : (p s : Text) → (matches p s ≡ true) ↔ Addresses (tokens p) (tokens s)
unfolding matches
matches_iff p s = match_tokens_iff (tokens p) (tokens s)
