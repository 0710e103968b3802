-- ===== src/Manifest/Overlap.antt =====
-- patternsOverlap of v2/plugin/validate.go, and what it decides.
use bytedesk_sdk_dependencie.Prelude.{
  ◌≡◌, refl, ◌↔◌, ◌||◌, Bool, true, false, List, [], ◌∷◌, All, Text, text_eq, text_eq_iff,
  text_eq_refl, arith, if◌then◌else◌, Bool-cases, inl, inr, Lacks, split-Lacks, split-ne-nil,
}
use bytedesk_sdk_dependencie.Bus.Subject.{gt, star, has_wildcard, match_tokens, matches, tokens}
use bytedesk_sdk_dependencie.Bus.Subject.Samples.{
  IsConcrete, sample, sample_token, sample-IsConcrete, sample_token-IsConcrete, match_tokens-sample,
  match_tokens-nil, concrete_text,
}

-- The loop of patternsOverlap.
unfoldable pub overlap_tokens : List Text → List Text → Bool
overlap_tokens [] [] = true
overlap_tokens [] (y ∷ bt) = false
overlap_tokens (x ∷ at) [] = false
overlap_tokens (x ∷ at) (y ∷ bt) =
    let rest = overlap_tokens at bt in
    if text_eq x gt || text_eq y gt
    then true
    else if text_eq x star || text_eq y star
    then rest
    else if text_eq x y
    then rest
    else false

unfoldable pub patterns_overlap : Text → Text → Bool
patterns_overlap a b = overlap_tokens (tokens a) (tokens b)

overlap_tokens_complete :
    (at bt st : List Text)
    → match_tokens at st ≡ true
    → match_tokens bt st ≡ true
    → overlap_tokens at bt ≡ true
unfolding overlap_tokens match_tokens
overlap_tokens_complete [] [] st h k = refl
overlap_tokens_complete [] (y ∷ bt) [] h k = k
overlap_tokens_complete [] (y ∷ bt) (s ∷ st) h k = h
overlap_tokens_complete (x ∷ at) [] [] h k = h
overlap_tokens_complete (x ∷ at) [] (s ∷ st) h k = k
overlap_tokens_complete (x ∷ at) (y ∷ bt) [] h k = absurd (ground arith)
overlap_tokens_complete (x ∷ at) (y ∷ bt) (s ∷ st) h k =
    ground
      (arith, overlap_tokens_complete at bt st, text_eq_iff x s, text_eq_iff y s, text_eq_iff x y)

-- Tokens that both patterns address.
abbrev Common : List Text → List Text → Type 0
Common at bt =
    (st : List Text) × (All IsConcrete st
      × ((match_tokens at st ≡ true) × (match_tokens bt st ≡ true)))

match_tokens-gt :
    (t x : Text) (pt st : List Text) → text_eq t gt ≡ true → match_tokens (t ∷ pt) (x ∷ st) ≡ true
unfolding match_tokens
match_tokens-gt t x pt st e = ground arith

overlap_tokens-tail :
    (x y : Text) (at bt : List Text)
    → text_eq x gt ≡ false
    → text_eq y gt ≡ false
    → overlap_tokens (x ∷ at) (y ∷ bt) ≡ true
    → (overlap_tokens at bt ≡ true) × ((text_eq x star || (text_eq y star || text_eq x y)) ≡ true)
unfolding overlap_tokens
overlap_tokens-tail x y at bt e f h = ground arith

-- A token that two pattern tokens address, neither of them the tail.
common_token : Text → Text → Text
common_token x y = if text_eq x star then sample_token y else x

common_token-IsConcrete :
    (x y : Text)
    → Lacks b'.' x
    → Lacks b'.' y
    → text_eq x gt ≡ false
    → IsConcrete (common_token x y)
unfolding common_token
common_token-IsConcrete x y a b e = elim (Bool-cases (text_eq x star)) [
  | inl s ↦ rw s (sample_token-IsConcrete y b)
  | inr s ↦ rw s (record { plain = ground arith; one_token = a })
]

match_tokens-common_token :
    (x y : Text) (at bt st : List Text)
    → text_eq x gt ≡ false
    → text_eq y gt ≡ false
    → (text_eq x star || (text_eq y star || text_eq x y)) ≡ true
    → (match_tokens (x ∷ at) (common_token x y ∷ st) ≡ match_tokens at st)
      × (match_tokens (y ∷ bt) (common_token x y ∷ st) ≡ match_tokens bt st)
unfolding match_tokens common_token sample_token
match_tokens-common_token x y at bt st e f h =
    ground (arith, text_eq_refl x, text_eq_refl y, text_eq_iff x y)

Common-cons :
    (x y : Text) (at bt : List Text)
    → Lacks b'.' x
    → Lacks b'.' y
    → text_eq x gt ≡ false
    → text_eq y gt ≡ false
    → (text_eq x star || (text_eq y star || text_eq x y)) ≡ true
    → Common at bt
    → Common (x ∷ at) (y ∷ bt)
Common-cons x y at bt a b e f h (st, (c, (m, n))) =
    let (p, q) = match_tokens-common_token x y at bt st e f h in
    (common_token x y ∷ st, ((common_token-IsConcrete x y a b e, c), (rw p m, rw q n)))

overlap_tokens_sound :
    (at bt : List Text)
    → All (Lacks b'.') at
    → All (Lacks b'.') bt
    → overlap_tokens at bt ≡ true
    → Common at bt
overlap_tokens_sound [] [] a b h = unfold match_tokens in ([], (tt, (refl, refl)))
overlap_tokens_sound [] (y ∷ bt) a b h = absurd (unfold overlap_tokens in ground arith)
overlap_tokens_sound (x ∷ at) [] a b h = absurd (unfold overlap_tokens in ground arith)
overlap_tokens_sound (x ∷ at) (y ∷ bt) a b h = elim (Bool-cases (text_eq x gt)) [
  | inl e ↦ (
    sample (y ∷ bt),
    (
      sample-IsConcrete (y ∷ bt) b,
      (unfold sample in match_tokens-gt x _ at _ e, match_tokens-sample (y ∷ bt)),
    ),
  )
  | inr e ↦ elim (Bool-cases (text_eq y gt)) [
    | inl f ↦ (
      sample (x ∷ at),
      (
        sample-IsConcrete (x ∷ at) a,
        (match_tokens-sample (x ∷ at), unfold sample in match_tokens-gt y _ bt _ f),
      ),
    )
    | inr f ↦
        let (rest, heads) = overlap_tokens-tail x y at bt e f h in
        Common-cons x y at bt a.0 b.0 e f heads (overlap_tokens_sound at bt a.1 b.1 rest)
  ]
]

Common-subject :
    (a b : Text)
    → Common (tokens a) (tokens b)
    → (s : Text) × ((has_wildcard s ≡ false)
        × ((match_tokens (tokens a) (tokens s) ≡ true)
            × (match_tokens (tokens b) (tokens s) ≡ true)))
Common-subject a b ([], (c, (m, n))) =
    absurd (ground (arith, match_tokens-nil (tokens a) (unfold tokens in split-ne-nil b'.' a)))
Common-subject a b (t ∷ st, (c, (m, n))) =
    let (s, (e, plain)) = concrete_text t st c in (s, (plain, (rw e m, rw e n)))

-- Two patterns overlap exactly when there is a subject without wildcards that both match.
pub patterns_overlap_iff :
    (a b : Text)
    → (patterns_overlap a b ≡ true)
      ↔ ((s : Text) × ((has_wildcard s ≡ false) × ((matches a s ≡ true) × (matches b s ≡ true))))
unfolding patterns_overlap matches
patterns_overlap_iff a b = (
  λ h. Common-subject a b (
      overlap_tokens_sound (tokens a) (tokens b) (unfold tokens in split-Lacks b'.' a)
        (unfold tokens in split-Lacks b'.' b) h),
  λ (s, (c, (m, n))). overlap_tokens_complete (tokens a) (tokens b) (tokens s) m n,
)
