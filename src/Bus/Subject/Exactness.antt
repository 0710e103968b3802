-- ===== src/Bus/Subject/Exactness.antt =====
-- Covers is exact: where it answers false there is a concrete subject that tells the patterns apart.
use bytedesk_sdk_dependencie.Prelude.{
  ◌≡◌, refl, ◌↔◌, ◌||◌, true, false, List, [], ◌∷◌, All, Text, text_eq, text_eq_iff, Text-cases,
  text_eq_refl, inl, inr, arith, if◌then◌else◌, Bool-cases, Lacks, split, join, split-join,
  split-Lacks, split-ne-nil, subst,
}
use bytedesk_sdk_dependencie.Bus.Subject.{
  gt, star, has_wildcard, match_tokens, matches, tokens, covers, cover_tokens,
}
use bytedesk_sdk_dependencie.Bus.Subject.Containment.{covers_sound}
use bytedesk_sdk_dependencie.Bus.Subject.Samples.{
  IsConcrete, letter_a, letter_b, letter_a-IsConcrete, letter_b-IsConcrete, sample_token,
  sample_token-IsConcrete, sample, sample-IsConcrete, match_tokens-sample, match_tokens-nil,
  any_wildcard-IsConcrete, All-Lacks,
}

-- A concrete token that differs from `t`.
other : Text → Text
other t = if text_eq t letter_a then letter_b else letter_a

other-IsConcrete : (t : Text) → IsConcrete (other t)
unfolding other
other-IsConcrete t = elim (Bool-cases (text_eq t letter_a)) [
  | inl e ↦ rw e letter_b-IsConcrete
  | inr e ↦ rw e letter_a-IsConcrete
]

other_differs : (t : Text) → text_eq t (other t) ≡ false
unfolding other text_eq
other_differs [] = refl
other_differs (c ∷ []) = ground arith
other_differs (c ∷ d ∷ t) = ground arith

abbrev Contained : List Text → List Text → Type 0
Contained pt qt =
    (st : List Text) → All IsConcrete st → match_tokens qt st ≡ true → match_tokens pt st ≡ true

-- One step down both patterns, along a token `x` that both heads address.
Contained-tails :
    (t u x : Text) (pt qt : List Text)
    → IsConcrete x
    → ((st : List Text) → match_tokens (u ∷ qt) (x ∷ st) ≡ match_tokens qt st)
    → ((st : List Text) → match_tokens (t ∷ pt) (x ∷ st) ≡ match_tokens pt st)
    → Contained (t ∷ pt) (u ∷ qt)
    → Contained pt qt
Contained-tails t u x pt qt cx eu et h st c k = rw (← et st) (h (x ∷ st) (cx, c) (rw (eu st) k))

-- Only ">" addresses both one token and two.
not-Contained-gt :
    (t : Text) (pt qt : List Text) → text_eq t gt ≡ false → ¬ Contained (t ∷ pt) (gt ∷ qt)
unfolding match_tokens
not-Contained-gt t [] qt n h = ground (
  arith,
  text_eq_refl gt,
  h (letter_a ∷ letter_a ∷ []) (letter_a-IsConcrete, (letter_a-IsConcrete, tt)),
)
not-Contained-gt t (p ∷ pt) qt n h =
    ground (arith, text_eq_refl gt, h (letter_a ∷ []) (letter_a-IsConcrete, tt))

-- A token that `u` addresses and the literal `t` does not.
apart_token : Text → Text → Text
apart_token t u = if text_eq u star then other t else u

apart_token-IsConcrete :
    (t u : Text) → text_eq u gt ≡ false → Lacks b'.' u → IsConcrete (apart_token t u)
unfolding apart_token
apart_token-IsConcrete t u g l = elim (Bool-cases (text_eq u star)) [
  | inl e ↦ rw e (other-IsConcrete t)
  | inr e ↦ rw e (record { plain = ground arith; one_token = l })
]

not-Contained-literal :
    (t u : Text) (pt qt : List Text)
    → text_eq t gt ≡ false
    → text_eq u gt ≡ false
    → text_eq t star ≡ false
    → text_eq t u ≡ false
    → All (Lacks b'.') (u ∷ qt)
    → ¬ Contained (t ∷ pt) (u ∷ qt)
unfolding match_tokens apart_token
not-Contained-literal t u pt qt tg ug ts tu l h = ground (
  arith,
  h (apart_token t u ∷ sample qt) (apart_token-IsConcrete t u ug l.0, sample-IsConcrete qt l.1),
  match_tokens-sample qt,
  other_differs t,
  text_eq_refl u,
)

-- The two heads decide, or both address the sample token and the tails decide.
cover_heads :
    (t u : Text) (pt qt : List Text)
    → All (Lacks b'.') (u ∷ qt)
    → Contained (t ∷ pt) (u ∷ qt)
    → (((st : List Text) → match_tokens (u ∷ qt) (sample_token u ∷ st) ≡ match_tokens qt st)
        → ((st : List Text) → match_tokens (t ∷ pt) (sample_token u ∷ st) ≡ match_tokens pt st)
        → cover_tokens pt qt ≡ true)
    → cover_tokens (t ∷ pt) (u ∷ qt) ≡ true
unfolding cover_tokens match_tokens sample_token
cover_heads t u pt qt l h tails = elim (Bool-cases (text_eq t gt)) [
  | inl e ↦ rw e refl
  | inr tg ↦ elim (Text-cases u gt) [
    | inl e ↦ absurd (not-Contained-gt t pt qt tg (subst (λ v. Contained (t ∷ pt) (v ∷ qt)) e h))
    | inr ug ↦ elim (Bool-cases (text_eq t star || text_eq t u)) [
      | inl same ↦
          let rest : cover_tokens pt qt ≡ true =
            tails (λ st. ground (arith, text_eq_refl u)) (λ st. ground (arith, text_eq_iff t u)) in
          ground arith
      | inr apart ↦ absurd (not-Contained-literal t u pt qt tg ug (ground arith) (ground arith) l h)
    ]
  ]
]

cover_tokens_complete :
    (pt qt : List Text) → All (Lacks b'.') qt → Contained pt qt → cover_tokens pt qt ≡ true
unfolding cover_tokens match_tokens sample sample_token
cover_tokens_complete [] [] l h = refl
cover_tokens_complete [] (u ∷ qt) l h =
    cc (h (sample (u ∷ qt)) (sample-IsConcrete (u ∷ qt) l) (match_tokens-sample (u ∷ qt)))
cover_tokens_complete (t ∷ pt) [] l h = h [] tt refl
cover_tokens_complete (t ∷ pt) (u ∷ qt) l h = cover_heads t u pt qt l h (λ eu et.
    cover_tokens_complete pt qt l.1
      (Contained-tails t u (sample_token u) pt qt (sample_token-IsConcrete u l.0) eu et h))

-- Containment of texts gives containment of their tokens.
Contained-tokens :
    (p q : Text)
    → ((s : Text) → has_wildcard s ≡ false → matches q s ≡ true → matches p s ≡ true)
    → Contained (tokens p) (tokens q)
unfolding matches tokens has_wildcard
Contained-tokens p q h [] c k = cc (match_tokens-nil (tokens q) (split-ne-nil b'.' q))
Contained-tokens p q h (t ∷ st) c k =
    let e : split b'.' (join b'.' (t ∷ st)) ≡ t ∷ st =
      split-join b'.' t st (All-Lacks (t ∷ st) c) in
    rw (← e) (h (join b'.' (t ∷ st)) (rw e (any_wildcard-IsConcrete (t ∷ st) c)) (rw e k))

-- p.Covers(q) exactly when p matches every wildcard-free subject that q matches: the containment
-- is as wide as it can be, and never wider.
pub covers_iff :
    (p q : Text)
    → (covers p q ≡ true)
      ↔ ((s : Text) → has_wildcard s ≡ false → matches q s ≡ true → matches p s ≡ true)
unfolding covers tokens
covers_iff p q = (
  λ h s c k. covers_sound p q s h k,
  λ h. cover_tokens_complete (tokens p) (tokens q) (split-Lacks b'.' q) (Contained-tokens p q h),
)
