-- ===== src/Bus/Subject/Grammar.antt =====
-- The accepted texts, as a grammar: what ParseSubject and ParsePattern let through.
use bytedesk_sdk_dependencie.Prelude.{
  sym, ap, ◌∙◌, subst, heads_eq, join, join-split, split, split-ne-nil, is_empty, is_empty_iff, ℕ,
  ◌≤◌, ◌≡◌, refl, ◌≢◌, ◌↔◌, ◌⊎◌, inl, inr, Bool, true, false, none, List, [], ◌∷◌, false≢true, All,
  length, Text, text_eq, text_eq_iff, text_eq_refl, Text-cases, arith, any,
}
use bytedesk_sdk_dependencie.Bus.Subject.{
  gt, star, is_wildcard, has_wildcard, tokens, max_len, max_tokens, opens_substrate,
  is_lower_or_digit, later_bytes_ok, token_ok, token, parse_token, parse_tokens, parse,
  parse_subject, parse_pattern,
}

-- [a-z0-9]
abbrev IsLowerOrDigit : ℕ → Type 0
IsLowerOrDigit c = ((b'a' ≤ c) × (c ≤ b'z')) ⊎ ((b'0' ≤ c) × (c ≤ b'9'))

-- [a-z0-9_-]
abbrev IsLater : ℕ → Type 0
IsLater c = IsLowerOrDigit c ⊎ ((c ≡ b'_') ⊎ (c ≡ b'-'))

-- [a-z0-9][a-z0-9_-]*
abbrev pub IsToken : Text → Type 0
IsToken [] = ⊥
IsToken (c ∷ t) = IsLowerOrDigit c × All IsLater t

-- One token of a pattern other than a final ">". In a namespace of the substrate any word will do.
abbrev pub IsPart : Bool → Text → Type 0
IsPart true t = (t ≢ []) × (t ≢ gt)
IsPart false t = (t ≡ star) ⊎ IsToken t

-- The loop's own shape: ">" stands last or nowhere, and by itself too.
data Parts (substrate : Bool) : List Text → Type 0 where
  no_parts : Parts substrate []
  tail : {t : Text} → t ≡ gt → Parts substrate (t ∷ [])
  part :
      {t : Text} {ts : List Text}
      → IsPart substrate t
      → Parts substrate ts
      → Parts substrate (t ∷ ts)

-- The tokens of a pattern as they are documented: ptoken { "." ptoken } [ "." ">" ].
pub data IsWord (substrate : Bool) : List Text → Type 0 where
  single : {t : Text} → IsPart substrate t → IsWord substrate (t ∷ [])
  with_tail : {t u : Text} → IsPart substrate t → u ≡ gt → IsWord substrate (t ∷ u ∷ [])
  more :
      {t : Text} {ts : List Text}
      → IsPart substrate t
      → IsWord substrate ts
      → IsWord substrate (t ∷ ts)

pub record IsPattern (s : Text) : Type 0 where
  pub short : length s ≤ max_len
  pub few_tokens : length (tokens s) ≤ max_tokens
  pub word_eq : IsWord (opens_substrate (tokens s)) (tokens s)

is_lower_or_digit_iff : (c : ℕ) → (is_lower_or_digit c ≡ true) ↔ IsLowerOrDigit c
unfolding is_lower_or_digit
is_lower_or_digit_iff c = ground arith

later_bytes_ok_iff : (t : Text) → (later_bytes_ok t ≡ true) ↔ All IsLater t
unfolding later_bytes_ok is_lower_or_digit
later_bytes_ok_iff [] = (λ h. tt, λ h. refl)
later_bytes_ok_iff (c ∷ t) =
    let (f, g) = later_bytes_ok_iff t in
    (λ h. (ground arith, f (ground arith)), λ h. let k = g h.1 in let b = h.0 in ground arith)

token_ok_iff : (c : ℕ) (t : Text) → (token_ok (c ∷ t) ≡ true) ↔ IsToken (c ∷ t)
unfolding token_ok
token_ok_iff c t =
    let (f, g) = later_bytes_ok_iff t in
    (
      λ h. ((is_lower_or_digit_iff c).0 (ground arith), f (ground arith)),
      λ h. rw ((is_lower_or_digit_iff c).1 h.0) (g h.1),
    )

-- A token that is no wildcard, under the grammar of plain names.
token_iff : (t : Text) → t ≢ [] → (token t ≡ none) ↔ IsToken t
unfolding token
token_iff [] n = absurd (n refl)
token_iff (c ∷ t) n = let (f, g) = token_ok_iff c t in (λ h. f (ground arith), λ h. rw (g h))

-- ">" stands only where it may, and any other part has to be one.
parse_token-gt : (substrate last : Bool) → parse_token true substrate last gt ≡ none → last ≡ true
unfolding parse_token
parse_token-gt substrate last h = ground (arith, text_eq_refl gt)

parse_token-IsPart :
    (substrate last : Bool) (t : Text)
    → text_eq t gt ≡ false
    → parse_token true substrate last t ≡ none
    → IsPart substrate t
unfolding parse_token
parse_token-IsPart true last t n h =
    (ground (arith, is_empty_iff t), ground (arith, text_eq_iff t gt))
parse_token-IsPart false last t n h = elim (Text-cases t star) [
  | inl e ↦ inl e
  | inr m ↦ inr ((token_iff t (ground (arith, is_empty_iff t))).0 (ground (arith, is_empty_iff t)))
]

IsToken-ne-gt : (t : Text) → IsToken t → text_eq t gt ≡ false
unfolding text_eq
IsToken-ne-gt [] h = absurd h
IsToken-ne-gt (c ∷ t) h = let b = h.0 in ground arith

IsPart-parse_token :
    (substrate last : Bool) (t : Text)
    → IsPart substrate t
    → parse_token true substrate last t ≡ none
unfolding parse_token
IsPart-parse_token true last t h = ground (arith, is_empty_iff t, text_eq_iff t gt, h.0, h.1)
IsPart-parse_token false last t (inl e) = rw e (unfold text_eq in refl)
IsPart-parse_token false last [] (inr h) = absurd h
IsPart-parse_token false last (c ∷ t) (inr h) =
    let k = (token_iff (c ∷ t) (λ e. cc)).1 h in ground (arith, IsToken-ne-gt (c ∷ t) h)

gt-Parts :
    (substrate : Bool) (t : Text) (ts : List Text)
    → t ≡ gt
    → parse_token true substrate (is_empty ts) t ≡ none
    → Parts substrate (t ∷ ts)
gt-Parts substrate t [] e h = tail e
gt-Parts substrate t (u ∷ ts) e h = absurd (false≢true (parse_token-gt substrate false (rw e at h)))

parse_tokens-Parts :
    (substrate : Bool) (ts : List Text) → parse_tokens true substrate ts ≡ none → Parts substrate ts
unfolding parse_tokens
parse_tokens-Parts substrate [] h = no_parts
parse_tokens-Parts substrate (t ∷ ts) h =
    let head : parse_token true substrate (is_empty ts) t ≡ none = ground arith in
    let rest : parse_tokens true substrate ts ≡ none = ground arith in
    elim (Text-cases t gt) [
      | inl e ↦ gt-Parts substrate t ts e head
      | inr n ↦
          part (parse_token-IsPart substrate (is_empty ts) t n head)
            (parse_tokens-Parts substrate ts rest)
    ]

Parts-parse_tokens :
    {substrate : Bool} {ts : List Text} → Parts substrate ts → parse_tokens true substrate ts ≡ none
unfolding parse_tokens
Parts-parse_tokens no_parts = refl
Parts-parse_tokens (tail {t} e) = rw e (unfold parse_token text_eq in refl)
Parts-parse_tokens {substrate} (part {t} {ts} h d) =
    let head = IsPart-parse_token substrate (is_empty ts) t h in
    let rest = Parts-parse_tokens d in ground arith

parse_pattern-Parts :
    (s : Text)
    → (parse_pattern s ≡ none) ↔ (
        (s ≢ [])
        × ((length s ≤ max_len)
            × ((length (tokens s) ≤ max_tokens) × Parts (opens_substrate (tokens s)) (tokens s))))
unfolding parse_pattern parse
parse_pattern-Parts s = (
  λ h. (
    ground (arith, is_empty_iff s),
    (
      ground arith,
      (ground arith, parse_tokens-Parts (opens_substrate (tokens s)) (tokens s) (ground arith)),
    ),
  ),
  λ (full, (short, (few, d))).
      let k = Parts-parse_tokens d in ground (arith, is_empty_iff s, full, short, few),
)

star-ne-gt : star ≢ gt
star-ne-gt e = cc

-- The empty text is no part.
empty_part : (substrate : Bool) → IsPart substrate [] → ⊥
empty_part true h = h.0 refl
empty_part false (inl e) = absurd (ground arith)
empty_part false (inr h) = h

no_empty_word_lem : (substrate : Bool) (ts : List Text) → IsWord substrate ts → ts ≡ [] ∷ [] → ⊥
no_empty_word_lem substrate _ (single {t} h) e =
    empty_part substrate (subst (IsPart substrate) (heads_eq t [] [] [] e).0 h)
no_empty_word_lem substrate _ (with_tail {t} {u} h g) e = cc
no_empty_word_lem substrate _ (more {t} {ts} h w) e =
    empty_part substrate (subst (IsPart substrate) (heads_eq t [] ts [] e).0 h)

no_empty_word : (substrate : Bool) → IsWord substrate ([] ∷ []) → ⊥
no_empty_word substrate w = no_empty_word_lem substrate ([] ∷ []) w refl

IsPart-ne-gt : (substrate : Bool) (t : Text) → IsPart substrate t → t ≢ gt
IsPart-ne-gt true t h = h.1
IsPart-ne-gt false t (inl e) = λ g. star-ne-gt (sym e ∙ g)
IsPart-ne-gt false t (inr h) = λ g. false≢true (sym (IsToken-ne-gt t h) ∙ (text_eq_iff t gt).1 g)

Parts-IsWord :
    {substrate : Bool} {ts : List Text}
    → Parts substrate ts
    → ts ≢ []
    → ts ≢ gt ∷ []
    → IsWord substrate ts
Parts-IsWord no_parts n g = absurd (n refl)
Parts-IsWord (tail e) n g = absurd (g (ap (λ k. k ∷ []) e))
Parts-IsWord (part h no_parts) n g = single h
Parts-IsWord (part h (tail e)) n g = with_tail h e
Parts-IsWord {substrate} (part h (part {t} {ts} k d)) n g =
    more h (
      Parts-IsWord (part k d) (λ e. cc) (λ e. IsPart-ne-gt substrate t k (heads_eq t gt ts [] e).0))

IsWord-Parts : {substrate : Bool} {ts : List Text} → IsWord substrate ts → Parts substrate ts
IsWord-Parts (single h) = part h no_parts
IsWord-Parts (with_tail h e) = part h (tail e)
IsWord-Parts (more h w) = part h (IsWord-Parts w)

tokens-gt : (s : Text) → tokens s ≡ gt ∷ [] → s ≡ gt
unfolding tokens
tokens-gt s e = sym (join-split b'.' s) ∙ (ap (join b'.') e ∙ unfold join in refl)

tokens-ne-nil : (s : Text) → tokens s ≢ []
unfolding tokens
tokens-ne-nil s = split-ne-nil b'.' s

IsWord-full : (substrate : Bool) (s : Text) → IsWord substrate (tokens s) → s ≢ []
unfolding tokens split
IsWord-full substrate s w e = no_empty_word substrate (subst (λ k. IsWord substrate (tokens k)) e w)

-- Of any text but ">" alone: ParsePattern accepts it exactly when the documented grammar has it. It has
-- at most 255 bytes and at most 16 tokens, one token at least before a final ">", no ">" elsewhere,
-- and "*" or [a-z0-9][a-z0-9_-]* for every other token, or any nonempty text where the first token
-- is reserved to the substrate.
pub parse_pattern_iff : (s : Text) → s ≢ gt → (parse_pattern s ≡ none) ↔ IsPattern s
parse_pattern_iff s apart = (
  λ h.
      let (_, (short, (few, d))) = (parse_pattern-Parts s).0 h in
      record {
        short = short;
        few_tokens = few;
        word_eq = Parts-IsWord d (tokens-ne-nil s) (λ e. apart (tokens-gt s e));
      },
  λ p. (parse_pattern-Parts s).1 (
    IsWord-full (opens_substrate (tokens s)) s p.word_eq,
    (p.short, (p.few_tokens, IsWord-Parts p.word_eq)),
  ),
)

parse_token-concrete :
    (substrate last : Bool) (t : Text)
    → (parse_token false substrate last t ≡ none)
      ↔ ((parse_token true substrate last t ≡ none) × (is_wildcard t ≡ false))
unfolding parse_token
parse_token-concrete substrate last t = ground arith

parse_tokens-concrete :
    (substrate : Bool) (ts : List Text)
    → (parse_tokens false substrate ts ≡ none)
      ↔ ((parse_tokens true substrate ts ≡ none) × (any is_wildcard ts ≡ false))
unfolding parse_tokens any
parse_tokens-concrete substrate [] = (λ h. (refl, refl), λ h. refl)
parse_tokens-concrete substrate (t ∷ ts) =
    ground
      (arith, parse_token-concrete substrate (is_empty ts) t, parse_tokens-concrete substrate ts)

-- A text is a subject exactly when it is a pattern that holds no wildcard token.
pub parse_subject_iff :
    (s : Text) → (parse_subject s ≡ none) ↔ ((parse_pattern s ≡ none) × (has_wildcard s ≡ false))
unfolding parse_subject parse_pattern parse has_wildcard
parse_subject_iff s = ground (arith, parse_tokens-concrete (opens_substrate (tokens s)) (tokens s))
