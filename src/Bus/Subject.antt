-- ===== src/Bus/Subject.antt =====
-- v2/bus/subject.go: the addressing grammar, the matcher, and grant containment.
pub mod Matching
pub mod Containment
pub mod Grammar
pub mod Samples
pub mod Exactness
use bytedesk_sdk_dependencie.Prelude.{
  ℕ, ◌==◌, ltb, leb, if◌then◌else◌, Bool, true, false, ◌&&◌, ◌||◌, Option, none, some, List, [],
  ◌∷◌, length, any, is_empty, Text, bytes, text_eq, has_prefix, split,
}

-- MaxTokens, MaxLen
abbrev pub max_tokens : ℕ
max_tokens = 16

abbrev pub max_len : ℕ
max_len = 255

abbrev pub gt : Text
gt = b'>' ∷ []

abbrev pub star : Text
star = b'*' ∷ []

-- Subject.Tokens, Pattern.Tokens
unfoldable pub tokens : Text → List Text
tokens s = split b'.' s

abbrev pub is_wildcard : Text → Bool
is_wildcard t = text_eq t star || text_eq t gt

-- Pattern.HasWildcard
unfoldable pub has_wildcard : Text → Bool
unfolding tokens any
has_wildcard p = any is_wildcard (tokens p)

unfoldable pub is_reserved_token : Text → Bool
unfolding has_prefix
is_reserved_token t = has_prefix t (b'$' ∷ []) || text_eq t (bytes "_INBOX")

-- The loop of Pattern.Matches. Where the subject has run out, both `i < len(st)` under ">" and
-- `i >= len(st)` answer false.
unfoldable pub match_tokens : List Text → List Text → Bool
match_tokens [] [] = true
match_tokens [] (x ∷ st) = false
match_tokens (t ∷ pt) [] = false
match_tokens (t ∷ pt) (x ∷ st) =
    let rest = match_tokens pt st in
    if text_eq t gt
    then true
    else if text_eq t star
    then rest
    else if text_eq t x
    then rest
    else false

-- Pattern.Matches
unfoldable pub matches : Text → Text → Bool
matches p s = match_tokens (tokens p) (tokens s)

-- The loop of Pattern.Covers.
unfoldable pub cover_tokens : List Text → List Text → Bool
cover_tokens [] [] = true
cover_tokens [] (u ∷ qt) = false
cover_tokens (t ∷ pt) [] = false
cover_tokens (t ∷ pt) (u ∷ qt) =
    let rest = cover_tokens pt qt in
    if text_eq t gt
    then true
    else if text_eq u gt
    then false
    else if text_eq t star
    then rest
    else if text_eq t u
    then rest
    else false

-- Pattern.Covers
unfoldable pub covers : Text → Text → Bool
covers p q = cover_tokens (tokens p) (tokens q)

unfoldable pub covered_by_any : List Text → Text → Bool
covered_by_any [] q = false
covered_by_any (g ∷ grants) q = if covers g q then true else covered_by_any grants q

unfoldable pub matched_by_any : List Text → Text → Bool
matched_by_any [] s = false
matched_by_any (g ∷ grants) s = if matches g s then true else matched_by_any grants s

-- The refusals of `parse`, one for each text that `fault` is given.
pub data Refusal : Type 0 where
  empty too_long too_many_tokens empty_token : Refusal
  tail_in_subject tail_not_last star_in_subject : Refusal
  bad_token : Text → Refusal

is_lower_or_digit : ℕ → Bool
is_lower_or_digit c = (leb b'a' c && leb c b'z') || (leb b'0' c && leb c b'9')

-- The loop of `token` after its first byte (i > 0).
later_bytes_ok : Text → Bool
unfolding is_lower_or_digit
later_bytes_ok [] = true
later_bytes_ok (c ∷ t) =
    let rest = later_bytes_ok t in
    if is_lower_or_digit c then rest else if c == b'_' || c == b'-' then rest else false

unfoldable pub token_ok : Text → Bool
unfolding later_bytes_ok is_lower_or_digit
token_ok [] = true
token_ok (c ∷ t) = if is_lower_or_digit c then later_bytes_ok t else false

unfoldable pub token : Text → Option Refusal
token t = if token_ok t then none else some (bad_token t)

-- The switch of `parse` on the token `t`; `last` says that i == len(toks) - 1.
unfoldable pub parse_token : Bool → Bool → Bool → Text → Option Refusal
parse_token wildcards substrate last t =
    if is_empty t
    then some empty_token
    else if text_eq t gt
    then (if wildcards then (if last then none else some tail_not_last) else some tail_in_subject)
    else if text_eq t star
    then (if wildcards then none else some star_in_subject)
    else if substrate
    then none
    else token t

-- The loop of `parse` over the tokens.
unfoldable pub parse_tokens : Bool → Bool → List Text → Option Refusal
unfolding parse_token
parse_tokens wildcards substrate [] = none
parse_tokens wildcards substrate (t ∷ toks) =
    let rest = parse_tokens wildcards substrate toks in
    elim (parse_token wildcards substrate (is_empty toks) t) [ none ↦ rest | some r ↦ some r ]

abbrev pub opens_substrate : List Text → Bool
opens_substrate [] = false
opens_substrate (t ∷ toks) = is_reserved_token t

-- `none` is Go's nil error.
unfoldable pub parse : Text → Bool → Option Refusal
unfolding parse_tokens tokens
parse s wildcards =
    if is_empty s
    then some empty
    else if ltb max_len (length s)
    then some too_long
    else let toks = tokens s in
      if ltb max_tokens (length toks)
      then some too_many_tokens
      else parse_tokens wildcards (opens_substrate toks) toks

-- ParseSubject and ParsePattern, as the error that they return.
unfoldable pub parse_subject : Text → Option Refusal
parse_subject s = parse s false

unfoldable pub parse_pattern : Text → Option Refusal
parse_pattern s = parse s true
