-- ===== src/Tests/Bus.antt =====
-- v2/bus at concrete inputs.
use bytedesk_sdk_dependencie.Prelude.{
  ◌≢◌, ◌≡◌, refl, ◌↔◌, true, false, none, some, [], ◌∷◌, Text, bytes, text_eq, split, has_prefix,
  format_uint, digits_loop,
}
use bytedesk_sdk_dependencie.Bus.Subject.{
  gt, tokens, has_wildcard, matches, match_tokens, covers, cover_tokens, is_reserved_token,
  parse_subject, parse_pattern, parse, parse_tokens, parse_token, token, token_ok, Refusal,
  covered_by_any,
}
use bytedesk_sdk_dependencie.Bus.Subject.Matching.{Addresses, matches_iff}
use bytedesk_sdk_dependencie.Bus.Subject.Exactness.{covers_iff}
use bytedesk_sdk_dependencie.Bus.Subject.Grammar.{IsPattern, parse_pattern_iff}
use bytedesk_sdk_dependencie.Bus.Identity.{Grants, GrantKind, list, can_pattern}

abbrev wide : Text
wide = bytes "a.>"

abbrev narrow : Text
narrow = bytes "a.*"

abbrev concrete : Text
concrete = bytes "a.b"

matches_tail : matches wide (bytes "a.b.c") ≡ true
unfolding matches match_tokens tokens split bytes text_eq
matches_tail = refl

matches_tail_none : matches wide (bytes "a") ≡ false
unfolding matches match_tokens tokens split bytes text_eq
matches_tail_none = refl

covers-narrow : covers narrow wide ≡ false
unfolding covers cover_tokens tokens split bytes text_eq
covers-narrow = refl

-- ">" alone is a pattern.
parse_tail_alone : parse_pattern (bytes ">") ≡ none
unfolding parse_pattern parse parse_tokens parse_token tokens split bytes text_eq is_reserved_token
    has_prefix
parse_tail_alone = refl

parse_upper : parse_subject (bytes "a.B") ≡ some (Refusal.bad_token (bytes "B"))
unfolding parse_subject parse parse_tokens parse_token token token_ok tokens split bytes text_eq
    is_reserved_token has_prefix
parse_upper = refl

matches_iff_example : (matches wide concrete ≡ true) ↔ Addresses (tokens wide) (tokens concrete)
matches_iff_example = matches_iff wide concrete

covers_iff_example :
    (covers wide narrow ≡ true)
    ↔ ((s : Text) → has_wildcard s ≡ false → matches narrow s ≡ true → matches wide s ≡ true)
covers_iff_example = covers_iff wide narrow

wide-ne-gt : wide ≢ gt
unfolding bytes
wide-ne-gt e = cc

parse_pattern_iff_example : (parse_pattern wide ≡ none) ↔ IsPattern wide
parse_pattern_iff_example = parse_pattern_iff wide wide-ne-gt

abbrev reader : Grants
reader = record {
  publish = [];
  subscribe = wide ∷ [];
  request = [];
  serves = [];
  streams = [];
  kv = [];
  objects = [];
}

reader_may : can_pattern reader GrantKind.subscribe narrow ≡ true
unfolding can_pattern list covered_by_any covers cover_tokens tokens split bytes text_eq
reader_may = refl

narrow-matches : matches narrow concrete ≡ true
unfolding matches match_tokens tokens split bytes text_eq
narrow-matches = refl

format_uint_digits : format_uint 1207 ≡ bytes "1207"
unfolding format_uint digits_loop bytes
format_uint_digits = refl
