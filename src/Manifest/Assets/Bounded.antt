-- ===== src/Manifest/Assets/Bounded.antt =====
-- A manifest asks for no stream without limits.
use bytedesk_sdk_dependencie.Prelude.{
  ℕ, suc, ◌≡◌, refl, true, false, not, none, some, List, [], ◌∷◌, ◌++◌, is_empty, All, Text,
  text_eq, bytes, arith, Option-cases, Bool-cases, subst, inl, inr,
}
use bytedesk_sdk_dependencie.Prelude.Int.{is_pos}
use bytedesk_sdk_dependencie.Bus.Subject.{parse_pattern, Refusal}
use bytedesk_sdk_dependencie.Manifest.{
  Manifest, StreamDecl, finding, indexed, is_warning, first_error,
}
use bytedesk_sdk_dependencie.Manifest.Words.{trim_space, listed}
use bytedesk_sdk_dependencie.Manifest.Findings.{Clean, Clean-append, Clean-report, Clean-finding}
use bytedesk_sdk_dependencie.Manifest.Subjects.{report, refuse_reserved_tokens}
use bytedesk_sdk_dependencie.Manifest.Assets.{
  is_negative, check_stream_subjects, check_streams, check_buckets, check_objects, validate_assets,
}

code_2111 : is_warning (bytes "BDP2111") ≡ false
unfolding is_warning bytes text_eq
code_2111 = refl

code_2130 : is_warning (bytes "BDP2130") ≡ false
unfolding is_warning bytes text_eq
code_2130 = refl

code_2132 : is_warning (bytes "BDP2132") ≡ false
unfolding is_warning bytes text_eq
code_2132 = refl

code_2133 : is_warning (bytes "BDP2133") ≡ false
unfolding is_warning bytes text_eq
code_2133 = refl

code_2134 : is_warning (bytes "BDP2134") ≡ false
unfolding is_warning bytes text_eq
code_2134 = refl

-- A stream with a positive limit on its bytes and on its age, no negative limit on its messages, and
-- subjects of the grammar.
pub record IsBounded (s : StreamDecl) : Type 0 where
  pub max_bytes : is_pos s.max_bytes ≡ true
  pub max_age : is_pos s.max_age_seconds ≡ true
  pub max_msgs : is_negative s.max_msgs ≡ false
  pub subjects : All (λ p. parse_pattern p ≡ none) s.subjects

check_stream_subjects-refused :
    (path : Text) (i : ℕ) (p : Text) (ps : List Text) (why : Refusal)
    → parse_pattern p ≡ some why
    → check_stream_subjects path i (p ∷ ps)
      ≡ finding (bytes "BDP2111") (indexed (path ++ bytes ".subjects") i)
        ∷ check_stream_subjects path (suc i) ps
unfolding check_stream_subjects
check_stream_subjects-refused path i p ps why e = rw (check_stream_subjects, e) refl

check_stream_subjects-parsed :
    (path : Text) (i : ℕ) (p : Text) (ps : List Text)
    → parse_pattern p ≡ none
    → check_stream_subjects path i (p ∷ ps)
      ≡ refuse_reserved_tokens (indexed (path ++ bytes ".subjects") i) p
        ++ check_stream_subjects path (suc i) ps
unfolding check_stream_subjects
check_stream_subjects-parsed path i p ps e = rw (check_stream_subjects, e) refl

check_stream_subjects-All :
    (path : Text) (i : ℕ) (ps : List Text)
    → Clean (check_stream_subjects path i ps)
    → All (λ p. parse_pattern p ≡ none) ps
check_stream_subjects-All path i [] h = tt
check_stream_subjects-All path i (p ∷ ps) h = elim (Option-cases (parse_pattern p)) [
  | inr (why, e) ↦ absurd (
      Clean-finding (bytes "BDP2111") _ _ code_2111
        (subst Clean (check_stream_subjects-refused path i p ps why e) h))
  | inl e ↦
      let (_, rest) =
        Clean-append (refuse_reserved_tokens (indexed (path ++ bytes ".subjects") i) p) _
          (subst Clean (check_stream_subjects-parsed path i p ps e) h) in
      (e, check_stream_subjects-All path (suc i) ps rest)
]

check_streams-nameless :
    (seen : List Text) (i : ℕ) (s : StreamDecl) (streams : List StreamDecl)
    → is_empty (trim_space s.name) ≡ true
    → check_streams seen i (s ∷ streams)
      ≡ finding (bytes "BDP2130") (indexed (bytes "streams") i ++ bytes ".name")
        ∷ check_streams seen (suc i) streams
unfolding check_streams
check_streams-nameless seen i s streams e = rw (check_streams, e) refl

check_streams-named :
    (seen : List Text) (i : ℕ) (s : StreamDecl) (streams : List StreamDecl)
    → is_empty (trim_space s.name) ≡ false
    → check_streams seen i (s ∷ streams)
      ≡ report
          (listed (trim_space s.name) seen)
          (bytes "BDP2131")
          (indexed (bytes "streams") i ++ bytes ".name")
        ++ (report
              (not (is_pos s.max_bytes))
              (bytes "BDP2132")
              (indexed (bytes "streams") i ++ bytes ".maxBytes")
            ++ (report
                  (not (is_pos s.max_age_seconds))
                  (bytes "BDP2133")
                  (indexed (bytes "streams") i ++ bytes ".maxAgeSeconds")
                ++ (report
                      (is_negative s.max_msgs)
                      (bytes "BDP2134")
                      (indexed (bytes "streams") i ++ bytes ".maxMsgs")
                    ++ (check_stream_subjects (indexed (bytes "streams") i) 0 s.subjects
                        ++ check_streams (trim_space s.name ∷ seen) (suc i) streams))))
unfolding check_streams
check_streams-named seen i s streams e = rw (check_streams, e) refl

check_streams-IsBounded :
    (seen : List Text) (i : ℕ) (streams : List StreamDecl)
    → Clean (check_streams seen i streams)
    → All IsBounded streams
check_streams-IsBounded seen i [] h = tt
check_streams-IsBounded seen i (s ∷ streams) h =
    let path = indexed (bytes "streams") i in
    elim (Bool-cases (is_empty (trim_space s.name))) [
      | inl e ↦ absurd (
          Clean-finding (bytes "BDP2130") _ _ code_2130
            (subst Clean (check_streams-nameless seen i s streams e) h))
      | inr e ↦
          let (_, h1) =
            Clean-append
              (report (listed (trim_space s.name) seen) (bytes "BDP2131") (path ++ bytes ".name")) _
              (subst Clean (check_streams-named seen i s streams e) h) in
          let (size, h2) =
            Clean-append
              (report (not (is_pos s.max_bytes)) (bytes "BDP2132") (path ++ bytes ".maxBytes")) _
              h1 in
          let (age, h3) =
            Clean-append
              (report (not (is_pos s.max_age_seconds)) (bytes "BDP2133")
                (path ++ bytes ".maxAgeSeconds"))
              _ h2 in
          let (count, h4) =
            Clean-append
              (report (is_negative s.max_msgs) (bytes "BDP2134") (path ++ bytes ".maxMsgs")) _ h3 in
          let (parsed, rest) = Clean-append (check_stream_subjects path 0 s.subjects) _ h4 in
          let sized =
            Clean-report (not (is_pos s.max_bytes)) (bytes "BDP2132") (path ++ bytes ".maxBytes")
              code_2132 size in
          let aged =
            Clean-report (not (is_pos s.max_age_seconds)) (bytes "BDP2133")
              (path ++ bytes ".maxAgeSeconds") code_2133 age in
          (
            record {
              max_bytes = ground arith;
              max_age = ground arith;
              max_msgs =
                  Clean-report (is_negative s.max_msgs) (bytes "BDP2134") (path ++ bytes ".maxMsgs")
                    code_2134 count;
              subjects = check_stream_subjects-All path 0 s.subjects parsed;
            },
            check_streams-IsBounded (trim_space s.name ∷ seen) (suc i) streams rest,
          )
    ]

-- Where validateAssets finds no error, each stream that is asked for has a positive limit on its
-- bytes and on its age, no negative limit on its messages, and subjects of the grammar.
pub validate_assets-IsBounded :
    (m : Manifest) → first_error (validate_assets m) ≡ none → All IsBounded m.streams
unfolding validate_assets
validate_assets-IsBounded m h =
    let (streams, _) =
      Clean-append (check_streams [] 0 m.streams)
        (check_buckets [] 0 m.kv ++ check_objects [] 0 m.objects) h in
    check_streams-IsBounded [] 0 m.streams streams
