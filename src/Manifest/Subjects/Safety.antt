-- ===== src/Manifest/Subjects/Safety.antt =====
-- What a manifest that is accepted cannot reach.
use bytedesk_sdk_dependencie.Prelude.{
  ℕ, suc, ◌≡◌, refl, Bool, true, false, not, ◌&&◌, none, some, List, [], ◌∷◌, any, All, Text, bytes,
  text_eq, text_eq_iff, has_prefix, arith, Bool-cases, Option-cases, inl, inr, ◌≢◌, sym, ◌∙◌,
  false≢true, ap, subst,
}
use bytedesk_sdk_dependencie.Bus.Subject.{
  tokens, has_wildcard, matches, parse_pattern, is_reserved_token, Refusal,
}
use bytedesk_sdk_dependencie.Manifest.{Manifest, finding, indexed, is_warning, first_error}
use bytedesk_sdk_dependencie.Manifest.Words.{trim_space, listed}
use bytedesk_sdk_dependencie.Manifest.Namespace.{permanently_ineligible, own_namespace_patterns}
use bytedesk_sdk_dependencie.Manifest.Overlap.{patterns_overlap, patterns_overlap_iff}
use bytedesk_sdk_dependencie.Manifest.Subjects.{
  PermissionList, publish, subscribe, request, label, report, intercepts, providers, host_commands,
  is_request, restates, check_reach, check_pattern, check_patterns, check_own,
  refuse_reserved_tokens, reserved_in, validate_subject_patterns, mesh_prefix,
}
use bytedesk_sdk_dependencie.Manifest.Findings.{Clean, Clean-append, Clean-report, Clean-finding}

code_2004 : is_warning (bytes "BDP2004") ≡ false
unfolding is_warning bytes text_eq
code_2004 = refl

code_2111 : is_warning (bytes "BDP2111") ≡ false
unfolding is_warning bytes text_eq
code_2111 = refl

code_2112 : is_warning (bytes "BDP2112") ≡ false
unfolding is_warning bytes text_eq
code_2112 = refl

code_2113 : is_warning (bytes "BDP2113") ≡ false
unfolding is_warning bytes text_eq
code_2113 = refl

code_2115 : is_warning (bytes "BDP2115") ≡ false
unfolding is_warning bytes text_eq
code_2115 = refl

-- No family of the list matches a subject that the pattern matches.
abbrev pub Avoids : List Text → Text → Type 0
Avoids families p =
    (s : Text)
    → has_wildcard s ≡ false
    → matches p s ≡ true
    → All (λ d. matches d s ≡ false) families

Avoids-families :
    (families : List Text) (p : Text)
    → any (λ d. patterns_overlap d p) families ≡ false
    → Avoids families p
unfolding any
Avoids-families [] p h s c m = tt
Avoids-families (d ∷ families) p h s c m = (
  elim (Bool-cases (matches d s)) [
    | inl e ↦ absurd (ground (arith, (patterns_overlap_iff d p).1 (s, (c, (e, m)))))
    | inr e ↦ e
  ],
  Avoids-families families p (ground arith) s c m,
)

Clean-reserved_in :
    (first : Bool) (path : Text) (toks : List Text)
    → Clean (reserved_in first path toks)
    → reserved_in first path toks ≡ []
unfolding reserved_in first_error
Clean-reserved_in first path [] h = refl
Clean-reserved_in first path (tok ∷ toks) h =
    ground (arith, code_2112, code_2113, Clean-reserved_in false path toks)

pub Clean-refuse_reserved_tokens :
    (path p : Text) → Clean (refuse_reserved_tokens path p) → refuse_reserved_tokens path p ≡ []
unfolding refuse_reserved_tokens
Clean-refuse_reserved_tokens path p h = Clean-reserved_in true path (tokens p) h

-- A token that is not the substrate's: no "$" in front, and not "_INBOX".
abbrev pub Unreserved : Text → Type 0
Unreserved t = ((rest : Text) → t ≢ b'$' ∷ rest) × (t ≢ bytes "_INBOX")

is_reserved_token-Unreserved : (t : Text) → is_reserved_token t ≡ false → Unreserved t
unfolding is_reserved_token has_prefix
is_reserved_token-Unreserved t h = (
  λ rest e. false≢true (sym h ∙ ap is_reserved_token e),
  λ e. let same = (text_eq_iff t (bytes "_INBOX")).1 e in false≢true (ground arith),
)

reserved_in-Unreserved :
    (first : Bool) (path : Text) (toks : List Text)
    → reserved_in first path toks ≡ []
    → All Unreserved toks
unfolding reserved_in
reserved_in-Unreserved first path [] h = tt
reserved_in-Unreserved first path (tok ∷ toks) h = (
  is_reserved_token-Unreserved tok (ground arith),
  reserved_in-Unreserved false path toks (ground arith),
)

reserved_in-first :
    (path : Text) (toks : List Text)
    → reserved_in true path toks ≡ []
    → (rest : List Text) → toks ≢ mesh_prefix ∷ rest
unfolding reserved_in
reserved_in-first path toks h rest e =
    let same = (text_eq_iff mesh_prefix mesh_prefix).1 refl in
    let h' : reserved_in true path (mesh_prefix ∷ rest) ≡ [] =
      subst (λ k. reserved_in true path k ≡ []) e h in
    ground arith

check_reach-Avoids :
    (list : PermissionList) (id path p : Text)
    → Clean (check_reach list id path p)
    → Avoids permanently_ineligible p
unfolding check_reach
check_reach-Avoids list id path p h =
    let (_, h1) =
      Clean-append
        (report (not (is_request list) && patterns_overlap host_commands p) (bytes "BDP2115") path)
        _ h in
    let (_, h2) =
      Clean-append (report (any (intercepts list id p) providers) (bytes "BDP2115") path) _ h1 in
    let (_, h3) = Clean-append (restates path p (own_namespace_patterns id)) _ h2 in
    Avoids-families permanently_ineligible p (
      Clean-report (any (λ d. patterns_overlap d p) permanently_ineligible) (bytes "BDP2115") path
        code_2115 h3)

-- What a pattern that passes is like.
pub record Admitted (p : Text) : Type 0 where
  pub parsed : parse_pattern p ≡ none
  pub unreserved : All Unreserved (tokens p)
  pub off_mesh : (rest : List Text) → tokens p ≢ bytes "bd" ∷ rest
  pub avoids : Avoids permanently_ineligible p

check_pattern_refused :
    (list : PermissionList) (id path p : Text) (why : Refusal)
    → parse_pattern p ≡ some why
    → check_pattern list id path p ≡ finding (bytes "BDP2111") path ∷ []
unfolding check_pattern
check_pattern_refused list id path p why e = ground arith

check_pattern_parsed :
    (list : PermissionList) (id path p : Text)
    → parse_pattern p ≡ none
    → Clean (check_pattern list id path p)
    → (reserved_in true path (tokens p) ≡ []) × Clean (check_reach list id path p)
unfolding check_pattern refuse_reserved_tokens
check_pattern_parsed list id path p e h = ground (arith, Clean-reserved_in true path (tokens p))

check_pattern-Admitted :
    (list : PermissionList) (id path p : Text) → Clean (check_pattern list id path p) → Admitted p
check_pattern-Admitted list id path p h = elim (Option-cases (parse_pattern p)) [
  | inr (why, e) ↦ absurd (
      Clean-finding (bytes "BDP2111") path [] code_2111
        (rw (← check_pattern_refused list id path p why e) h))
  | inl e ↦
      let (clear, reach) = check_pattern_parsed list id path p e h in
      record {
        parsed = e;
        unreserved = reserved_in-Unreserved true path (tokens p) clear;
        off_mesh = reserved_in-first path (tokens p) clear;
        avoids = check_reach-Avoids list id path p reach;
      }
]

check_patterns-Admitted :
    (list : PermissionList) (id : Text) (seen : List Text) (i : ℕ) (ps : List Text)
    → Clean (check_patterns list id seen i ps)
    → All Admitted ps
unfolding check_patterns
check_patterns-Admitted list id seen i [] h = tt
check_patterns-Admitted list id seen i (p ∷ ps) h =
    let (_, h1) =
      Clean-append (report (listed p seen) (bytes "BDP2110") (indexed (label list) i)) _ h in
    let (one, rest) = Clean-append (check_pattern list id (indexed (label list) i) p) _ h1 in
    (
      check_pattern-Admitted list id (indexed (label list) i) p one,
      check_patterns-Admitted list id (p ∷ seen) (suc i) ps rest,
    )

check_own-Avoids :
    (own : List Text) → Clean (check_own own) → All (Avoids permanently_ineligible) own
unfolding check_own
check_own-Avoids [] h = tt
check_own-Avoids (g ∷ own) h =
    let (one, rest) =
      Clean-append
        (report (any (λ d. patterns_overlap d g) permanently_ineligible) (bytes "BDP2004")
          (bytes "id"))
        _ h in
    (
      Avoids-families permanently_ineligible g (
          Clean-report (any (λ d. patterns_overlap d g) permanently_ineligible) (bytes "BDP2004")
            (bytes "id") code_2004 one),
      check_own-Avoids own rest,
    )

-- Where validateSubjectPatterns finds no error, every permission parses, has no token that begins with
-- "$" or is "_INBOX" and does not begin with the token "bd", and neither a permission nor the
-- plugin's implicit own namespace matches any subject of a permanently ineligible family.
pub validate_subject_patterns-Avoids :
    (m : Manifest)
    → first_error (validate_subject_patterns m) ≡ none
    → All (Avoids permanently_ineligible) (own_namespace_patterns (trim_space m.id))
      × (All Admitted m.permissions.publish
          × (All Admitted m.permissions.subscribe × All Admitted m.permissions.request))
unfolding validate_subject_patterns
validate_subject_patterns-Avoids m h =
    let id = trim_space m.id in
    let (_, h1) =
      Clean-append (report (text_eq id (bytes "gateway")) (bytes "BDP2004") (bytes "id")) _ h in
    let (own, h2) = Clean-append (check_own (own_namespace_patterns id)) _ h1 in
    let (p, h3) = Clean-append (check_patterns publish id [] 0 m.permissions.publish) _ h2 in
    let (s, r) = Clean-append (check_patterns subscribe id [] 0 m.permissions.subscribe) _ h3 in
    (
      check_own-Avoids (own_namespace_patterns id) own,
      (
        check_patterns-Admitted publish id [] 0 m.permissions.publish p,
        (
          check_patterns-Admitted subscribe id [] 0 m.permissions.subscribe s,
          check_patterns-Admitted request id [] 0 m.permissions.request r,
        ),
      ),
    )
