-- ===== src/Manifest/Serves/Safety.antt =====
-- A manifest exports nothing outside of its own trees.
use bytedesk_sdk_dependencie.Prelude.{
  ℕ, suc, ◌≡◌, true, false, not, Option, none, some, List, [], ◌∷◌, ◌++◌, is_empty, All, Text,
  text_eq, bytes, arith, Option-cases, Bool-cases, subst, inl, inr, ◌⊎◌, ◌∙◌, ap, refl, has_prefix,
  append_assoc,
}
use bytedesk_sdk_dependencie.Bus.Subject.{parse_subject, Refusal}
use bytedesk_sdk_dependencie.Manifest.{
  Manifest, Publisher, ServiceDecl, EndpointDecl, finding, indexed, is_warning, first_error,
}
use bytedesk_sdk_dependencie.Manifest.Words.{trim_space, listed}
use bytedesk_sdk_dependencie.Manifest.Findings.{Clean, Clean-append, Clean-report, Clean-finding}
use bytedesk_sdk_dependencie.Manifest.Subjects.{report}
use bytedesk_sdk_dependencie.Manifest.Subjects.Safety.{Clean-refuse_reserved_tokens}
use bytedesk_sdk_dependencie.Manifest.Serves.{
  in_own, own_prefix, check_endpoint_subject, check_endpoint_point, check_endpoints, check_services,
  validate_serves,
}

code_2111 : is_warning (bytes "BDP2111") ≡ false
unfolding is_warning bytes text_eq
code_2111 = refl

code_2120 : is_warning (bytes "BDP2120") ≡ false
unfolding is_warning bytes text_eq
code_2120 = refl

code_2122 : is_warning (bytes "BDP2122") ≡ false
unfolding is_warning bytes text_eq
code_2122 = refl

code_2124 : is_warning (bytes "BDP2124") ≡ false
unfolding is_warning bytes text_eq
code_2124 = refl

-- A subject that begins with a family, the plugin's id and a dot.
abbrev pub LiesUnder : Text → Text → Text → Type 0
LiesUnder family id subject = (rest : Text) × (subject ≡ family ++ (id ++ b'.' ∷ rest))

has_prefix_rest : (s p : Text) → has_prefix s p ≡ true → (rest : Text) × (s ≡ p ++ rest)
unfolding has_prefix
has_prefix_rest s [] h = (s, refl)
has_prefix_rest [] (x ∷ p) h = absurd (ground arith)
has_prefix_rest (c ∷ s) (x ∷ p) h =
    let same : c ≡ x = ground arith in
    let (rest, e) = has_prefix_rest s p (ground arith) in
    (rest, ap (λ k. c ∷ k) e ∙ ap (λ k. k ∷ (p ++ rest)) same)

own_prefix-LiesUnder :
    (family id s : Text) → has_prefix s (own_prefix family id) ≡ true → LiesUnder family id s
own_prefix-LiesUnder family id s h =
    let (rest, e) = has_prefix_rest s (own_prefix family id) h in
    let inner : (id ++ b'.' ∷ []) ++ rest ≡ id ++ b'.' ∷ rest = append_assoc id (b'.' ∷ []) rest in
    (rest, e ∙ (append_assoc family (id ++ b'.' ∷ []) rest ∙ ap (λ r. family ++ r) inner))

-- An endpoint with a subject of the grammar, in the service or the command tree of the plugin.
pub record IsExport (id : Text) (ep : EndpointDecl) : Type 0 where
  pub parsed : parse_subject ep.subject ≡ none
  pub owned : LiesUnder (bytes "svc.") id ep.subject ⊎ LiesUnder (bytes "cmd.") id ep.subject

in_own-LiesUnder :
    (id s : Text)
    → in_own id s ≡ true
    → LiesUnder (bytes "svc.") id s ⊎ LiesUnder (bytes "cmd.") id s
unfolding in_own
in_own-LiesUnder id s h = elim (Bool-cases (has_prefix s (own_prefix (bytes "svc.") id))) [
  | inl e ↦ inl (own_prefix-LiesUnder (bytes "svc.") id s e)
  | inr e ↦ inr (own_prefix-LiesUnder (bytes "cmd.") id s (ground arith))
]

check_endpoint_subject-clear :
    (id path subject : Text)
    → parse_subject subject ≡ none
    → Clean (check_endpoint_subject id path subject)
    → Clean (report (not (in_own id subject)) (bytes "BDP2124") path)
unfolding check_endpoint_subject
check_endpoint_subject-clear id path subject e h =
    ground (arith, Clean-refuse_reserved_tokens path subject)

check_endpoint_subject-refused :
    (id path subject : Text) (why : Refusal)
    → parse_subject subject ≡ some why
    → check_endpoint_subject id path subject ≡ finding (bytes "BDP2111") path ∷ []
unfolding check_endpoint_subject
check_endpoint_subject-refused id path subject why e = ground arith

check_endpoint_subject-IsExport :
    (id path : Text) (ep : EndpointDecl)
    → Clean (check_endpoint_subject id path ep.subject)
    → IsExport id ep
check_endpoint_subject-IsExport id path ep h = elim (Option-cases (parse_subject ep.subject)) [
  | inr (why, e) ↦ absurd (
      Clean-finding (bytes "BDP2111") path [] code_2111
        (rw (← check_endpoint_subject-refused id path ep.subject why e) h))
  | inl e ↦
      let own =
        Clean-report (not (in_own id ep.subject)) (bytes "BDP2124") path code_2124
          (check_endpoint_subject-clear id path ep.subject e h) in
      let within : in_own id ep.subject ≡ true = ground arith in
      record { parsed = e; owned = in_own-LiesUnder id ep.subject within }
]

check_endpoints-nameless :
    (publisher : Option Publisher) (id path : Text) (seen : List Text) (i : ℕ) (ep : EndpointDecl)
    (eps : List EndpointDecl)
    → is_empty (trim_space ep.name) ≡ true
    → check_endpoints publisher id path seen i (ep ∷ eps)
      ≡ finding (bytes "BDP2122") (indexed (path ++ bytes ".endpoints") i ++ bytes ".name")
        ∷ check_endpoints publisher id path seen (suc i) eps
unfolding check_endpoints
check_endpoints-nameless publisher id path seen i ep eps e = rw (check_endpoints, e) refl

check_endpoints-named :
    (publisher : Option Publisher) (id path : Text) (seen : List Text) (i : ℕ) (ep : EndpointDecl)
    (eps : List EndpointDecl)
    → is_empty (trim_space ep.name) ≡ false
    → check_endpoints publisher id path seen i (ep ∷ eps)
      ≡ report
          (listed (trim_space ep.name) seen)
          (bytes "BDP2123")
          (indexed (path ++ bytes ".endpoints") i ++ bytes ".name")
        ++ (check_endpoint_subject id
              (indexed (path ++ bytes ".endpoints") i ++ bytes ".subject")
              ep.subject
            ++ (check_endpoint_point publisher
                  (indexed (path ++ bytes ".endpoints") i ++ bytes ".point")
                  ep.point
                ++ check_endpoints publisher id path (trim_space ep.name ∷ seen) (suc i) eps))
unfolding check_endpoints
check_endpoints-named publisher id path seen i ep eps e = rw (check_endpoints, e) refl

check_endpoints-IsExport :
    (publisher : Option Publisher) (id path : Text) (seen : List Text) (i : ℕ)
    (eps : List EndpointDecl)
    → Clean (check_endpoints publisher id path seen i eps)
    → All (IsExport id) eps
check_endpoints-IsExport publisher id path seen i [] h = tt
check_endpoints-IsExport publisher id path seen i (ep ∷ eps) h =
    let here = indexed (path ++ bytes ".endpoints") i in
    elim (Bool-cases (is_empty (trim_space ep.name))) [
      | inl e ↦ absurd (
          Clean-finding (bytes "BDP2122") _ _ code_2122
            (subst Clean (check_endpoints-nameless publisher id path seen i ep eps e) h))
      | inr e ↦
          let (_, h1) =
            Clean-append
              (report (listed (trim_space ep.name) seen) (bytes "BDP2123") (here ++ bytes ".name"))
              _ (subst Clean (check_endpoints-named publisher id path seen i ep eps e) h) in
          let (one, h2) =
            Clean-append (check_endpoint_subject id (here ++ bytes ".subject") ep.subject) _ h1 in
          let (_, rest) =
            Clean-append (check_endpoint_point publisher (here ++ bytes ".point") ep.point) _ h2 in
          (
            check_endpoint_subject-IsExport id (here ++ bytes ".subject") ep one,
            check_endpoints-IsExport publisher id path (trim_space ep.name ∷ seen) (suc i) eps rest,
          )
    ]

check_services-nameless :
    (publisher : Option Publisher) (id : Text) (seen : List Text) (i : ℕ) (svc : ServiceDecl)
    (svcs : List ServiceDecl)
    → is_empty (trim_space svc.name) ≡ true
    → check_services publisher id seen i (svc ∷ svcs)
      ≡ finding (bytes "BDP2120") (indexed (bytes "serves") i ++ bytes ".name")
        ∷ check_services publisher id seen (suc i) svcs
unfolding check_services
check_services-nameless publisher id seen i svc svcs e = rw (check_services, e) refl

check_services-named :
    (publisher : Option Publisher) (id : Text) (seen : List Text) (i : ℕ) (svc : ServiceDecl)
    (svcs : List ServiceDecl)
    → is_empty (trim_space svc.name) ≡ false
    → check_services publisher id seen i (svc ∷ svcs)
      ≡ report
          (listed (trim_space svc.name) seen)
          (bytes "BDP2121")
          (indexed (bytes "serves") i ++ bytes ".name")
        ++ (check_endpoints publisher id (indexed (bytes "serves") i) [] 0 svc.endpoints
            ++ check_services publisher id (trim_space svc.name ∷ seen) (suc i) svcs)
unfolding check_services
check_services-named publisher id seen i svc svcs e = rw (check_services, e) refl

abbrev pub Exports : Text → ServiceDecl → Type 0
Exports id svc = All (IsExport id) svc.endpoints

check_services-Exports :
    (publisher : Option Publisher) (id : Text) (seen : List Text) (i : ℕ) (svcs : List ServiceDecl)
    → Clean (check_services publisher id seen i svcs)
    → All (Exports id) svcs
check_services-Exports publisher id seen i [] h = tt
check_services-Exports publisher id seen i (svc ∷ svcs) h =
    elim (Bool-cases (is_empty (trim_space svc.name))) [
      | inl e ↦ absurd (
          Clean-finding (bytes "BDP2120") _ _ code_2120
            (subst Clean (check_services-nameless publisher id seen i svc svcs e) h))
      | inr e ↦
          let (_, h1) =
            Clean-append
              (report (listed (trim_space svc.name) seen) (bytes "BDP2121")
                (indexed (bytes "serves") i ++ bytes ".name"))
              _ (subst Clean (check_services-named publisher id seen i svc svcs e) h) in
          let (one, rest) =
            Clean-append
              (check_endpoints publisher id (indexed (bytes "serves") i) [] 0 svc.endpoints) _ h1 in
          (
            check_endpoints-IsExport publisher id (indexed (bytes "serves") i) [] 0 svc.endpoints
                one,
            check_services-Exports publisher id (trim_space svc.name ∷ seen) (suc i) svcs rest,
          )
    ]

-- Where validateServes finds no error, each endpoint of each service has a subject of the grammar that
-- begins with "svc." or "cmd.", the trimmed id of the plugin and a dot.
pub validate_serves-Exports :
    (m : Manifest)
    → first_error (validate_serves m) ≡ none
    → All (Exports (trim_space m.id)) m.serves
unfolding validate_serves
validate_serves-Exports m h = check_services-Exports m.publisher (trim_space m.id) [] 0 m.serves h
