-- ===== src/Manifest/Serves.antt =====
-- validateServes of v2/plugin/validate.go: the services that a manifest exports.
pub mod Safety
use bytedesk_sdk_dependencie.Prelude.{
  ℕ, suc, if◌then◌else◌, Bool, true, false, not, ◌&&◌, ◌||◌, Option, none, some, List, [], ◌∷◌,
  ◌++◌, is_empty, Text, bytes, has_prefix,
}
use bytedesk_sdk_dependencie.Bus.Subject.{parse_subject}
use bytedesk_sdk_dependencie.Manifest.{
  Manifest, Publisher, ServiceDecl, EndpointDecl, Diagnostic, finding, indexed,
}
use bytedesk_sdk_dependencie.Manifest.Words.{trim_space, listed}
use bytedesk_sdk_dependencie.Manifest.Subjects.{report, refuse_reserved_tokens}
use bytedesk_sdk_dependencie.Manifest.Points.{validate_point_name}

-- "svc." + id + "." and "cmd." + id + "."
abbrev pub own_prefix : Text → Text → Text
own_prefix family id = family ++ (id ++ b'.' ∷ [])

-- inOwn
unfoldable pub in_own : Text → Text → Bool
in_own id subject =
    has_prefix subject (own_prefix (bytes "svc.") id)
    || has_prefix subject (own_prefix (bytes "cmd.") id)

-- The tests of the inner loop on the subject of an endpoint.
unfoldable pub check_endpoint_subject : Text → Text → Text → List Diagnostic
check_endpoint_subject id path subject = elim (parse_subject subject) [
  | some why ↦ finding (bytes "BDP2111") path ∷ []
  | none ↦ elim (refuse_reserved_tokens path subject) [
    | d ∷ ds ↦ d ∷ ds
    | [] ↦ report (not (in_own id subject)) (bytes "BDP2124") path
  ]
]

unfoldable pub check_endpoint_point : Option Publisher → Text → Text → List Diagnostic
check_endpoint_point publisher path point =
    if is_empty (trim_space point) then [] else validate_point_name path publisher point

-- The inner loop from the endpoint at `i` on, with the names that it has seen.
unfoldable pub check_endpoints :
    Option Publisher → Text → Text → List Text → ℕ → List EndpointDecl → List Diagnostic
check_endpoints publisher id path seen i [] = []
check_endpoints publisher id path seen i (ep ∷ eps) =
    let name = trim_space ep.name in
    let here = indexed (path ++ bytes ".endpoints") i in
    let rest =
      check_endpoints publisher id path (if is_empty name then seen else name ∷ seen) (suc i) eps in
    if is_empty name
    then finding (bytes "BDP2122") (here ++ bytes ".name") ∷ rest
    else report (listed name seen) (bytes "BDP2123") (here ++ bytes ".name")
      ++ (check_endpoint_subject id (here ++ bytes ".subject") ep.subject
          ++ (check_endpoint_point publisher (here ++ bytes ".point") ep.point ++ rest))

-- The outer loop from the service at `i` on.
unfoldable pub check_services :
    Option Publisher → Text → List Text → ℕ → List ServiceDecl → List Diagnostic
check_services publisher id seen i [] = []
check_services publisher id seen i (svc ∷ svcs) =
    let name = trim_space svc.name in
    let here = indexed (bytes "serves") i in
    let rest =
      check_services publisher id (if is_empty name then seen else name ∷ seen) (suc i) svcs in
    if is_empty name
    then finding (bytes "BDP2120") (here ++ bytes ".name") ∷ rest
    else report (listed name seen) (bytes "BDP2121") (here ++ bytes ".name")
      ++ (check_endpoints publisher id here [] 0 svc.endpoints ++ rest)

-- validateServes
unfoldable pub validate_serves : Manifest → List Diagnostic
validate_serves m = check_services m.publisher (trim_space m.id) [] 0 m.serves
