-- ===== src/Manifest/Subjects.antt =====
-- validateSubjectPatterns and refuseReservedTokens of v2/plugin/validate.go.
pub mod Safety
use bytedesk_sdk_dependencie.Prelude.{
  ℕ, suc, if◌then◌else◌, Bool, true, false, not, ◌&&◌, ◌||◌, Option, none, some, List, [], ◌∷◌,
  ◌++◌, any, Text, bytes, text_eq,
}
use bytedesk_sdk_dependencie.Bus.Subject.{tokens, covers, is_reserved_token, parse_pattern}
use bytedesk_sdk_dependencie.Manifest.{Manifest, Diagnostic, finding, indexed}
use bytedesk_sdk_dependencie.Manifest.Words.{trim_space, listed}
use bytedesk_sdk_dependencie.Manifest.Namespace.{
  permanently_ineligible, own_namespace_patterns, tree,
}
use bytedesk_sdk_dependencie.Manifest.Overlap.{patterns_overlap}

abbrev pub mesh_prefix : Text
mesh_prefix = bytes "bd"

-- The loop of refuseReservedTokens from the token at `i` on; `first` says that i == 0.
unfoldable pub reserved_in : Bool → Text → List Text → List Diagnostic
reserved_in first path [] = []
reserved_in first path (tok ∷ toks) =
    let rest = reserved_in false path toks in
    if is_reserved_token tok
    then finding (bytes "BDP2112") path ∷ []
    else if first && text_eq tok mesh_prefix
    then finding (bytes "BDP2113") path ∷ []
    else rest

-- refuseReservedTokens: at most one finding, and whether there is one is its answer.
unfoldable pub refuse_reserved_tokens : Text → Text → List Diagnostic
refuse_reserved_tokens path p = reserved_in true path (tokens p)

pub data PermissionList : Type 0 where
  publish subscribe request : PermissionList

unfoldable pub label : PermissionList → Text
label publish = bytes "permissions.publish"
label subscribe = bytes "permissions.subscribe"
label request = bytes "permissions.request"

abbrev pub is_request : PermissionList → Bool
is_request publish = false
is_request subscribe = false
is_request request = true

abbrev pub is_subscribe : PermissionList → Bool
is_subscribe publish = false
is_subscribe subscribe = true
is_subscribe request = false

unfoldable pub host_commands : Text
host_commands = bytes "cmd.gateway.>"

unfoldable pub providers : List Text
providers =
    bytes "svc.*.ai.decision.>"
    ∷ bytes "svc.*.project.tasks.>"
    ∷ bytes "svc.*.project.knowledge.>"
    ∷ []

-- if test { c.add(code, path) }
abbrev pub report : Bool → Text → Text → List Diagnostic
report test code path = if test then finding code path ∷ [] else []

-- A provider that the pattern reaches, unless it is a subscription inside the plugin's own service.
unfoldable pub intercepts : PermissionList → Text → Text → Text → Bool
intercepts list id p provider =
    patterns_overlap provider p && not (is_subscribe list && covers (tree (bytes "svc.") id) p)

-- for _, g := range own { if g.Covers(p) { c.add("BDP2114", ...) } }
unfoldable pub restates : Text → Text → List Text → List Diagnostic
restates path p [] = []
restates path p (g ∷ own) = report (covers g p) (bytes "BDP2114") path ++ restates path p own

-- The loop body on a pattern that parses and has no reserved token.
unfoldable pub check_reach : PermissionList → Text → Text → Text → List Diagnostic
check_reach list id path p =
    report (not (is_request list) && patterns_overlap host_commands p) (bytes "BDP2115") path
    ++ (report (any (intercepts list id p) providers) (bytes "BDP2115") path
        ++ (restates path p (own_namespace_patterns id)
            ++ report (any (λ d. patterns_overlap d p) permanently_ineligible) (bytes "BDP2115")
                path))

-- The loop body on one pattern, after the test for repeats.
unfoldable pub check_pattern : PermissionList → Text → Text → Text → List Diagnostic
check_pattern list id path p = elim (parse_pattern p) [
  | some why ↦ finding (bytes "BDP2111") path ∷ []
  | none ↦ elim (refuse_reserved_tokens path p) [
    | d ∷ ds ↦ d ∷ ds
    | [] ↦ check_reach list id path p
  ]
]

-- The loop over one list from the index `i` on, with what it has seen.
unfoldable pub check_patterns : PermissionList → Text → List Text → ℕ → List Text → List Diagnostic
check_patterns list id seen i [] = []
check_patterns list id seen i (p ∷ ps) =
    report (listed p seen) (bytes "BDP2110") (indexed (label list) i)
    ++ (check_pattern list id (indexed (label list) i) p
        ++ check_patterns list id (p ∷ seen) (suc i) ps)

-- The loop over the plugin's own namespace: one finding for each pattern that reaches a family.
unfoldable pub check_own : List Text → List Diagnostic
check_own [] = []
check_own (g ∷ own) =
    report (any (λ d. patterns_overlap d g) permanently_ineligible) (bytes "BDP2004") (bytes "id")
    ++ check_own own

-- validateSubjectPatterns
unfoldable pub validate_subject_patterns : Manifest → List Diagnostic
validate_subject_patterns m =
    let id = trim_space m.id in
    report (text_eq id (bytes "gateway")) (bytes "BDP2004") (bytes "id")
    ++ (check_own (own_namespace_patterns id)
        ++ (check_patterns publish id [] 0 m.permissions.publish
            ++ (check_patterns subscribe id [] 0 m.permissions.subscribe
                ++ check_patterns request id [] 0 m.permissions.request)))
