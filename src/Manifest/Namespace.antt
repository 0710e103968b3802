-- ===== src/Manifest/Namespace.antt =====
-- OwnNamespace of v2/plugin/manifest.go, and PermanentlyIneligible of v2/plugin/ineligible.go.
use bytedesk_sdk_dependencie.Prelude.{if◌then◌else◌, List, [], ◌∷◌, ◌++◌, is_empty, Text, bytes}
use bytedesk_sdk_dependencie.Bus.Identity.{Grants}
use bytedesk_sdk_dependencie.Manifest.Words.{trim_space, listed}

unfoldable pub permanently_ineligible : List Text
permanently_ineligible =
    bytes "$SYS.>"
    ∷ bytes "cmd.host.auth.>"
    ∷ bytes "cmd.host.session.>"
    ∷ bytes "cmd.host.identity.>"
    ∷ bytes "cmd.host.secrets.>"
    ∷ bytes "cmd.host.cutover.>"
    ∷ bytes "cmd.plugin.v1.disable"
    ∷ bytes "cmd.plugin.v1.announce"
    ∷ bytes "cmd.host.statedir.>"
    ∷ bytes "cmd.terminal.v1.write"
    ∷ []

abbrev pub no_grants : Grants
no_grants = record {
  publish = [];
  subscribe = [];
  request = [];
  serves = [];
  streams = [];
  kv = [];
  objects = [];
}

-- head + id + ".>"
abbrev pub tree : Text → Text → Text
tree head id = head ++ (id ++ bytes ".>")

unfoldable pub own_namespace : Text → Grants
own_namespace id =
    let id = trim_space id in
    if is_empty id then no_grants else record no_grants {
      publish = tree (bytes "event.") id ∷ tree (bytes "tick.") id ∷ [];
      subscribe = tree (bytes "tick.") id ∷ tree (bytes "_INBOX.") id ∷ [];
      serves = tree (bytes "cmd.") id ∷ tree (bytes "svc.") id ∷ [];
    }

-- The loop that flattens, without what it has seen.
unfoldable pub flatten : List Text → List Text → List Text
flatten out [] = out
flatten out (p ∷ ps) = flatten (if listed p out then out else out ++ p ∷ []) ps

-- ownNamespacePatterns
unfoldable pub own_namespace_patterns : Text → List Text
own_namespace_patterns id =
    let g = own_namespace id in flatten [] (g.publish ++ (g.subscribe ++ g.serves))
