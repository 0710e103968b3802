-- ===== src/Plugin/ContributionRoles.antt =====
-- plugin/contribution_roles.go: which slots an installed plugin may fill.
use bytedesk_sdk_dependencie.Prelude.{
  if◌then◌else◌, Bool, true, false, ◌≡◌, Option, none, some, List, [], ◌∷◌, Text, text_eq, bytes,
  arith, ◌⊎◌, text_eq_iff,
}

-- ContributionEligibility
pub data Eligibility : Type 0 where
  installed_allowed consent_required compiled_only : Eligibility

pub record ContributionRole : Type 0 where
  pub slot : Text
  pub eligibility : Eligibility

abbrev role_of : Text → Eligibility → ContributionRole
role_of slot eligibility = record { slot = slot; eligibility = eligibility }

unfoldable pub contribution_roles : List ContributionRole
contribution_roles =
    role_of (bytes "default-view") installed_allowed
    ∷ role_of (bytes "main-navigation") consent_required
    ∷ role_of (bytes "sub-navigation") consent_required
    ∷ role_of (bytes "primary-action") consent_required
    ∷ role_of (bytes "secondary-actions") consent_required
    ∷ role_of (bytes "status-indicator") consent_required
    ∷ role_of (bytes "object-actions") installed_allowed
    ∷ role_of (bytes "launcher") consent_required
    ∷ role_of (bytes "settings") installed_allowed
    ∷ role_of (bytes "command") consent_required
    ∷ []

-- The loop of ContributionRoleFor.
unfoldable pub find_role : List ContributionRole → Text → Option ContributionRole
find_role [] slot = none
find_role (role ∷ roles) slot = if text_eq role.slot slot then some role else find_role roles slot

unfoldable pub contribution_role_for : Text → Option ContributionRole
contribution_role_for slot = find_role contribution_roles slot

unfoldable pub eligible : Eligibility → Bool → Bool
eligible installed_allowed point_consent = true
eligible consent_required point_consent = point_consent
eligible compiled_only point_consent = false

unfoldable pub contribution_role_allowed : Text → Bool → Bool → Bool
contribution_role_allowed slot compiled_in point_consent = elim (contribution_role_for slot) [
  | none ↦ false
  | some role ↦ if compiled_in then true else eligible role.eligibility point_consent
]

-- A plugin that is not compiled in and has no consent for the slot is admitted to three slots alone.
pub allowed_without_consent :
    (slot : Text)
    → contribution_role_allowed slot false false ≡ true
    → (slot ≡ bytes "default-view") ⊎ ((slot ≡ bytes "object-actions") ⊎ (slot ≡ bytes "settings"))
unfolding contribution_role_allowed contribution_role_for contribution_roles find_role eligible
allowed_without_consent slot h = ground (
  arith,
  text_eq_iff (bytes "default-view") slot,
  text_eq_iff (bytes "object-actions") slot,
  text_eq_iff (bytes "settings") slot,
)
