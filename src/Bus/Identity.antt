-- ===== src/Bus/Identity.antt =====
-- v2/bus/identity.go: who a connection belongs to, and what it may use.
use bytedesk_sdk_dependencie.Prelude.{
  is_empty, ◌≡◌, refl, Bool, true, false, ◌&&◌, List, [], ◌∷◌, ◌++◌, if◌then◌else◌, Text, text_eq,
  bytes, arith,
}
use bytedesk_sdk_dependencie.Bus.Subject.{covered_by_any, matched_by_any, matches}
use bytedesk_sdk_dependencie.Bus.Subject.Containment.{covered_by_any_sound}

pub data Role : Type 0 where
  host plugin ui orchestration : Role

pub data GrantKind : Type 0 where
  publish subscribe request serve : GrantKind

pub data AssetKind : Type 0 where
  stream kv objects : AssetKind

pub record Grants : Type 0 where
  pub publish : List Text
  pub subscribe : List Text
  pub request : List Text
  pub serves : List Text
  pub streams : List Text
  pub kv : List Text
  pub objects : List Text

-- slices.Contains
unfoldable pub contains : List Text → Text → Bool
contains [] name = false
contains (x ∷ xs) name = if text_eq x name then true else contains xs name

-- Grants.list
unfoldable pub list : Grants → GrantKind → List Text
list g publish = g.publish
list g subscribe = g.subscribe
list g request = g.request
list g serve = g.serves

unfoldable pub can : Grants → GrantKind → Text → Bool
can g kind s = matched_by_any (list g kind) s

unfoldable pub can_pattern : Grants → GrantKind → Text → Bool
can_pattern g kind p = covered_by_any (list g kind) p

unfoldable pub can_use : Grants → AssetKind → Text → Bool
can_use g stream name = contains g.streams name
can_use g kv name = contains g.kv name
can_use g objects name = contains g.objects name

-- Grants.IsZero
unfoldable pub grants_is_zero : Grants → Bool
grants_is_zero g =
    is_empty g.publish
    && (is_empty g.subscribe
        && (is_empty g.request
            && (is_empty g.serves
                && (is_empty g.streams && (is_empty g.kv && is_empty g.objects)))))

-- A lease is its opaque token.
pub record Lease : Type 0 where
  pub token : Text

abbrev pub lease_is_zero : Lease → Bool
lease_is_zero l = is_empty l.token

pub record Identity : Type 0 where
  pub plugin_id : Text
  pub generation : Text
  pub lease : Lease
  pub role : Role
  pub grants : Grants

-- Identity.String
unfoldable pub identity_string : Identity → Text
identity_string i =
    if is_empty i.plugin_id
    then bytes "<unbound>"
    else if is_empty i.generation
    then i.plugin_id
    else i.plugin_id ++ (b'@' ∷ i.generation)

-- A principal that may use a whole pattern may use each subject that the pattern matches.
pub can_pattern-can :
    (g : Grants) (kind : GrantKind) (p s : Text)
    → can_pattern g kind p ≡ true
    → matches p s ≡ true
    → can g kind s ≡ true
unfolding can can_pattern
can_pattern-can g kind p s h k = covered_by_any_sound (list g kind) p s h k

matched_by_any-nil : (l : List Text) (s : Text) → is_empty l ≡ true → matched_by_any l s ≡ false
unfolding matched_by_any
matched_by_any-nil [] s h = refl
matched_by_any-nil (g ∷ l) s h = cc

-- Who holds nothing is refused everything.
pub grants_is_zero-can :
    (g : Grants) (kind : GrantKind) (s : Text) → grants_is_zero g ≡ true → can g kind s ≡ false
unfolding grants_is_zero can list
grants_is_zero-can g publish s h = matched_by_any-nil g.publish s (ground arith)
grants_is_zero-can g subscribe s h = matched_by_any-nil g.subscribe s (ground arith)
grants_is_zero-can g request s h = matched_by_any-nil g.request s (ground arith)
grants_is_zero-can g serve s h = matched_by_any-nil g.serves s (ground arith)
