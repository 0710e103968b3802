-- ===== src/Manifest.antt =====
-- v2/plugin: the manifest of a plugin (manifest.go), what it finds wrong with one (diagnostic.go,
-- the severities of contract/v2/diagnostics.json), and its validation.
pub mod Words
pub mod Namespace
pub mod Overlap
pub mod Subjects
pub mod Findings
pub mod Points
pub mod Serves
pub mod Assets
pub mod Digest
use bytedesk_sdk_dependencie.Prelude.{
  ℕ, if◌then◌else◌, Bool, true, false, Option, none, some, List, [], ◌∷◌, ◌++◌, Text, bytes,
  text_eq, format_uint,
}
use bytedesk_sdk_dependencie.Prelude.Int.{ℤ}

pub record ManifestIdentity : Type 0 where
  pub display_name : Text
  pub description : Text

pub record Publisher : Type 0 where
  pub id : Text
  pub kid : Text

pub record StaticMount : Type 0 where
  pub dir : Text
  pub mount : Text

pub record Permissions : Type 0 where
  pub publish : List Text
  pub subscribe : List Text
  pub request : List Text

pub record EndpointDecl : Type 0 where
  pub name : Text
  pub subject : Text
  pub point : Text

pub record ServiceDecl : Type 0 where
  pub name : Text
  pub version : Text
  pub queue_group : Text
  pub endpoints : List EndpointDecl

pub record StreamDecl : Type 0 where
  pub name : Text
  pub subjects : List Text
  pub max_bytes : ℤ
  pub max_age_seconds : ℤ
  pub max_msgs : ℤ

pub record KvDecl : Type 0 where
  pub name : Text
  pub max_bytes : ℤ
  pub ttl_seconds : ℤ
  pub history : ℤ

pub record ObjectDecl : Type 0 where
  pub name : Text
  pub max_bytes : ℤ
  pub ttl_seconds : ℤ

pub record ProtocolRequirements : Type 0 where
  pub major : ℕ
  pub required : List Text
  pub hooks : List Text

-- Manifest, the fields that the modelled rules read; has_family says that Family is not nil.
pub record Manifest : Type 0 where
  pub kind : Text
  pub id : Text
  pub version : Text
  pub identity : Option ManifestIdentity
  pub spawn : Bool
  pub binary : Text
  pub socket : Text
  pub has_family : Bool
  pub static : List StaticMount
  pub aliases : List Text
  pub routes : List Text
  pub public_routes : List Text
  pub publisher : Option Publisher
  pub permissions : Permissions
  pub serves : List ServiceDecl
  pub streams : List StreamDecl
  pub kv : List KvDecl
  pub objects : List ObjectDecl
  pub needs : List Text
  pub capabilities : List Text
  pub protocol : Option ProtocolRequirements

-- Diagnostic: its code and its path. The wording is that of the table and is left out.
pub record Diagnostic : Type 0 where
  pub code : Text
  pub path : Text

abbrev pub finding : Text → Text → Diagnostic
finding code path = record { code = code; path = path }

-- The codes that the table gives the severity of a warning; all others are errors.
unfoldable pub is_warning : Text → Bool
is_warning code =
    if text_eq code (bytes "BDP1006")
    then true
    else if text_eq code (bytes "BDP2212")
    then true
    else if text_eq code (bytes "BDP5001")
    then true
    else if text_eq code (bytes "BDP5002")
    then true
    else if text_eq code (bytes "BDP5003")
    then true
    else text_eq code (bytes "BDP5004")

-- FirstError
unfoldable pub first_error : List Diagnostic → Option Diagnostic
first_error [] = none
first_error (d ∷ ds) = if is_warning d.code then first_error ds else some d

-- fmt.Sprintf("%s[%d]", label, i)
unfoldable pub indexed : Text → ℕ → Text
indexed label i = label ++ (b'[' ∷ (format_uint i ++ b']' ∷ []))
