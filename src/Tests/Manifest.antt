-- ===== src/Tests/Manifest.antt =====
-- The rules on manifests at concrete inputs.
use bytedesk_sdk_dependencie.Prelude.{
  ◌≡◌, ◌↔◌, refl, true, false, none, [], ◌∷◌, Text, bytes, All, text_eq, any, split, has_prefix,
  digits_loop, format_uint,
}
use bytedesk_sdk_dependencie.Bus.Subject.{
  has_wildcard, matches, tokens, cover_tokens, covers, is_reserved_token, parse, parse_pattern,
  parse_token, parse_tokens, token, token_ok, match_tokens, parse_subject,
}
use bytedesk_sdk_dependencie.Manifest.{Manifest, EndpointDecl, first_error, is_warning, indexed}
use bytedesk_sdk_dependencie.Manifest.Words.{
  trim_space, trim_left, trim_right, listed, contains_any, contains_text,
}
use bytedesk_sdk_dependencie.Manifest.Namespace.{
  permanently_ineligible, own_namespace_patterns, own_namespace, flatten,
}
use bytedesk_sdk_dependencie.Manifest.Overlap.{
  patterns_overlap, patterns_overlap_iff, overlap_tokens,
}
use bytedesk_sdk_dependencie.Manifest.Subjects.{
  validate_subject_patterns, check_own, check_pattern, check_patterns, check_reach, host_commands,
  intercepts, label, providers, refuse_reserved_tokens, reserved_in, restates,
}
use bytedesk_sdk_dependencie.Manifest.Subjects.Safety.{
  Avoids, Admitted, validate_subject_patterns-Avoids,
}
use bytedesk_sdk_dependencie.Prelude.Int.{pos}
use bytedesk_sdk_dependencie.Manifest.Serves.{
  validate_serves, check_services, check_endpoints, check_endpoint_subject, check_endpoint_point,
  in_own,
}
use bytedesk_sdk_dependencie.Manifest.Serves.Safety.{Exports, validate_serves-Exports}
use bytedesk_sdk_dependencie.Manifest.Assets.{
  validate_assets, check_streams, check_stream_subjects, check_buckets, check_objects,
}
use bytedesk_sdk_dependencie.Manifest.Assets.Bounded.{IsBounded, validate_assets-IsBounded}
use bytedesk_sdk_dependencie.Bus.Msg.{lower, lower_byte}
use bytedesk_sdk_dependencie.Manifest.Points.{
  differences, extends_name_ok, first_with, has_suffix, in_publisher, is_known_point,
  is_one_deletion_from, known_points, segment_bad, suggest_point, validate_point_name,
  within_one_edit,
}

patterns_overlap_iff_example : (patterns_overlap (bytes "a.*") (bytes "*.c") ≡ true) ↔ (
    (s : Text) × ((has_wildcard s ≡ false)
      × ((matches (bytes "a.*") s ≡ true) × (matches (bytes "*.c") s ≡ true))))
patterns_overlap_iff_example = patterns_overlap_iff (bytes "a.*") (bytes "*.c")

-- A plugin that publishes and subscribes in the namespace of another one.
abbrev weather : Manifest
weather = record {
  kind = [];
  id = bytes "weather";
  version = bytes "1.0.0";
  identity = none;
  spawn = false;
  binary = [];
  socket = [];
  has_family = false;
  static = [];
  aliases = [];
  routes = [];
  public_routes = [];
  publisher = none;
  permissions = record {
    publish = bytes "maps.v1.tile.drawn" ∷ [];
    subscribe = bytes "maps.v1.>" ∷ [];
    request = bytes "maps.v1.tile.get" ∷ [];
  };
  serves = [];
  streams = [];
  kv = [];
  objects = [];
  needs = [];
  capabilities = [];
  protocol = none;
}

admissible : first_error (validate_subject_patterns weather) ≡ none
unfolding text_eq any bytes split has_prefix trim_left trim_right trim_space listed contains_any
    contains_text tokens cover_tokens covers is_reserved_token parse parse_pattern parse_token
    parse_tokens token token_ok matches match_tokens has_wildcard check_own check_pattern
    check_patterns check_reach host_commands intercepts label providers refuse_reserved_tokens
    reserved_in restates validate_subject_patterns own_namespace flatten own_namespace_patterns
    permanently_ineligible patterns_overlap overlap_tokens first_error is_warning indexed
admissible = refl

validate_subject_patterns-Avoids_example :
    All (Avoids permanently_ineligible) (own_namespace_patterns (trim_space (bytes "weather")))
    × (All Admitted weather.permissions.publish
        × (All Admitted weather.permissions.subscribe × All Admitted weather.permissions.request))
validate_subject_patterns-Avoids_example = validate_subject_patterns-Avoids weather admissible

abbrev tile : EndpointDecl
tile = record { name = bytes "get"; subject = bytes "svc.weather.v1.get"; point = [] }

-- The same plugin with a service and a stream.
abbrev exporting : Manifest
exporting = record weather {
  serves =
      record {
        name = bytes "maps";
        version = bytes "1.0.0";
        queue_group = [];
        endpoints = tile ∷ [];
      }
      ∷ [];
  streams =
      record {
        name = bytes "log";
        subjects = bytes "event.weather.>" ∷ [];
        max_bytes = pos 1000;
        max_age_seconds = pos 60;
        max_msgs = pos 0;
      }
      ∷ [];
}

exportable : first_error (validate_serves exporting) ≡ none
unfolding first_error validate_serves check_services trim_space trim_left trim_right bytes listed
    check_endpoints check_endpoint_subject parse_subject parse split text_eq is_reserved_token token
    token_ok lower lower_byte parse_token parse_tokens tokens differences extends_name_ok first_with
    has_suffix in_publisher is_known_point is_one_deletion_from known_points segment_bad
    suggest_point validate_point_name within_one_edit check_endpoint_point in_own
    refuse_reserved_tokens reserved_in indexed is_warning has_prefix digits_loop format_uint any
exportable = refl

validate_serves-Exports_example : All (Exports (trim_space (bytes "weather"))) exporting.serves
validate_serves-Exports_example = validate_serves-Exports exporting exportable

limited : first_error (validate_assets exporting) ≡ none
unfolding first_error validate_assets check_streams trim_space trim_left trim_right bytes listed
    check_stream_subjects parse_pattern parse split text_eq is_reserved_token token token_ok
    refuse_reserved_tokens reserved_in check_buckets parse_token parse_tokens tokens check_objects
    indexed is_warning has_prefix digits_loop format_uint
limited = refl

validate_assets-IsBounded_example : All IsBounded exporting.streams
validate_assets-IsBounded_example = validate_assets-IsBounded exporting limited
