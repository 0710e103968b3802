-- ===== src/Tests/Services.antt =====
-- Services at concrete inputs.
use bytedesk_sdk_dependencie.Prelude.{
  ◌≡◌, refl, true, false, none, [], ◌∷◌, Text, bytes, All, split, text_eq, has_prefix, any, insert,
  member,
}
use bytedesk_sdk_dependencie.Prelude.Int.{pos}
use bytedesk_sdk_dependencie.Bus.Fault.{Fault, ok, err, denied_fault, attributed, unsupported_fault}
use bytedesk_sdk_dependencie.Bus.Subject.{
  Refusal, parse_subject, parse, is_reserved_token, token, token_ok, matched_by_any, cover_tokens,
  covered_by_any, covers, match_tokens, matches, parse_pattern, parse_token, parse_tokens, tokens,
}
use bytedesk_sdk_dependencie.Bus.Identity.{Identity, Role, identity_string, can, can_pattern, list}
use bytedesk_sdk_dependencie.Memory.Gate.{
  Store, Conn, alive, deny_subject, check_subscribe, deny_pattern, keep, subscribe, withdrawn_fault,
}
use bytedesk_sdk_dependencie.Memory.Delivery.{numbers, drop_subs}
use bytedesk_sdk_dependencie.Memory.Services.{
  EndpointSpec, ServiceSpec, Service, serve, check_serve, services_off, check_endpoints,
  check_endpoint, endpoint_info, endpoint_infos, group_of, mount_endpoints, options_of,
}
use bytedesk_sdk_dependencie.Memory.Services.Mounting.{with_subs, mounts}
use bytedesk_sdk_dependencie.Memory.Services.Granted.{IsOffered, serve_sound}
use bytedesk_sdk_dependencie.Memory.Subscription.{new_subscription, pending_limit}

abbrev cause : Refusal → Text
cause r = bytes "malformed"

abbrev judy : Identity
judy = record {
  plugin_id = bytes "judy";
  generation = bytes "1";
  lease = record { token = [] };
  role = Role.plugin;
  grants = record {
    publish = [];
    subscribe = [];
    request = [];
    serves = bytes "svc.judy.*" ∷ [];
    streams = [];
    kv = [];
    objects = [];
  };
}

abbrev line : Conn
line = record { number = 1; id = judy; gen = 0; closed = false }

abbrev empty_store : Store
empty_store = record {
  deny = [];
  max_payload = pos 0;
  closed = false;
  gen = 0;
  conns = line ∷ [];
  subs = [];
  rr = [];
  inboxes = [];
}

abbrev endpoint : Text → EndpointSpec
endpoint subject = record {
  name = bytes "e";
  subject = subject;
  queue_group = [];
  has_handler = true;
  point = [];
}

abbrev offer : ServiceSpec
offer = record {
  name = bytes "maps";
  version = bytes "1";
  queue_group = [];
  endpoints = endpoint (bytes "svc.judy.a") ∷ endpoint (bytes "svc.judy.b") ∷ [];
}

abbrev greedy : ServiceSpec
greedy = record offer {
  endpoints = endpoint (bytes "svc.judy.a") ∷ endpoint (bytes "svc.kim.b") ∷ [];
}

abbrev service : Service
service = record {
  conn = 1;
  info = record {
    id = bytes "svc1";
    name = bytes "maps";
    version = bytes "1";
    endpoints =
        record {
          name = bytes "e";
          subject = bytes "svc.judy.a";
          queue_group = bytes "maps";
          point = [];
        }
        ∷ record {
          name = bytes "e";
          subject = bytes "svc.judy.b";
          queue_group = bytes "maps";
          point = [];
        }
        ∷ [];
  };
  subs = 7 ∷ 8 ∷ [];
  requests = 0;
  errors = 0;
  started = 5;
  finished = false;
  failure = none;
}

served : (serve cause true 7 (bytes "svc1") 5 empty_store line offer []).0 ≡ ok service
unfolding bytes serve check_serve services_off alive check_endpoints check_endpoint parse_subject
    parse split text_eq is_reserved_token token token_ok deny_subject matched_by_any can attributed
    denied_fault unsupported_fault can_pattern identity_string list cover_tokens covered_by_any
    covers match_tokens matches parse_pattern parse_token parse_tokens tokens drop_subs
    check_subscribe deny_pattern keep subscribe withdrawn_fault endpoint_info endpoint_infos
    group_of mount_endpoints options_of new_subscription pending_limit has_prefix any insert member
served = refl

serve_sound_example :
    All (IsOffered cause empty_store line) offer.endpoints
    × ((serve cause true 7 (bytes "svc1") 5 empty_store line offer []).1
        ≡ with_subs empty_store (mounts 7 line offer offer.endpoints))
    × (service.subs ≡ numbers (mounts 7 line offer offer.endpoints))
serve_sound_example =
    serve_sound cause true 7 (bytes "svc1") 5 empty_store line offer [] service served

abbrev refusal : Fault
refusal =
    denied_fault (bytes "svc.kim.b") (identity_string judy)
      (bytes "no serve grant covers this subject")

not_served : (serve cause true 7 (bytes "svc1") 5 empty_store line greedy []).0 ≡ err refusal
unfolding bytes serve check_serve services_off alive check_endpoints check_endpoint parse_subject
    parse split text_eq is_reserved_token token token_ok deny_subject matched_by_any can attributed
    denied_fault unsupported_fault can_pattern identity_string list cover_tokens covered_by_any
    covers match_tokens matches parse_pattern parse_token parse_tokens tokens drop_subs
    check_subscribe deny_pattern keep subscribe withdrawn_fault endpoint_info endpoint_infos
    group_of mount_endpoints options_of new_subscription pending_limit has_prefix any insert member
not_served = refl
