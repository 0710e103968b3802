-- ===== src/Tests/Digest.antt =====
-- GrantsDigest at concrete manifests.
use mathlib.Core.List.{Perm}
use bytedesk_sdk_dependencie.Prelude.{
  ◌≡◌, ◌↔◌, refl, false, none, [], ◌∷◌, ◌++◌, bytes, word, ltb→lt, contains_byte, map, join,
  sort_texts, insert_text, text_leb,
}
use bytedesk_sdk_dependencie.Manifest.{Manifest, ServiceDecl}
use bytedesk_sdk_dependencie.Manifest.Digest.{
  service_text, endpoint_text, grants_text, join_fields, join_records,
}
use bytedesk_sdk_dependencie.Manifest.Digest.Consent.{
  IsSized, HaveSameTexts, AreSized, grants_text_iff,
}
use bytedesk_sdk_dependencie.Manifest.Digest.Records.{IsPlainService, service_text_injective}

-- A plugin that publishes two subjects.
abbrev first_order : Manifest
first_order = record {
  kind = [];
  id = bytes "weather";
  version = bytes "1.0.0";
  identity = none;
  spawn = false;
  binary = [];
  socket = [];
  has_family = false;
  static = [];
  aliases = [];
  routes = [];
  public_routes = [];
  publisher = none;
  permissions = record {
    publish = bytes "maps.a" ∷ bytes "maps.b" ∷ [];
    subscribe = [];
    request = [];
  };
  serves = [];
  streams = [];
  kv = [];
  objects = [];
  needs = bytes "kv" ∷ [];
  capabilities = [];
  protocol = none;
}

abbrev second_order : Manifest
second_order = record first_order {
  permissions = record {
    publish = bytes "maps.b" ∷ bytes "maps.a" ∷ [];
    subscribe = [];
    request = [];
  };
}

empty_sized : AreSized []
empty_sized = (ltb→lt 0 word refl, tt)

first-IsSized : IsSized first_order
unfolding bytes
first-IsSized = record {
  publish = (ltb→lt 2 word refl, (ltb→lt 6 word refl, (ltb→lt 6 word refl, tt)));
  request = empty_sized;
  subscribe = empty_sized;
  serves = empty_sized;
  streams = empty_sized;
  kv = empty_sized;
  objects = empty_sized;
  needs = (ltb→lt 1 word refl, (ltb→lt 2 word refl, tt));
  capabilities = empty_sized;
}

second-IsSized : IsSized second_order
unfolding bytes
second-IsSized = record {
  publish = (ltb→lt 2 word refl, (ltb→lt 6 word refl, (ltb→lt 6 word refl, tt)));
  request = empty_sized;
  subscribe = empty_sized;
  serves = empty_sized;
  streams = empty_sized;
  kv = empty_sized;
  objects = empty_sized;
  needs = (ltb→lt 1 word refl, (ltb→lt 2 word refl, tt));
  capabilities = empty_sized;
}

grants_text_iff_example :
    (grants_text first_order ≡ grants_text second_order) ↔ HaveSameTexts first_order second_order
grants_text_iff_example = grants_text_iff first_order second_order first-IsSized second-IsSized

-- One endpoint whose name holds separators, and two endpoints, have one text.
abbrev two_endpoints : ServiceDecl
two_endpoints = record {
  name = bytes "maps";
  version = bytes "1";
  queue_group = [];
  endpoints =
      record { name = bytes "e"; subject = bytes "cmd.maps.e"; point = [] }
      ∷ record { name = bytes "f"; subject = bytes "svc.maps.f"; point = [] }
      ∷ [];
}

abbrev one_endpoint : ServiceDecl
one_endpoint = record two_endpoints {
  endpoints =
      record {
        name = bytes "e" ++ (31 ∷ (bytes "cmd.maps.e" ++ (31 ∷ 30 ∷ bytes "f")));
        subject = bytes "svc.maps.f";
        point = [];
      }
      ∷ [];
}

one_text : service_text one_endpoint ≡ service_text two_endpoints
unfolding bytes service_text endpoint_text join_fields join sort_texts insert_text text_leb
    join_records
one_text = refl

abbrev swapped_endpoints : ServiceDecl
swapped_endpoints = record two_endpoints {
  endpoints =
      record { name = bytes "f"; subject = bytes "svc.maps.f"; point = [] }
      ∷ record { name = bytes "e"; subject = bytes "cmd.maps.e"; point = [] }
      ∷ [];
}

two_plain : IsPlainService two_endpoints
unfolding contains_byte bytes
two_plain = record {
  name = (refl, refl);
  version = (refl, refl);
  queue_group = (refl, refl);
  endpoints = (
    ((refl, refl), (refl, refl), (refl, refl)),
    (((refl, refl), (refl, refl), (refl, refl)), tt),
  );
}

swapped_plain : IsPlainService swapped_endpoints
unfolding contains_byte bytes
swapped_plain = record {
  name = (refl, refl);
  version = (refl, refl);
  queue_group = (refl, refl);
  endpoints = (
    ((refl, refl), (refl, refl), (refl, refl)),
    (((refl, refl), (refl, refl), (refl, refl)), tt),
  );
}

swapped_text : service_text two_endpoints ≡ service_text swapped_endpoints
unfolding bytes service_text endpoint_text join_fields join sort_texts insert_text text_leb
swapped_text = refl

service_text_injective_example :
    (two_endpoints.name ≡ swapped_endpoints.name)
    × (two_endpoints.version ≡ swapped_endpoints.version)
    × (two_endpoints.queue_group ≡ swapped_endpoints.queue_group)
    × Perm
        (map endpoint_text two_endpoints.endpoints)
        (map endpoint_text swapped_endpoints.endpoints)
service_text_injective_example =
    service_text_injective two_endpoints swapped_endpoints two_plain swapped_plain swapped_text
