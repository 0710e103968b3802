-- ===== src/Tests/Gate.antt =====
-- The gate and the lifecycle of the store at concrete inputs.
use bytedesk_sdk_dependencie.Prelude.{
  ◌≢◌, ◌≡◌, ◌↔◌, refl, true, false, none, [], ◌∷◌, Text, bytes, text_eq, split, All, In, has_prefix,
  any,
}
use bytedesk_sdk_dependencie.Prelude.Int.{pos}
use bytedesk_sdk_dependencie.Bus.Identity.{Identity, Role, GrantKind, can, can_pattern, list}
use bytedesk_sdk_dependencie.Bus.Subject.{
  Refusal, matches, match_tokens, covers, cover_tokens, covered_by_any, matched_by_any, tokens,
  parse_subject, parse_pattern, parse, parse_tokens, parse_token, token, token_ok,
  is_reserved_token,
}
use bytedesk_sdk_dependencie.Memory.Subscription.{new_subscription}
use bytedesk_sdk_dependencie.Memory.Gate.{
  Store, Conn, Mounted, alive, deny_subject, deny_pattern, check_publish, check_subscribe, revoke,
}
use bytedesk_sdk_dependencie.Memory.Gate.Safety.{
  MayPass, check_publish_iff, check_publish-check_subscribe,
}
use bytedesk_sdk_dependencie.Memory.Gate.Lifecycle.{revoke_lem, IsEndOf}

abbrev reason : Refusal → Text
reason r = bytes "malformed"

abbrev dave : Identity
dave = record {
  plugin_id = bytes "dave";
  generation = bytes "1";
  lease = record { token = [] };
  role = Role.plugin;
  grants = record {
    publish = bytes ">" ∷ [];
    subscribe = bytes "a.*" ∷ [];
    request = [];
    serves = [];
    streams = [];
    kv = [];
    objects = [];
  };
}

abbrev wire : Conn
wire = record { number = 1; id = dave; gen = 3; closed = false }

abbrev ear : Mounted
ear = record {
  number = 1;
  conn = 1;
  sub = new_subscription dave (bytes "a.b") (record { queue_group = []; pending_limit = pos 0 });
}

abbrev shop : Store
shop = record {
  deny = bytes "*.c" ∷ [];
  max_payload = pos 4;
  closed = false;
  gen = 3;
  conns = wire ∷ [];
  subs = ear ∷ [];
  rr = [];
  inboxes = [];
}

check_publish_iff_example :
    (check_publish reason shop wire GrantKind.publish (bytes "a.b") (bytes "hello") ≡ none)
    ↔ MayPass shop wire GrantKind.publish (bytes "a.b") (bytes "hello")
check_publish_iff_example =
    check_publish_iff reason shop wire GrantKind.publish (bytes "a.b") (bytes "hello")

sent : check_publish reason shop wire GrantKind.publish (bytes "a.b") (bytes "hi") ≡ none
unfolding check_publish alive deny_subject can list matched_by_any matches match_tokens tokens split
    bytes text_eq parse_subject parse parse_tokens parse_token is_reserved_token has_prefix token
    token_ok
sent = refl

read : check_subscribe reason shop wire (bytes "a.*") true true ≡ none
unfolding check_subscribe alive deny_pattern can_pattern list covered_by_any covers cover_tokens
    tokens split bytes text_eq any parse_pattern parse parse_tokens parse_token is_reserved_token
    has_prefix token token_ok
read = refl

met : matches (bytes "a.*") (bytes "a.b") ≡ true
unfolding matches match_tokens tokens split bytes text_eq
met = refl

check_publish-check_subscribe_example :
    (can dave.grants GrantKind.subscribe (bytes "a.b") ≡ true)
    × All (λ d. matches d (bytes "a.b") ≡ false) shop.deny
check_publish-check_subscribe_example =
    check_publish-check_subscribe reason shop shop wire wire GrantKind.publish (bytes "a.b")
      (bytes "hi") (bytes "a.*") true sent read met

revoke_lem_example :
    ((m : Mounted)
      → In m shop.subs
      → m.sub.owner.plugin_id ≡ bytes "dave"
      → (n : Mounted) × (In n (revoke (bytes "dave") shop).0.subs × IsEndOf m n))
    × (((n : Mounted)
          → In n (revoke (bytes "dave") shop).0.subs
          → (m : Mounted) × (In m shop.subs
              × ((m.sub.owner.plugin_id ≡ bytes "dave") × IsEndOf m n)))
        × ((m : Mounted)
            → In m (revoke (bytes "dave") shop).1.subs
              ↔ (In m shop.subs × (m.sub.owner.plugin_id ≢ bytes "dave"))))
revoke_lem_example = revoke_lem (bytes "dave") shop
