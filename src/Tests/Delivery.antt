-- ===== src/Tests/Delivery.antt =====
-- Delivery at concrete inputs.
use bytedesk_sdk_dependencie.Prelude.{
  ℕ, false, ◌+◌, ◌<◌, ◌≡◌, refl, some, [], ◌∷◌, Text, bytes, length, get_elem?, is_empty, lookup,
  word, arith, split, text_eq,
}
use bytedesk_sdk_dependencie.Prelude.Int.{pos}
use bytedesk_sdk_dependencie.Bus.Identity.{Identity, Role}
use bytedesk_sdk_dependencie.Bus.Subject.{matches, match_tokens, tokens}
use bytedesk_sdk_dependencie.Memory.Subscription.{new_subscription}
use bytedesk_sdk_dependencie.Memory.Gate.{Store, Mounted, keep}
use bytedesk_sdk_dependencie.Memory.Delivery.{
  alone, eligible, grouped, one_of, turn_of, match_locked,
}
use bytedesk_sdk_dependencie.Memory.Delivery.Turns.{in_group, group_of, match_locked_lem}
use bytedesk_sdk_dependencie.Memory.Delivery.Fairness.{again, match_locked_fair}

abbrev erin : Identity
erin = record {
  plugin_id = bytes "erin";
  generation = bytes "1";
  lease = record { token = [] };
  role = Role.plugin;
  grants = record {
    publish = [];
    subscribe = bytes ">" ∷ [];
    request = [];
    serves = [];
    streams = [];
    kv = [];
    objects = [];
  };
}

abbrev listener : ℕ → Text → Mounted
listener number group = record {
  number = number;
  conn = 1;
  sub = new_subscription erin (bytes "a.*") (record { queue_group = group; pending_limit = pos 0 });
}

-- Two workers of one group and one subscription of its own.
abbrev hall : Store
hall = record {
  deny = [];
  max_payload = pos 0;
  closed = false;
  gen = 1;
  conns = [];
  subs = listener 1 (bytes "w") ∷ listener 2 [] ∷ listener 3 (bytes "w") ∷ [];
  rr = [];
  inboxes = [];
}

match_locked_lem_example :
    (keep (in_group []) (match_locked (bytes "a.b") hall).0 ≡ keep (alone (bytes "a.b")) hall.subs)
    × (is_empty (bytes "w") ≡ false
        → keep (in_group (bytes "w")) (match_locked (bytes "a.b") hall).0
          ≡ one_of (group_of (bytes "a.b") (bytes "w") hall.subs) (turn_of hall.rr (bytes "w")))
match_locked_lem_example = match_locked_lem (bytes "a.b") (bytes "w") hall

third : get_elem? (group_of (bytes "a.b") (bytes "w") hall.subs) 1 ≡ some (listener 3 (bytes "w"))
unfolding group_of grouped eligible keep matches match_tokens tokens split bytes text_eq
    new_subscription
third = refl

turn : turn_of hall.rr (bytes "w") + length (group_of (bytes "a.b") (bytes "w") hall.subs) < word
unfolding turn_of group_of grouped eligible keep lookup matches match_tokens tokens split bytes
    text_eq new_subscription
turn = omega arith

named : is_empty (bytes "w") ≡ false
unfolding bytes
named = refl

match_locked_fair_example :
    (k : ℕ) × ((k < length (group_of (bytes "a.b") (bytes "w") hall.subs))
      × (keep (in_group (bytes "w")) (match_locked (bytes "a.b") (again k (bytes "a.b") hall)).0
          ≡ listener 3 (bytes "w") ∷ []))
match_locked_fair_example =
    match_locked_fair (bytes "a.b") (bytes "w") hall 1 (listener 3 (bytes "w")) named third turn
