-- ===== src/Tests/StreamCalls.antt =====
-- The calls on streams at concrete inputs.
use bytedesk_sdk_dependencie.Prelude.{
  ℕ, ◌≡◌, ◌≢◌, ◌⊎◌, refl, true, none, List, [], ◌∷◌, Text, bytes, length, lookup, here, there,
  arith, ◌+◌, ◌<◌, word, half_word, subst, sym, split, text_eq, insert, has_prefix,
}
use bytedesk_sdk_dependencie.Prelude.Int.{pos}
use bytedesk_sdk_dependencie.Bus.Fault.{Fault, ok, err, attributed, denied_fault, unsupported_fault}
use bytedesk_sdk_dependencie.Bus.Identity.{Role, can_use, contains, identity_string}
use bytedesk_sdk_dependencie.Bus.Subject.{
  Refusal, parse_subject, parse, is_reserved_token, token, token_ok, matched_by_any, matches,
  match_tokens, parse_pattern, covers, cover_tokens, parse_token, parse_tokens, tokens,
}
use bytedesk_sdk_dependencie.Memory.Stamp.{Context}
use bytedesk_sdk_dependencie.Memory.Stream.{Stream, StreamSpec, covers_subject, expire}
use bytedesk_sdk_dependencie.Memory.Stream.Shrink.{total}
use bytedesk_sdk_dependencie.Memory.Append.{
  PublishOptions, append_locked, append_live, repeat_of, store_msg,
}
use bytedesk_sdk_dependencie.Memory.StreamCalls.{
  Account, Streams, fresh_stream, declare, publish, off, check_stream_publish, find_route,
  check_declare, deny_asset, check_subjects, denies_pattern, publish_on,
}
use bytedesk_sdk_dependencie.Memory.StreamCalls.Batch.{
  BatchMsg, publish_batch, check_batch, plan_batch, carry_out, apply_batch,
}
use bytedesk_sdk_dependencie.Memory.StreamCalls.Atomic.{publish_batch_atomic}
use bytedesk_sdk_dependencie.Memory.StreamCalls.Routing.{IsCleared, IsRoute, Lands, publish_sound}
use bytedesk_sdk_dependencie.Memory.StreamCalls.Kept.{AreKept, HasRoom}
use bytedesk_sdk_dependencie.Memory.StreamCalls.Validity.{
  declared, published, nothing_declared, then_call, Reach-AreKept,
}

abbrev reason : Refusal → Text
reason r = bytes "malformed"

abbrev books : Account
books = record {
  owner = record {
    plugin_id = bytes "books";
    generation = bytes "1";
    lease = record { token = [] };
    role = Role.plugin;
    grants = record {
      publish = [];
      subscribe = [];
      request = [];
      serves = [];
      streams = bytes "log" ∷ [];
      kv = [];
      objects = [];
    };
  };
  alive = none;
  durable = true;
  batch = true;
  counting = true;
  deny = bytes "x.>" ∷ [];
  max_payload = pos 8;
}

abbrev log : StreamSpec
log = record {
  name = bytes "log";
  subjects = bytes "a.*" ∷ [];
  retention = none;
  max_age = pos 100;
  max_bytes = pos 1000;
  max_msgs = pos 0;
  max_msgs_per_subject = pos 0;
  dedupe = pos 0;
}

abbrev moment : Context
moment = record { corr = []; traceparent = []; minted = bytes "c1" }

abbrev plain : PublishOptions
plain = record { msg_id = []; expect_last_seq = 0; headers = []; ttl = pos 0 }

abbrev shelf : Streams
shelf = (declare reason books log 5 []).1

abbrev pair : List BatchMsg
pair =
    record { subject = bytes "a.b"; body = bytes "one"; options = plain }
    ∷ record { subject = bytes "a.c"; body = bytes "two"; options = plain }
    ∷ []

publish_batch_atomic_example :
    ((f : Fault) × (publish_batch reason books moment 6 pair shelf ≡ (err f, shelf)))
    ⊎ ((seqs : List ℕ) × ((publish_batch reason books moment 6 pair shelf).0 ≡ ok seqs)
        × (length seqs ≡ length pair))
publish_batch_atomic_example = publish_batch_atomic reason books moment 6 pair shelf

-- On this store the batch is taken.
taken : (publish_batch reason books moment 6 pair shelf).0 ≡ ok (1 ∷ 2 ∷ [])
unfolding publish_batch off check_batch check_stream_publish parse_subject parse bytes split text_eq
    is_reserved_token token token_ok matched_by_any matches match_tokens plan_batch find_route
    declare check_declare deny_asset can_use contains check_subjects parse_pattern denies_pattern
    covers cover_tokens lookup insert covers_subject carry_out apply_batch append_locked append_live
    repeat_of expire store_msg
taken = refl

answered : (publish reason books moment 6 (bytes "a.b") (bytes "one") plain shelf).0 ≡ ok 1
unfolding bytes publish off check_stream_publish parse_subject parse split text_eq is_reserved_token
    token token_ok matched_by_any matches match_tokens find_route declare check_declare deny_asset
    can_use contains check_subjects parse_pattern denies_pattern covers cover_tokens lookup insert
    covers_subject publish_on append_locked append_live repeat_of expire
answered = refl

publish_sound_example :
    IsCleared books (bytes "a.b") (bytes "one")
    × ((route : Text × Stream) × IsRoute books (bytes "a.b") shelf route
        × (Lands books.owner 1 6
              (bytes "a.b")
              (bytes "one")
              plain
              route
              (publish reason books moment 6 (bytes "a.b") (bytes "one") plain shelf).1
            × ((other : Text)
                → other ≢ route.0
                → lookup other
                    (publish reason books moment 6 (bytes "a.b") (bytes "one") plain shelf).1
                  ≡ lookup other shelf)))
publish_sound_example =
    publish_sound reason books moment 6 (bytes "a.b") (bytes "one") plain shelf 1 answered

shelved : shelf ≡ (bytes "log", fresh_stream log 5) ∷ []
unfolding bytes declare check_declare off deny_asset can_use contains text_eq check_subjects
    parse_pattern parse split is_reserved_token token token_ok denies_pattern covers attributed
    denied_fault unsupported_fault identity_string cover_tokens parse_token parse_tokens tokens
    has_prefix insert lookup
shelved = refl

HasRoom-one :
    (body name : Text) (st : Stream)
    → st.last_seq + 1 < word
    → total st.msgs + length body < half_word
    → HasRoom body ((name, st) ∷ [])
HasRoom-one body name st a b at held here = (a, b)
HasRoom-one body name st a b at held (there i) = elim i [ ]

roomy : HasRoom (bytes "one") shelf
unfolding bytes total
roomy =
    subst (HasRoom (bytes "one")) (sym shelved)
      (HasRoom-one (bytes "one") (bytes "log") (fresh_stream log 5) (omega arith) (omega arith))

Reach-AreKept_example :
    AreKept (publish reason books moment 6 (bytes "a.b") (bytes "one") plain shelf).1
Reach-AreKept_example = Reach-AreKept (
    then_call (then_call nothing_declared (declared books log 5))
      (published books moment 6 (bytes "a.b") (bytes "one") plain roomy))
