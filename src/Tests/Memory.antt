-- ===== src/Tests/Memory.antt =====
-- v2/bus/memory at concrete inputs.
use bytedesk_sdk_dependencie.Prelude.{
  ℕ, ◌+◌, ◌≡◌, refl, inr, false, ◌||◌, none, some, [], ◌∷◌, length, Text, bytes, lookup, arith,
  ◌==◌, member,
}
use bytedesk_sdk_dependencie.Prelude.Int.{pos}
use bytedesk_sdk_dependencie.Bus.Fault.{ok}
use bytedesk_sdk_dependencie.Bus.Identity.{Identity, Grants, Role}
use bytedesk_sdk_dependencie.Bus.Msg.{Headers, caller_of}
use bytedesk_sdk_dependencie.Memory.Stamp.{Context, stamp_with, new_msg, copy_for}
use bytedesk_sdk_dependencie.Memory.Stamp.Unforgeable.{caller_of-delivered}
use bytedesk_sdk_dependencie.Memory.Stream.{
  StoredMsg, Stream, StreamSpec, trim, count_subject, expire, find,
}
use bytedesk_sdk_dependencie.Memory.Stream.Shrink.{total, Kept}
use bytedesk_sdk_dependencie.Memory.Stream.Limits.{Within, trim-Within}
use bytedesk_sdk_dependencie.Memory.Append.{PublishOptions, append_locked, repeat_of}
use bytedesk_sdk_dependencie.Memory.Append.Validity.{IsValid}
use bytedesk_sdk_dependencie.Memory.Append.Outcomes.{IsStoredFor, append_locked-stored}
use bytedesk_sdk_dependencie.Memory.Consumer.{ConsumerSpec, ConsumerState, StartPolicy, mark_acked}
use bytedesk_sdk_dependencie.Memory.Consumer.Floor.{InRange, settled, mark_acked_lem}

abbrev nobody : Grants
nobody = record {
  publish = [];
  subscribe = [];
  request = [];
  serves = [];
  streams = [];
  kv = [];
  objects = [];
}

abbrev pub alice : Identity
alice = record {
  plugin_id = bytes "alice";
  generation = bytes "7";
  lease = record { token = [] };
  role = Role.plugin;
  grants = nobody;
}

abbrev quiet : Context
quiet = record { corr = []; traceparent = []; minted = bytes "c0" }

-- A header that claims to be somebody else.
abbrev forged : Headers
forged = (bytes "BD-Caller", bytes "mallory") ∷ []

caller_of-delivered_example :
    caller_of (copy_for (new_msg (bytes "a") [] (stamp_with quiet alice forged) [] none) none)
    ≡ record { plugin_id = bytes "alice"; generation = bytes "7"; subject_lease = [] }
caller_of-delivered_example = caller_of-delivered quiet alice forged (bytes "a") [] [] none

abbrev spec : StreamSpec
spec = record {
  name = bytes "s";
  subjects = bytes ">" ∷ [];
  retention = none;
  max_age = pos 100;
  max_bytes = pos 3;
  max_msgs = pos 2;
  max_msgs_per_subject = pos 1;
  dedupe = pos 10;
}

abbrev msg : ℕ → ℕ → StoredMsg
msg seq c = record {
  seq = seq;
  subject = c ∷ [];
  headers = [];
  body = 1 ∷ 2 ∷ [];
  at = 5;
  expires = none;
}

abbrev pub three : Stream
three = record {
  spec = spec;
  created = 0;
  msgs = msg 1 97 ∷ msg 2 97 ∷ msg 4 98 ∷ [];
  last_seq = 4;
  bytes = 6;
  counters = [];
  dedupe = [];
}

three_counted : three.bytes ≡ total three.msgs
unfolding total
three_counted = refl

trim-Within_example :
    ((s : Text) → Within (pos 1) (count_subject s (trim three).msgs))
    × Within (pos 2) (length (trim three).msgs)
    × Within (pos 3) (total (trim three).msgs)
    × Kept (trim three).msgs three.msgs
    × ((trim three).bytes ≡ total (trim three).msgs)
trim-Within_example = trim-Within three three_counted (omega arith)

pub three-IsValid : IsValid three
unfolding total
three-IsValid = record { ascending = omega arith; counted = refl; fits = omega arith }

abbrev plain : PublishOptions
plain = record { headers = []; msg_id = bytes "m1"; expect_last_seq = 4; ttl = pos 0 }

fresh : repeat_of (expire 9 three) 9 (bytes "m1") ≡ none
unfolding repeat_of expire lookup bytes
fresh = refl

append_locked-stored_example :
    ((append_locked quiet alice 9 (bytes "a") (1 ∷ []) plain three).0 ≡ ok 5)
    × ((m : StoredMsg) × ((find 5
              (append_locked quiet alice 9 (bytes "a") (1 ∷ []) plain three).1.msgs
            ≡ some m)
          × IsStoredFor alice 5 9 (bytes "a") (1 ∷ []) plain m))
append_locked-stored_example =
    append_locked-stored quiet alice 9 (bytes "a") (1 ∷ []) plain three three-IsValid (omega arith)
      fresh (inr refl)

abbrev late : PublishOptions
late = record plain { expect_last_seq = 3 }

abbrev pub consumer_spec : ConsumerSpec
consumer_spec = record {
  name = bytes "c";
  filter = [];
  ack = none;
  ack_wait = pos 0;
  max_deliver = pos 0;
  max_ack_pending = pos 0;
  start = StartPolicy.start_all;
  cursor = [];
  start_time = 0;
}

abbrev pub consumer : ConsumerState
consumer = record {
  name = bytes "c";
  stream = bytes "s";
  spec = consumer_spec;
  next = 3;
  ack_floor = 0;
  acked = 2 ∷ [];
  pending = [];
  deliveries = [];
  started = 1;
}

consumer-InRange : InRange consumer
consumer-InRange = record { floor = omega arith; above = omega arith }

mark_acked_lem_example :
    ((s : ℕ) → settled (mark_acked 1 consumer) s ≡ (1 == s || settled consumer s))
    × (settled (mark_acked 1 consumer) ((mark_acked 1 consumer).ack_floor + 1) ≡ false)
mark_acked_lem_example = mark_acked_lem 1 consumer consumer-InRange (omega arith)

three_unsettled : settled consumer 3 ≡ false
unfolding settled member
three_unsettled = refl
