-- ===== src/Memory/StreamCalls.antt =====
-- The calls of bus.Streams in v2/bus/memory/streams.go on the streams of the store: Declare and
-- Publish here, PublishBatch, Counter, Purge and Delete in the children.
pub mod Batch
pub mod Manage
pub mod Atomic
pub mod Kept
pub mod Validity
pub mod Routing
use bytedesk_sdk_dependencie.Prelude.{
  ℕ, ◌+◌, ◌-◌, ◌==◌, ◌%◌, if◌then◌else◌, Bool, true, false, not, ◌&&◌, ◌||◌, Option, none, some,
  List, [], ◌∷◌, ◌++◌, length, is_empty, map, Text, bytes, text_eq, Dict, lookup, insert, remove,
  add64, exceeds, to_int64, word, format_uint,
}
use bytedesk_sdk_dependencie.Prelude.Int.{ℤ, pos, negsuc, is_zero, pos_part}
use bytedesk_sdk_dependencie.Bus.Fault.{
  Fault, Result, ok, err, schema, budget, not_found, denied_fault, unsupported_fault, attributed,
}
use bytedesk_sdk_dependencie.Bus.Subject.{
  covers, matched_by_any, parse_subject, parse_pattern, Refusal,
}
use bytedesk_sdk_dependencie.Bus.Identity.{Identity, AssetKind, can_use, identity_string}
use bytedesk_sdk_dependencie.Memory.Stamp.{Context}
use bytedesk_sdk_dependencie.Memory.Stream.{
  Stream, StreamSpec, Retention, expire, trim, covers_subject, purge_all, purge_matching,
}
use bytedesk_sdk_dependencie.Memory.Append.{PublishOptions, append_locked, conflict_fault}

-- What a call finds of its connection and of the store's configuration; `alive` is the answer of
-- conn.alive.
pub record Account : Type 0 where
  pub owner : Identity
  pub alive : Option Fault
  pub durable : Bool
  pub batch : Bool
  pub counting : Bool
  pub deny : List Text
  pub max_payload : ℤ

abbrev pub Streams : Type 0
Streams = Dict Stream

-- streams.off
unfoldable pub off : Account → Text → Option Fault
off a op = if a.durable then a.alive else some (unsupported_fault op (bytes "durable"))

abbrev pub stream_op : Text → Text
stream_op name = bytes "stream:" ++ name

-- "principal " + id + ": " + why under a code
abbrev pub refusal_fault : Account → Text → Text → Fault
refusal_fault a op why = record {
  code = schema;
  op = op;
  message = attributed (identity_string a.owner) why;
}

-- streams.deny
unfoldable pub deny_asset : Account → Text → Option Fault
deny_asset a name =
    if can_use a.owner.grants AssetKind.stream name
    then none
    else some (
        denied_fault name (identity_string a.owner)
          (bytes "stream is not provisioned for this principal"))

-- Store.denyPattern on the deny list of the configuration
unfoldable pub denies_pattern : List Text → Text → Bool
denies_pattern [] p = false
denies_pattern (d ∷ deny) p = (covers d p || covers p d) || denies_pattern deny p

unfoldable pub absent_stream : Account → Text → Fault
absent_stream a name = record {
  code = not_found;
  op = stream_op name;
  message = attributed (identity_string a.owner) (bytes "no such stream");
}

-- streams.lookup
unfoldable pub lookup_stream : Account → Text → Streams → Result Stream
lookup_stream a name streams = elim (deny_asset a name) [
  | some f ↦ err f
  | none ↦ elim (lookup name streams) [ some st ↦ ok st | none ↦ err (absent_stream a name) ]
]

-- streams.routeLocked: the first stream in the order of the map, by its name.
unfoldable pub find_route : Account → Text → Streams → Option (Text × Stream)
find_route a subject [] = none
find_route a subject ((name, st) ∷ streams) =
    let rest = find_route a subject streams in
    if can_use a.owner.grants AssetKind.stream name && covers_subject st subject
    then some (name, st)
    else rest

unfoldable pub unrouted : Account → Text → Fault
unrouted a subject = record {
  code = not_found;
  op = subject;
  message =
      attributed (identity_string a.owner)
        (bytes "no stream this principal may use covers this subject");
}

abbrev pub fresh_stream : StreamSpec → ℕ → Stream
fresh_stream spec now = record {
  spec = record spec {
    retention = elim spec.retention [ some r ↦ some r | none ↦ some Retention.limits ];
  };
  created = now;
  msgs = [];
  last_seq = 0;
  bytes = 0;
  counters = [];
  dedupe = [];
}

-- appendLocked and trim on the stream that the subject is routed to. Nothing is trimmed when the
-- append is refused.
unfoldable pub publish_on :
    Account
    → Context
    → ℕ
    → Text
    → Text
    → PublishOptions
    → Text × Stream
    → Streams
    → Result ℕ × Streams
publish_on a ctx now subject body o (name, st) streams =
    let (answer, st') = append_locked ctx a.owner now subject body o st in
    elim answer [
      | err f ↦ (err f, insert name st' streams)
      | ok seq ↦ (ok seq, insert name (trim st') streams)
    ]

module _ (error_text : Refusal → Text) where
  -- The loop of Declare over the subjects.
  unfoldable pub check_subjects : Account → Text → List Text → Option Fault
  check_subjects a name [] = none
  check_subjects a name (p ∷ ps) =
      let rest = check_subjects a name ps in
      elim (parse_pattern p) [
        | some why ↦ some (record { code = schema; op = stream_op name; message = error_text why })
        | none ↦
            if denies_pattern a.deny p
            then some (
                denied_fault (stream_op name) (identity_string a.owner)
                  (bytes "subject " ++ (p ++ bytes " is permanently ineligible")))
            else rest
      ]

  -- What Declare refuses, in its order.
  unfoldable pub check_declare : Account → StreamSpec → Option Fault
  check_declare a spec = elim (off a (stream_op spec.name)) [
    | some f ↦ some f
    | none ↦
        if is_empty spec.name
        then some (refusal_fault a (bytes "stream:") (bytes "stream name is empty"))
        else elim (deny_asset a spec.name) [
          | some f ↦ some f
          | none ↦
              if is_zero spec.max_bytes || is_zero spec.max_age
              then some (
                  refusal_fault a (stream_op spec.name) (
                    bytes "MaxBytes and MaxAge are both required; "
                    ++ bytes "an unbounded stream is refused, not defaulted"))
              else check_subjects a spec.name spec.subjects
        ]
  ]

  -- streams.Declare
  unfoldable pub declare : Account → StreamSpec → ℕ → Streams → Option Fault × Streams
  declare a spec now streams = elim (check_declare a spec) [
    | some f ↦ (some f, streams)
    | none ↦ elim (lookup spec.name streams) [
      | some st ↦ (none, streams)
      | none ↦ (none, insert spec.name (fresh_stream spec now) streams)
    ]
  ]

  -- streams.checkPublish
  unfoldable pub check_stream_publish : Account → Text → Text → Option Fault
  check_stream_publish a subject body = elim (parse_subject subject) [
    | some why ↦ some (record { code = schema; op = subject; message = error_text why })
    | none ↦
        if matched_by_any a.deny subject
        then some (
            denied_fault subject (identity_string a.owner)
              (bytes "subject is permanently ineligible"))
        else if exceeds a.max_payload (pos (length body))
        then some (record {
          code = budget;
          op = subject;
          message = attributed (identity_string a.owner) (
              bytes "payload "
              ++ (format_uint (length body)
                  ++ (bytes " bytes exceeds MaxPayload " ++ format_uint (pos_part a.max_payload))));
        })
        else none
  ]

  -- streams.Publish
  unfoldable pub publish :
      Account → Context → ℕ → Text → Text → PublishOptions → Streams → Result ℕ × Streams
  publish a ctx now subject body o streams = elim (off a subject) [
    | some f ↦ (err f, streams)
    | none ↦ elim (check_stream_publish a subject body) [
      | some f ↦ (err f, streams)
      | none ↦ elim (find_route a subject streams) [
        | none ↦ (err (unrouted a subject), streams)
        | some r ↦ publish_on a ctx now subject body o r streams
      ]
    ]
  ]
