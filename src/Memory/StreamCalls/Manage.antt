-- ===== src/Memory/StreamCalls/Manage.antt =====
-- streams.Counter, streams.Purge and streams.Delete of v2/bus/memory/streams.go.
use bytedesk_sdk_dependencie.Prelude.{
  ℕ, ◌+◌, ◌-◌, ◌%◌, if◌then◌else◌, not, Option, none, some, [], is_empty, Text, bytes, Dict, lookup,
  insert, remove, to_int64, word,
}
use bytedesk_sdk_dependencie.Prelude.Int.{ℤ, pos, negsuc}
use bytedesk_sdk_dependencie.Bus.Fault.{Fault, Result, ok, err, schema, unsupported_fault}
use bytedesk_sdk_dependencie.Bus.Subject.{parse_pattern, Refusal}
use bytedesk_sdk_dependencie.Memory.Stream.{purge_all, purge_matching}
use bytedesk_sdk_dependencie.Memory.StreamCalls.{
  Account, Streams, off, stream_op, lookup_stream, find_route, unrouted, check_stream_publish,
}

-- The bits of an int64.
unfoldable pub bits64 : ℤ → ℕ
bits64 (pos n) = n % word
bits64 (negsuc n) = word - 1 - n % word

-- int64 addition
unfoldable pub add_int64 : ℤ → ℤ → ℤ
add_int64 a b = to_int64 ((bits64 a + bits64 b) % word)

-- st.counters[subject]; a missing key reads as 0.
unfoldable pub counter_of : Dict ℤ → Text → ℤ
counter_of counters subject = elim (lookup subject counters) [ some n ↦ n | none ↦ pos 0 ]

module _ (error_text : Refusal → Text) where
  -- streams.Counter
  unfoldable pub counter : Account → Text → ℤ → Streams → Result ℤ × Streams
  counter a subject delta streams = elim (off a subject) [
    | some f ↦ (err f, streams)
    | none ↦
        if not a.counting
        then (err (unsupported_fault subject (bytes "counters")), streams)
        else elim (check_stream_publish error_text a subject []) [
          | some f ↦ (err f, streams)
          | none ↦ elim (find_route a subject streams) [
            | none ↦ (err (unrouted a subject), streams)
            | some (name, st) ↦
                let n = add_int64 (counter_of st.counters subject) delta in
                (ok n, insert name (record st { counters = insert subject n st.counters }) streams)
          ]
        ]
  ]

  -- streams.Purge
  unfoldable pub purge : Account → Text → Text → Streams → Option Fault × Streams
  purge a name filter streams = elim (off a (stream_op name)) [
    | some f ↦ (some f, streams)
    | none ↦ elim (lookup_stream a name streams) [
      | err f ↦ (some f, streams)
      | ok st ↦
          if is_empty filter
          then (none, insert name (purge_all st) streams)
          else elim (parse_pattern filter) [
            | some why ↦ (
              some (record { code = schema; op = stream_op name; message = error_text why }),
              streams,
            )
            | none ↦ (none, insert name (purge_matching filter st) streams)
          ]
    ]
  ]

-- streams.Delete
unfoldable pub delete : Account → Text → Streams → Option Fault × Streams
delete a name streams = elim (off a (stream_op name)) [
  | some f ↦ (some f, streams)
  | none ↦ elim (lookup_stream a name streams) [
    | err f ↦ (some f, streams)
    | ok st ↦ (none, remove name streams)
  ]
]
