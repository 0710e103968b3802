-- ===== src/Memory/StreamCalls/Batch.antt =====
-- streams.PublishBatch of v2/bus/memory/streams.go.
use bytedesk_sdk_dependencie.Prelude.{
  ℕ, ◌==◌, if◌then◌else◌, Bool, false, not, ◌&&◌, ◌||◌, Option, none, some, List, [], ◌∷◌, is_empty,
  Text, bytes, text_eq, Dict, lookup, insert, add64,
}
use bytedesk_sdk_dependencie.Bus.Fault.{Fault, Result, ok, err, unsupported_fault}
use bytedesk_sdk_dependencie.Bus.Subject.{Refusal}
use bytedesk_sdk_dependencie.Memory.Stamp.{Context}
use bytedesk_sdk_dependencie.Memory.Stream.{Stream, trim}
use bytedesk_sdk_dependencie.Memory.Append.{PublishOptions, append_locked, conflict_fault}
use bytedesk_sdk_dependencie.Memory.StreamCalls.{
  Account, Streams, off, absent_stream, find_route, unrouted, check_stream_publish,
}

-- bus.BatchMsg
pub record BatchMsg : Type 0 where
  pub subject : Text
  pub body : Text
  pub options : PublishOptions

module _ (error_text : Refusal → Text) where
  -- The first loop of PublishBatch.
  unfoldable pub check_batch : Account → List BatchMsg → Option Fault
  check_batch a [] = none
  check_batch a (m ∷ ms) =
      let rest = check_batch a ms in
      elim (check_stream_publish error_text a m.subject m.body) [ some f ↦ some f | none ↦ rest ]

-- projected[st]
unfoldable pub projected_of : Dict ℕ → Text × Stream → ℕ
projected_of projected (name, st) = elim (lookup name projected) [
  | some seq ↦ seq
  | none ↦ st.last_seq
]

-- The pre-flight loop of PublishBatch: the plan gives each message the name of its stream.
unfoldable pub plan_batch :
    Account → Streams → Dict ℕ → List BatchMsg → Result (List (Text × BatchMsg))
plan_batch a streams projected [] = ok []
plan_batch a streams projected (m ∷ ms) = elim (find_route a m.subject streams) [
  | none ↦ err (unrouted a m.subject)
  | some r ↦
      let last = projected_of projected r in
      if not (m.options.expect_last_seq == 0) && not (m.options.expect_last_seq == last)
      then err (conflict_fault a.owner m.subject m.options.expect_last_seq r.1 last)
      else elim (plan_batch a streams (insert r.0 (add64 last 1) projected) ms) [
        | err f ↦ err f
        | ok plans ↦ ok ((r.0, m) ∷ plans)
      ]
]

-- The options that the second loop passes on: without the expected sequence.
abbrev pub unconditional : PublishOptions → PublishOptions
unconditional o = record o { expect_last_seq = 0 }

-- The second loop of PublishBatch. A plan's stream is looked up again by its name, which is there.
unfoldable pub apply_batch :
    Account → Context → ℕ → List (Text × BatchMsg) → Streams → Result (List ℕ) × Streams
apply_batch a ctx now [] streams = (ok [], streams)
apply_batch a ctx now ((name, m) ∷ plans) streams = elim (lookup name streams) [
  | none ↦ (err (absent_stream a name), streams)
  | some st ↦
      let (answer, st') =
        append_locked ctx a.owner now m.subject m.body (unconditional m.options) st in
      elim answer [
        | err f ↦ (err f, insert name st' streams)
        | ok seq ↦
            let (answers, streams') = apply_batch a ctx now plans (insert name st' streams) in
            (elim answers [ err f ↦ err f | ok seqs ↦ ok (seq ∷ seqs) ], streams')
      ]
]

-- touched[st]
unfoldable pub touched : List (Text × BatchMsg) → Text → Bool
touched [] name = false
touched ((at, m) ∷ plans) name = text_eq at name || touched plans name

-- The last loop of PublishBatch: each stream that was touched is trimmed once.
unfoldable pub trim_touched : List (Text × BatchMsg) → Streams → Streams
trim_touched plans [] = []
trim_touched plans ((name, st) ∷ streams) =
    (name, if touched plans name then trim st else st) ∷ trim_touched plans streams

-- The two loops after the pre-flight.
unfoldable pub carry_out :
    Account → Context → ℕ → List (Text × BatchMsg) → Streams → Result (List ℕ) × Streams
carry_out a ctx now plans streams =
    let (answers, streams') = apply_batch a ctx now plans streams in
    elim answers [ err f ↦ (err f, streams') | ok seqs ↦ (ok seqs, trim_touched plans streams') ]

module _ (error_text : Refusal → Text) where
  -- streams.PublishBatch
  unfoldable pub publish_batch :
      Account → Context → ℕ → List BatchMsg → Streams → Result (List ℕ) × Streams
  publish_batch a ctx now msgs streams = elim (off a (bytes "stream:batch")) [
    | some f ↦ (err f, streams)
    | none ↦
        if not a.batch
        then (err (unsupported_fault (bytes "stream:batch") (bytes "batch")), streams)
        else if is_empty msgs
        then (ok [], streams)
        else elim (check_batch error_text a msgs) [
          | some f ↦ (err f, streams)
          | none ↦ elim (plan_batch a streams [] msgs) [
            | err f ↦ (err f, streams)
            | ok plans ↦ carry_out a ctx now plans streams
          ]
        ]
  ]
