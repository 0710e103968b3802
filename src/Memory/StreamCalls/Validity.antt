-- ===== src/Memory/StreamCalls/Validity.antt =====
-- The streams of a store through any sequence of the calls in v2/bus/memory/streams.go: each
-- stays well formed and under its own name.
use bytedesk_sdk_dependencie.Prelude.{
  ℕ, ◌≡◌, refl, [], is_empty, Text, lookup, arith, Option-cases, Bool-cases, inl, inr, ap, In, ◌∙◌,
}
use bytedesk_sdk_dependencie.Prelude.Int.{ℤ}
use bytedesk_sdk_dependencie.Bus.Fault.{Result-cases, ok}
use bytedesk_sdk_dependencie.Bus.Subject.{Refusal, parse_pattern}
use bytedesk_sdk_dependencie.Memory.Stamp.{Context}
use bytedesk_sdk_dependencie.Memory.Stream.{Stream, StreamSpec, trim, purge_all, purge_matching}
use bytedesk_sdk_dependencie.Memory.Stream.Shrink.{total}
use bytedesk_sdk_dependencie.Memory.Append.{PublishOptions, append_locked}
use bytedesk_sdk_dependencie.Memory.Append.Validity.{
  append_locked-IsValid, trim-IsValid, purge_all-IsValid, purge_matching-IsValid,
}
use bytedesk_sdk_dependencie.Memory.StreamCalls.{
  Account, Streams, off, fresh_stream, find_route, check_declare, declare, stream_op,
  check_stream_publish, publish_on, publish, lookup_stream,
}
use bytedesk_sdk_dependencie.Memory.StreamCalls.Routing.{find_route-IsRoute}
use bytedesk_sdk_dependencie.Memory.StreamCalls.Manage.{counter, purge, delete}
use bytedesk_sdk_dependencie.Memory.StreamCalls.Kept.{
  AreKept, HasRoom, lookup-In, insert-AreKept, remove-AreKept, append_locked-spec,
}

-- The calls of bus.Streams that change the streams one by one.
pub data Call (error_text : Refusal → Text) : Streams → Streams → Type 0 where
  declared :
      (a : Account) (spec : StreamSpec) (now : ℕ) {streams : Streams}
      → Call error_text streams (declare error_text a spec now streams).1
  published :
      (a : Account) (ctx : Context) (now : ℕ) (subject body : Text) (o : PublishOptions)
      {streams : Streams}
      → HasRoom body streams
      → Call error_text streams (publish error_text a ctx now subject body o streams).1
  counted :
      (a : Account) (subject : Text) (delta : ℤ) {streams : Streams}
      → Call error_text streams (counter error_text a subject delta streams).1
  purged :
      (a : Account) (name filter : Text) {streams : Streams}
      → Call error_text streams (purge error_text a name filter streams).1
  deleted :
      (a : Account) (name : Text) {streams : Streams}
      → Call error_text streams (delete a name streams).1

-- Sequences of calls, the last one outermost.
pub data Reach (error_text : Refusal → Text) : Streams → Type 0 where
  nothing_declared : Reach error_text []
  then_call :
      {before after : Streams}
      → Reach error_text before
      → Call error_text before after
      → Reach error_text after

declare-AreKept :
    (error_text : Refusal → Text) (a : Account) (spec : StreamSpec) (now : ℕ) (streams : Streams)
    → AreKept streams
    → AreKept (declare error_text a spec now streams).1
unfolding declare total
declare-AreKept error_text a spec now streams kept =
    elim (Option-cases (check_declare error_text a spec)) [
      | inr (f, e) ↦ rw (declare, e) kept
      | inl e ↦ elim (Option-cases (lookup spec.name streams)) [
        | inr (st, l) ↦ rw (declare, e, l) kept
        | inl l ↦
            rw (declare, e, l)
              (insert-AreKept spec.name (fresh_stream spec now) streams kept (record {
                valid = record { ascending = omega arith; counted = refl; fits = omega arith };
                named = refl;
              }))
      ]
    ]

publish_on-AreKept :
    (a : Account) (ctx : Context) (now : ℕ) (subject body : Text) (o : PublishOptions) (name : Text)
    (st : Stream) (streams : Streams)
    → In (name, st) streams
    → HasRoom body streams
    → AreKept streams
    → AreKept (publish_on a ctx now subject body o (name, st) streams).1
unfolding publish_on trim
publish_on-AreKept a ctx now subject body o name st streams i room kept =
    let k = kept name st i in
    let (fresh, fits) = room name st i in
    let after = (append_locked ctx a.owner now subject body o st).1 in
    let valid = append_locked-IsValid ctx a.owner now subject body o st k.valid fresh fits in
    let named = append_locked-spec ctx a.owner now subject body o st in
    elim (Result-cases (append_locked ctx a.owner now subject body o st).0) [
      | inl (seq, e) ↦
          rw (publish_on, e)
            (insert-AreKept name (trim after) streams kept (record {
              valid = trim-IsValid after valid;
              named = ap (λ (s : StreamSpec). s.name) named ∙ k.named;
            }))
      | inr (f, e) ↦
          rw (publish_on, e)
            (insert-AreKept name after streams kept
              (record { valid = valid; named = ap (λ (s : StreamSpec). s.name) named ∙ k.named }))
    ]

publish-AreKept :
    (error_text : Refusal → Text) (a : Account) (ctx : Context) (now : ℕ) (subject body : Text)
    (o : PublishOptions) (streams : Streams)
    → HasRoom body streams
    → AreKept streams
    → AreKept (publish error_text a ctx now subject body o streams).1
unfolding publish
publish-AreKept error_text a ctx now subject body o streams room kept =
    elim (Option-cases (off a subject)) [
      | inr (f, e) ↦ rw (publish, e) kept
      | inl e ↦ elim (Option-cases (check_stream_publish error_text a subject body)) [
        | inr (f, c) ↦ rw (publish, e, c) kept
        | inl c ↦ elim (Option-cases (find_route a subject streams)) [
          | inl r ↦ rw (publish, e, c, r) kept
          | inr ((name, st), r) ↦
              rw (publish, e, c, r)
                (publish_on-AreKept a ctx now subject body o name st streams
                  (find_route-IsRoute a subject streams (name, st) r).held room kept)
        ]
      ]
    ]

counter-AreKept :
    (error_text : Refusal → Text) (a : Account) (subject : Text) (delta : ℤ) (streams : Streams)
    → AreKept streams
    → AreKept (counter error_text a subject delta streams).1
unfolding counter
counter-AreKept error_text a subject delta streams kept = elim (Option-cases (off a subject)) [
  | inr (f, e) ↦ rw (counter, e) kept
  | inl e ↦ elim (Bool-cases a.counting) [
    | inr d ↦ rw (counter, e, d) kept
    | inl d ↦ elim (Option-cases (check_stream_publish error_text a subject [])) [
      | inr (f, c) ↦ rw (counter, e, c, d) kept
      | inl c ↦ elim (Option-cases (find_route a subject streams)) [
        | inl r ↦ rw (counter, e, c, r, d) kept
        | inr ((name, st), r) ↦
            let k = kept name st (find_route-IsRoute a subject streams (name, st) r).held in
            rw (counter, e, c, r, d)
              (insert-AreKept name _ streams kept (record {
                valid = record {
                  ascending = k.valid.ascending;
                  counted = k.valid.counted;
                  fits = k.valid.fits;
                };
                named = k.named;
              }))
      ]
    ]
  ]
]

lookup_stream-In :
    (a : Account) (name : Text) (st : Stream) (streams : Streams)
    → lookup_stream a name streams ≡ ok st
    → In (name, st) streams
unfolding lookup_stream
lookup_stream-In a name st streams h = lookup-In name st streams (ground arith)

purge-AreKept :
    (error_text : Refusal → Text) (a : Account) (name filter : Text) (streams : Streams)
    → AreKept streams
    → AreKept (purge error_text a name filter streams).1
unfolding purge purge_all purge_matching
purge-AreKept error_text a name filter streams kept = elim (Option-cases (off a (stream_op name))) [
  | inr (f, e) ↦ rw (purge, e) kept
  | inl e ↦ elim (Result-cases (lookup_stream a name streams)) [
    | inr (f, l) ↦ rw (purge, e, l) kept
    | inl (st, l) ↦
        let k = kept name st (lookup_stream-In a name st streams l) in
        elim (Bool-cases (is_empty filter)) [
          | inl b ↦
              rw (purge, e, l, b)
                (insert-AreKept name (purge_all st) streams kept
                  (record { valid = purge_all-IsValid st; named = k.named }))
          | inr b ↦ elim (Option-cases (parse_pattern filter)) [
            | inr (why, p) ↦ rw (purge, e, l, b, p) kept
            | inl p ↦
                rw (purge, e, l, b, p)
                  (insert-AreKept name (purge_matching filter st) streams kept
                    (record { valid = purge_matching-IsValid filter st k.valid; named = k.named }))
          ]
        ]
  ]
]

delete-AreKept :
    (a : Account) (name : Text) (streams : Streams)
    → AreKept streams
    → AreKept (delete a name streams).1
unfolding delete
delete-AreKept a name streams kept = elim (Option-cases (off a (stream_op name))) [
  | inr (f, e) ↦ rw (delete, e) kept
  | inl e ↦ elim (Result-cases (lookup_stream a name streams)) [
    | inr (f, l) ↦ rw (delete, e, l) kept
    | inl (st, l) ↦ rw (delete, e, l) (remove-AreKept name streams kept)
  ]
]

Call-AreKept :
    {error_text : Refusal → Text} {before after : Streams}
    → Call error_text before after
    → AreKept before
    → AreKept after
Call-AreKept {error_text} {before} (declared a spec now) kept =
    declare-AreKept error_text a spec now before kept
Call-AreKept {error_text} {before} (published a ctx now subject body o room) kept =
    publish-AreKept error_text a ctx now subject body o before room kept
Call-AreKept {error_text} {before} (counted a subject delta) kept =
    counter-AreKept error_text a subject delta before kept
Call-AreKept {error_text} {before} (purged a name filter) kept =
    purge-AreKept error_text a name filter before kept
Call-AreKept {error_text} {before} (deleted a name) kept = delete-AreKept a name before kept

-- After any sequence of calls that begins with no streams, each stream is well formed and is held
-- under its own name, as long as each publish finds room.
pub Reach-AreKept :
    {error_text : Refusal → Text} {streams : Streams} → Reach error_text streams → AreKept streams
Reach-AreKept nothing_declared = λ name st i. elim i [ ]
Reach-AreKept (then_call reached call) = Call-AreKept call (Reach-AreKept reached)
